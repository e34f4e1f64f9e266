-- ===== src/Wal/Values.antt =====
-- `restore_table` of backend/src/utils.cpp on one entry of a checkpoint, which may span lines.
use penn_mail_and_penn_drive.Base.{
  ℕ, ◌≡◌, refl, ap, sym, ◌∙◌, ◌++◌, List, [], ◌∷◌, true, false, none, some, arith, Bool-cases, inl,
  inr, ◌==◌, append_assoc, append-nil, All, nat_eq, list_eq, pair_eq, subst,
}
use penn_mail_and_penn_drive.Base.Text.{Text, find, tokens, split, is_space}
use penn_mail_and_penn_drive.Base.Text.Laws.{tokens-append, tokens_at_separator, tokens_at_other}
use penn_mail_and_penn_drive.Base.Text.Search.{find_prefix-none}
use penn_mail_and_penn_drive.Server.{Key, Store}
use penn_mail_and_penn_drive.Command.{space, newline}
use penn_mail_and_penn_drive.Wal.{
  mark, skip_space, word, Entry, read_entry, restore_entry, restore_lines,
}

abbrev pub NoSpace : ℕ → Type 0
NoSpace x = is_space x ≡ false

-- A row or a column: not empty, and without blanks.
abbrev pub IsWord : Text → Type 0
IsWord [] = ⊥
IsWord (x ∷ w) = All NoSpace (x ∷ w)

-- A value starts with no blank, unless it is a line end.
abbrev pub StartsPlain : Text → Type 0
StartsPlain [] = Unit
StartsPlain (x ∷ v) = (x == newline) ≡ false → NoSpace x

abbrev pub NoLead : Text → Type 0
NoLead [] = Unit
NoLead (x ∷ v) = NoSpace x

-- The first mark behind a value is its own.
abbrev pub KeepsMark : Text → Type 0
KeepsMark val = find mark (val ++ mark) ≡ some (val, [])

-- What a checkpoint can hold.
abbrev pub IsStorable : Key × Text → Type 0
IsStorable ((row, col), val) = IsWord row × IsWord col × StartsPlain val × KeepsMark val

word-append : (w r : Text) → All NoSpace w → word (w ++ space ∷ r) ≡ (w, space ∷ r)
unfolding word is_space
word-append [] r h = refl
word-append (x ∷ w) r h = rw (word, h.0, word-append w r h.1) refl

skip_space-word : (w r : Text) → IsWord w → skip_space (w ++ r) ≡ w ++ r
unfolding skip_space
skip_space-word [] r h = elim h [ ]
skip_space-word (x ∷ w) r h = rw (skip_space, h.0) refl

skip_space-blank : (v : Text) → NoLead v → skip_space (space ∷ v) ≡ v
unfolding skip_space is_space
skip_space-blank [] h = refl
skip_space-blank (x ∷ v) h = rw (skip_space, h) refl

abbrev pub entry : Text → Text → Text → Entry
entry row col val = record { row = row; col = col; value = val }

-- The line of a row, a column and the start of a value.
abbrev pub line_of : Text → Text → Text → Text
line_of row col v = row ++ space ∷ (col ++ space ∷ v)

read_entry-value :
    (row col v : Text) (e : Entry)
    → IsWord row
    → IsWord col
    → NoLead v
    → e.value ≡ []
    → read_entry (line_of row col v) e ≡ entry row col v
unfolding read_entry
read_entry-value [] col v e row_word col_word lead empty = elim row_word [ ]
read_entry-value (c ∷ w) [] v e row_word col_word lead empty = elim col_word [ ]
read_entry-value (c ∷ w) (d ∷ q) [] e row_word col_word lead empty =
    rw
      (
        read_entry,
        skip_space-word (c ∷ w) (space ∷ (d ∷ q ++ space ∷ [])) row_word,
        word-append (c ∷ w) (d ∷ q ++ space ∷ []) row_word,
        skip_space-blank (d ∷ q ++ space ∷ []) col_word.0,
        word-append (d ∷ q) [] col_word,
        skip_space-blank [] lead,
        empty,
        word-append (c ∷ w) (d ∷ q ++ space ∷ []) row_word,
        word-append (d ∷ q) [] col_word,
      )
      refl
read_entry-value (c ∷ w) (d ∷ q) (x ∷ v) e row_word col_word lead empty =
    rw
      (
        read_entry,
        skip_space-word (c ∷ w) (space ∷ (d ∷ q ++ space ∷ x ∷ v)) row_word,
        word-append (c ∷ w) (d ∷ q ++ space ∷ x ∷ v) row_word,
        skip_space-blank (d ∷ q ++ space ∷ x ∷ v) col_word.0,
        word-append (d ∷ q) (x ∷ v) col_word,
        skip_space-blank (x ∷ v) lead,
        word-append (c ∷ w) (d ∷ q ++ space ∷ x ∷ v) row_word,
        word-append (d ∷ q) (x ∷ v) col_word,
      )
      refl

-- A value's start still stands behind no blank when one more byte is read.
NoLead-longer :
    (v m : Text) (x : ℕ)
    → (x == newline) ≡ false
    → StartsPlain (v ++ x ∷ m)
    → NoLead v
    → NoLead (v ++ x ∷ [])
NoLead-longer [] m x other plain lead = plain other
NoLead-longer (y ∷ v) m x other plain lead = lead

NoLead-mark : (v : Text) → NoLead v → NoLead (v ++ mark)
unfolding is_space
NoLead-mark [] lead = refl
NoLead-mark (x ∷ v) lead = lead

no_mark_yet : (val a m : Text) (x : ℕ) → val ≡ a ++ x ∷ m → KeepsMark val → find mark a ≡ none
no_mark_yet val a m x e f = find_prefix-none mark a (m ++ mark) val x (
    ap (find mark) (sym (append_assoc a (x ∷ m) mark))
    ∙ ap (λ z. find mark (z ++ mark)) (sym e)
    ∙ f)

module _ (t : ℕ) (row col val rest : Text) (row_word : IsWord row) (col_word : IsWord col)
    (keeps : KeepsMark val) where
  -- What is left when the entry is read.
  abbrev pub restored : List Text → Store → Store
  restored lines s =
      restore_lines t false lines (entry row col []) (restore_entry t (row, col) val s)

  value_stays_open :
      (lines : List Text) (start line : Text) (s : Store)
      → find mark (start ++ line) ≡ none
      → restore_lines t true (line ∷ lines) (entry row col start) s
        ≡ restore_lines t true lines (entry row col ((start ++ line) ++ newline ∷ [])) s
  unfolding restore_lines
  value_stays_open lines start line s e = rw (e, restore_lines)

  value_closes :
      (lines : List Text) (start line : Text) (s : Store)
      → start ++ line ≡ val ++ mark
      → restore_lines t true (line ∷ lines) (entry row col start) s ≡ restored lines s
  unfolding restore_lines
  value_closes lines start line s e = rw (restore_lines, e, keeps) refl

  value_opens :
      (lines : List Text) (v : Text) (e : Entry) (s : Store)
      → NoLead v
      → e.value ≡ []
      → find mark v ≡ none
      → restore_lines t false (line_of row col v ∷ lines) e s
        ≡ restore_lines t true lines (entry row col (v ++ newline ∷ [])) s
  unfolding restore_lines
  value_opens lines v e s lead empty none_yet =
      let reads = read_entry-value row col v e row_word col_word lead empty in
      rw (restore_lines, reads, none_yet, reads) refl

  value_of_one_line :
      (lines : List Text) (e : Entry) (s : Store)
      → NoLead val
      → e.value ≡ []
      → restore_lines t false (line_of row col (val ++ mark) ∷ lines) e s ≡ restored lines s
  unfolding restore_lines
  value_of_one_line lines e s lead empty =
      let reads =
        read_entry-value row col (val ++ mark) e row_word col_word (NoLead-mark val lead) empty in
      rw (restore_lines, reads, keeps, reads) refl

  -- The lines up to the mark are put together behind what was read of the value.
  value_continues :
      (m start token : Text) (s : Store)
      → val ≡ (start ++ token) ++ m
      → restore_lines t true
          (tokens newline (m ++ (mark ++ newline ∷ rest)) token)
          (entry row col start)
          s
        ≡ restored (split newline rest) s
  unfolding split
  value_continues [] start token s e =
      ap (λ z. restore_lines t true z (entry row col start) s)
        (tokens-append newline mark rest token (omega arith))
      ∙ value_closes (split newline rest) start (token ++ mark) s
          (rw e (simp (append_assoc, append-nil)))
  value_continues (x ∷ m) start token s e = elim (Bool-cases (x == newline)) [
    | inl q ↦
        ap (λ z. restore_lines t true z (entry row col start) s)
          (tokens_at_separator newline x (m ++ (mark ++ newline ∷ rest)) token q)
        ∙ value_stays_open (split newline (m ++ (mark ++ newline ∷ rest))) start token s
            (no_mark_yet val (start ++ token) m x e keeps)
        ∙ value_continues m ((start ++ token) ++ newline ∷ []) [] s (
            let x_newline : x ≡ newline = ground arith in
            e ∙ rw x_newline (simp (append_assoc, append-nil)))
    | inr q ↦
        ap (λ z. restore_lines t true z (entry row col start) s)
          (tokens_at_other newline x (m ++ (mark ++ newline ∷ rest)) token q)
        ∙ value_continues m start (token ++ x ∷ []) s (e ∙ simp append_assoc)
  ]

  -- The first line of an entry, of which the row, the column and `v` were read.
  pub value_starts :
      (m v : Text) (e : Entry) (s : Store)
      → val ≡ v ++ m
      → NoLead v
      → StartsPlain val
      → e.value ≡ []
      → restore_lines t false
          (tokens newline (m ++ (mark ++ newline ∷ rest)) (line_of row col v))
          e
          s
        ≡ restored (split newline rest) s
  unfolding split
  value_starts [] v e s same lead plain empty =
      ap (λ z. restore_lines t false z e s)
        (tokens-append newline mark rest (line_of row col v) (omega arith))
      ∙ ap (λ z. restore_lines t false (z ∷ split newline rest) e s)
          ((simp append_assoc) ∙ ap (λ z. line_of row col (z ++ mark)) (sym (same ∙ append-nil v)))
      ∙ value_of_one_line (split newline rest) e s (subst NoLead (sym (same ∙ append-nil v)) lead)
          empty
  value_starts (x ∷ m) v e s same lead plain empty = elim (Bool-cases (x == newline)) [
    | inl q ↦
        ap (λ z. restore_lines t false z e s)
          (tokens_at_separator newline x (m ++ (mark ++ newline ∷ rest)) (line_of row col v) q)
        ∙ value_opens (split newline (m ++ (mark ++ newline ∷ rest))) v e s lead empty
            (no_mark_yet val v m x same keeps)
        ∙ value_continues m (v ++ newline ∷ []) [] s (
            let x_newline : x ≡ newline = ground arith in
            same ∙ rw x_newline (simp (append_assoc, append-nil)))
    | inr q ↦
        ap (λ z. restore_lines t false z e s)
          (tokens_at_other newline x (m ++ (mark ++ newline ∷ rest)) (line_of row col v) q
            ∙ ap (tokens newline (m ++ (mark ++ newline ∷ rest))) (simp append_assoc))
        ∙ value_starts m (v ++ x ∷ []) e s (same ∙ simp append_assoc)
            (NoLead-longer v m x q (subst StartsPlain same plain) lead) plain empty
  ]
