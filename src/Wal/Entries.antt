-- ===== src/Wal/Entries.antt =====
-- `recover_table` of backend/src/utils.cpp on one entry of a log, which may span lines.
use penn_mail_and_penn_drive.Base.{
  ℕ, ◌≡◌, refl, ap, sym, ◌∙◌, ◌++◌, List, [], ◌∷◌, none, some, arith, ◌>>=◌, Bool-cases, inl, inr,
  ◌==◌, append_assoc, append-nil, All, All-append,
}
use penn_mail_and_penn_drive.Base.Text.{Text, codes, Lacks, find, after, tokens, split, to_string}
use penn_mail_and_penn_drive.Base.Text.Laws.{
  tokens-append, tokens_pass, tokens_at_separator, tokens_at_other, after-append, find_at_start,
}
use penn_mail_and_penn_drive.Base.Text.Numbers.{to_string-Lacks, to_string-Digit, Digit}
use penn_mail_and_penn_drive.Base.Text.Search.{find_prefix-none, find_barrier, find_skip, in_front}
use penn_mail_and_penn_drive.Server.{Store}
use penn_mail_and_penn_drive.Command.{space, newline}
use penn_mail_and_penn_drive.Wal.{mark, log_line, replay_entry, recover_lines}

-- The first mark in `text` and the mark behind it is that mark.
abbrev pub EndsAtMark : Text → Type 0
EndsAtMark text = (w : Text) × (find mark (text ++ mark) ≡ some (w, []))

module _ (t : ℕ) (lines : List Text) (s : Store) where
  entry_stays_open :
      (start line : Text)
      → find mark (start ++ line) ≡ none
      → recover_lines t (some start) (line ∷ lines) s
        ≡ recover_lines t (some ((start ++ line) ++ newline ∷ [])) lines s
  unfolding recover_lines
  entry_stays_open start line e = rw (e, recover_lines)

  entry_closes :
      (start line text : Text) {p : Text × Text}
      → start ++ line ≡ text
      → find mark text ≡ some p
      → recover_lines t (some start) (line ∷ lines) s
        ≡ (replay_entry text t s >>= recover_lines t none lines)
  unfolding recover_lines
  entry_closes start line text same e = rw (same, e, recover_lines, same)

  entry_opens :
      (line text : Text)
      → after space line ≡ text
      → find mark text ≡ none
      → recover_lines t none (line ∷ lines) s
        ≡ recover_lines t (some (text ++ newline ∷ [])) lines s
  unfolding recover_lines
  entry_opens line text same e = rw (same, e, recover_lines, same)

  entry_of_one_line :
      (line text : Text) {p : Text × Text}
      → after space line ≡ text
      → find mark text ≡ some p
      → recover_lines t none (line ∷ lines) s
        ≡ (replay_entry text t s >>= recover_lines t none lines)
  unfolding recover_lines
  entry_of_one_line line text same e = rw (same, e, recover_lines, same)

-- Before the mark of an entry, no line end is taken for its end.
no_mark_yet :
    (whole a m : Text) (x : ℕ) → whole ≡ a ++ x ∷ m → EndsAtMark whole → find mark a ≡ none
no_mark_yet whole a m x e (w, f) = find_prefix-none mark a (m ++ mark) w x (
    ap (find mark) (sym (append_assoc a (x ∷ m) mark))
    ∙ ap (λ z. find mark (z ++ mark)) (sym e)
    ∙ f)

-- The lines up to the mark are put together behind what was read of the entry.
entry_continues :
    (t : ℕ) (m start token whole rest : Text) (s : Store)
    → whole ≡ (start ++ token) ++ m
    → EndsAtMark whole
    → recover_lines t (some start) (tokens newline (m ++ (mark ++ newline ∷ rest)) token) s
      ≡ (replay_entry (whole ++ mark) t s >>= recover_lines t none (split newline rest))
unfolding split
entry_continues t [] start token whole rest s e f =
    ap (λ z. recover_lines t (some start) z s) (tokens-append newline mark rest token (omega arith))
    ∙ entry_closes t (split newline rest) s start (token ++ mark) (whole ++ mark)
        (rw e (simp (append_assoc, append-nil))) f.1
entry_continues t (x ∷ m) start token whole rest s e f = elim (Bool-cases (x == newline)) [
  | inl q ↦
      ap (λ z. recover_lines t (some start) z s)
        (tokens_at_separator newline x (m ++ (mark ++ newline ∷ rest)) token q)
      ∙ entry_stays_open t (split newline (m ++ (mark ++ newline ∷ rest))) s start token
          (no_mark_yet whole (start ++ token) m x e f)
      ∙ entry_continues t m ((start ++ token) ++ newline ∷ []) [] whole rest s
          (let x_newline : x ≡ newline = ground arith in
            rw e (rw x_newline (simp (append_assoc, append-nil))))
          f
  | inr q ↦
      ap (λ z. recover_lines t (some start) z s)
        (tokens_at_other newline x (m ++ (mark ++ newline ∷ rest)) token q)
      ∙ entry_continues t m start (token ++ x ∷ []) whole rest s (rw e (simp append_assoc)) f
]

-- The first line of an entry starts with its number; `token` is what was read of that line.
entry_starts :
    (t : ℕ) (m token text whole rest : Text) (s : Store)
    → ((z : Text) → after space (token ++ z) ≡ text ++ z)
    → whole ≡ text ++ m
    → EndsAtMark whole
    → recover_lines t none (tokens newline (m ++ (mark ++ newline ∷ rest)) token) s
      ≡ (replay_entry (whole ++ mark) t s >>= recover_lines t none (split newline rest))
unfolding split
entry_starts t [] token text whole rest s behind e f =
    ap (λ z. recover_lines t none z s) (tokens-append newline mark rest token (omega arith))
    ∙ entry_of_one_line t (split newline rest) s (token ++ mark) (whole ++ mark)
        (behind mark ∙ ap (λ z. z ++ mark) (sym (e ∙ append-nil text))) f.1
entry_starts t (x ∷ m) token text whole rest s behind e f = elim (Bool-cases (x == newline)) [
  | inl q ↦
      ap (λ z. recover_lines t none z s)
        (tokens_at_separator newline x (m ++ (mark ++ newline ∷ rest)) token q)
      ∙ entry_opens t (split newline (m ++ (mark ++ newline ∷ rest))) s token text
          (ap (after space) (sym (append-nil token)) ∙ behind [] ∙ append-nil text)
          (no_mark_yet whole text m x e f)
      ∙ entry_continues t m (text ++ newline ∷ []) [] whole rest s
          (let x_newline : x ≡ newline = ground arith in
            rw e (rw x_newline (simp (append_assoc, append-nil))))
          f
  | inr q ↦
      ap (λ z. recover_lines t none z s)
        (tokens_at_other newline x (m ++ (mark ++ newline ∷ rest)) token q)
      ∙ entry_starts t m (token ++ x ∷ []) (text ++ x ∷ []) whole rest s
          (λ z.
            ap (after space) (append_assoc token (x ∷ []) z)
            ∙ behind (x ∷ z)
            ∙ sym (append_assoc text (x ∷ []) z))
          (rw e (simp append_assoc)) f
]

Lacks-bar : (s : Text) → All Digit s → Lacks b'|' s
Lacks-bar [] d = tt
Lacks-bar (x ∷ s) d = (omega arith, Lacks-bar s d.1)

-- A message without a mark has none behind it but that of its entry.
pub EndsAtMark-entry :
    (message : Text) (n : ℕ)
    → find mark message ≡ none
    → EndsAtMark (message ++ space ∷ to_string n)
EndsAtMark-entry message n e = ((message ++ space ∷ []) ++ to_string n, found)
  where
    found :
        find mark ((message ++ space ∷ to_string n) ++ mark)
        ≡ some ((message ++ space ∷ []) ++ to_string n, [])
    found =
        ap (find mark) (append_assoc message (space ∷ to_string n) mark)
        ∙ find_barrier space mark message (to_string n ++ mark) (omega arith) (λ q. cc) e
        ∙ ap (in_front (message ++ space ∷ [])) (
            find_skip b'|' (codes "|END||") (to_string n) mark (Lacks-bar _ (to_string-Digit n))
            ∙ ap (in_front (to_string n)) (find_at_start mark [])
            ∙ ap (λ z. some (z, [])) (append-nil (to_string n)))

-- The entry that `log_message` wrote, with the mark and the line end of `flush_log`, is read back
-- as the message, whatever line ends the message holds, if it does not hold the mark `||END||`; the
-- lines behind it are read on.
pub recover-log_line :
    (t number last_seq : ℕ) (message rest : Text) (s : Store)
    → find mark message ≡ none
    → recover_lines t none
        (split newline ((log_line number message last_seq ++ mark) ++ newline ∷ rest))
        s
      ≡ (replay_entry ((message ++ space ∷ to_string last_seq) ++ mark) t s
          >>= recover_lines t none (split newline rest))
unfolding split
recover-log_line t number last_seq message rest s e =
    ap (λ z. recover_lines t none (tokens newline z []) s) regroup
    ∙ ap (λ z. recover_lines t none z s)
        (tokens_pass newline head (body ++ (mark ++ newline ∷ rest)) [] (
          All-append _ (to_string number) (space ∷ [])
            (to_string-Lacks newline number (omega arith)) (omega arith)))
    ∙ entry_starts t body head [] body rest s behind refl (EndsAtMark-entry message last_seq e)
  where
    head : Text
    head = to_string number ++ space ∷ []

    body : Text
    body = message ++ space ∷ to_string last_seq

    regroup :
        (log_line number message last_seq ++ mark) ++ newline ∷ rest
        ≡ head ++ (body ++ (mark ++ newline ∷ rest))
    regroup = simp append_assoc

    behind : (z : Text) → after space (head ++ z) ≡ z
    behind z =
        ap (after space) (append_assoc (to_string number) (space ∷ []) z)
        ∙ after-append space (to_string number) z (to_string-Lacks space number (omega arith))
