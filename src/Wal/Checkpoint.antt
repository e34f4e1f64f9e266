-- ===== src/Wal/Checkpoint.antt =====
-- `restore_table` and `recover_table` of backend/src/utils.cpp on the files that
-- `create_new_checkpoint` writes.
use penn_mail_and_penn_drive.Base.{
  ℕ, ◌≡◌, refl, ap, ◌∙◌, ◌++◌, [], ◌∷◌, false, arith, Bool-cases, inl, inr, append_assoc, All,
  All-append, nat_eq, list_eq, pair_eq,
}
use penn_mail_and_penn_drive.Base.Maps.{Map, has, update, update_self}
use penn_mail_and_penn_drive.Base.Maps.Distinct.{insert_all}
use penn_mail_and_penn_drive.Base.Text.{Text, Lacks, tokens, split, is_space}
use penn_mail_and_penn_drive.Base.Text.Laws.{tokens_pass}
use penn_mail_and_penn_drive.Server.{Key, Store}
use penn_mail_and_penn_drive.Command.{space, newline}
use penn_mail_and_penn_drive.Store.{make_lock}
use penn_mail_and_penn_drive.Wal.{mark, Entry, restore_entry, restore_lines, restore_table, batch}
use penn_mail_and_penn_drive.Base.{ok}
use penn_mail_and_penn_drive.Base.Text.{to_string}
use penn_mail_and_penn_drive.Base.Text.Laws.{split-append}
use penn_mail_and_penn_drive.Base.Text.Numbers.{to_string-Lacks, to_string-cons, atoi-to_string}
use penn_mail_and_penn_drive.Wal.{recover_file, recover_table, recover_lines, numbered_log}
use penn_mail_and_penn_drive.Wal.Values.{NoSpace, IsWord, IsStorable, entry, line_of, value_starts}

-- What `restore_table` reaches from `s` by a file with the entries of `m`.
pub record Restores (t : ℕ) (m : Map Key Text) (s u : Store) : Type 0 where
  pub table : u.table t ≡ insert_all m (s.table t)
  pub files : u.log_files ≡ s.log_files
  pub active : u.active_tablets ≡ s.active_tablets

restore_entry-Restores :
    (t : ℕ) (key : Key) (val : Text) (s : Store)
    → Restores t ((key, val) ∷ []) s (restore_entry t key val s)
unfolding restore_entry make_lock
restore_entry-Restores t key val s = elim (Bool-cases (has key s.row_locks)) [
  | inl e ↦ record { table = rw e (update_self _ t _); files = rw e refl; active = rw e refl }
  | inr e ↦ record { table = rw e (update_self _ t _); files = rw e refl; active = rw e refl }
]

Lacks-newline : (w : Text) → All NoSpace w → Lacks newline w
unfolding is_space
Lacks-newline [] h = tt
Lacks-newline (x ∷ w) h = ((λ e. ground (arith, h.0)), Lacks-newline w h.1)

word-NoSpace : (w : Text) → IsWord w → All NoSpace w
word-NoSpace [] h = elim h [ ]
word-NoSpace (x ∷ w) h = h

restore_batch :
    (t : ℕ) (m : Map Key Text) (e : Entry) (s : Store)
    → All IsStorable m
    → e.value ≡ []
    → Restores t m s (restore_lines t false (split newline (batch m)) e s)
unfolding batch split restore_lines
restore_batch t [] e s h empty = record { table = refl; files = refl; active = refl }
restore_batch t (((row, col), val) ∷ m) e s h empty =
    let (row_word, col_word, plain, keeps) = h.0 in
    let first = restore_entry-Restores t (row, col) val s in
    let more = restore_batch t m (entry row col []) (restore_entry t (row, col) val s) h.1 refl in
    let regroup : batch (((row, col), val) ∷ m)
        ≡ line_of row col [] ++ (val ++ (mark ++ newline ∷ batch m)) =
      (simp append_assoc) in
    let runs : restore_lines t false (split newline (batch (((row, col), val) ∷ m))) e s
        ≡ restore_lines t false (split newline (batch m)) (entry row col [])
            (restore_entry t (row, col) val s) =
      (ap (λ z. restore_lines t false (tokens newline z []) e s) regroup
        ∙ ap (λ z. restore_lines t false z e s)
            (tokens_pass newline (line_of row col []) (val ++ (mark ++ newline ∷ batch m)) [] (
              All-append _ row (space ∷ (col ++ space ∷ []))
                (Lacks-newline row (word-NoSpace row row_word))
                (
                  (omega arith),
                  All-append _ col (space ∷ []) (Lacks-newline col (word-NoSpace col col_word))
                      (omega arith),
                )))
        ∙ value_starts t row col val (batch m) row_word col_word keeps val [] e s refl tt plain
            empty) in
    record {
      table = ap (λ u. u.table t) runs ∙ more.table ∙ ap (insert_all m) first.table;
      files = ap (λ u. u.log_files) runs ∙ more.files ∙ first.files;
      active = ap (λ u. u.active_tablets) runs ∙ more.active ∙ first.active;
    }

-- The file of a checkpoint is read back.
pub restore_table-Restores :
    (t : ℕ) (m : Map Key Text) (s : Store)
    → All IsStorable m
    → s.table_files t ≡ batch m
    → Restores t m s (restore_table t s)
unfolding restore_table
restore_table-Restores t m s storable file =
    rw file (restore_batch t m (entry [] [] []) s storable refl)

numbered_log-full :
    (t x : ℕ) (file rest : Text) (s : Store) → file ≡ x ∷ rest → numbered_log t file s ≡ s
unfolding numbered_log
numbered_log-full t x file rest s e = rw e refl

number_line : (n : ℕ) → split newline (to_string n ++ newline ∷ []) ≡ to_string n ∷ []
unfolding split
number_line n = split-append newline (to_string n) [] (to_string-Lacks newline n (omega arith))

-- A log file that holds only its number changes no table.
pub recover_table-number :
    (t n : ℕ) (s : Store)
    → s.log_files t ≡ to_string n ++ newline ∷ []
    → recover_table t s ≡ ok (record s { checkpoints = update s.checkpoints t n })
unfolding recover_table recover_file recover_lines
recover_table-number t n s e =
    let (x, r, g) = to_string-cons n in
    rw
      (
        numbered_log-full t x (s.log_files t) (r ++ newline ∷ []) s
            (e ∙ ap (λ z. z ++ newline ∷ []) g),
        e,
        number_line n,
        atoi-to_string n,
      )
      refl
