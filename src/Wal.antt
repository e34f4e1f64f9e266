-- ===== src/Wal.antt =====
-- The log of a tablet and its checkpoint: `log_message`, `flush_log`, `recover_table`,
-- `restore_table`, `create_new_checkpoint`, `create_log_string` and `parse_log_string` of
-- backend/src/utils.cpp. Opening a file does not fail.
pub mod Entries
pub mod History
pub mod Crash
pub mod Values
pub mod Checkpoint
use penn_mail_and_penn_drive.Base.{
  ℕ, zero, suc, ◌+◌, Bool, true, false, ◌&&◌, List, [], ◌∷◌, ◌++◌, Option, none, some, max, ltb,
  leb, ◌==◌, length, drop, if◌then◌else◌, nat_eq, list_eq, pair_eq, Outcome, ok, ◌>>=◌,
}
use penn_mail_and_penn_drive.Base.Maps.{Map, insert, update}
use penn_mail_and_penn_drive.Base.Text.{
  Text, codes, before, after, before_last, find, split, to_string, atoi, is_space,
}
use penn_mail_and_penn_drive.Server.{Key, Store}
use penn_mail_and_penn_drive.Command.{space, newline}
use penn_mail_and_penn_drive.Store.{make_lock, parsing_logic}

-- `||END||`, the end of an entry.
abbrev pub mark : Text
mark = codes "||END||"

-- `to_string(log_sequences[t]) + " " + message + " " + to_string(last_seq)`
abbrev pub log_line : ℕ → Text → ℕ → Text
log_line n message last_seq = to_string n ++ space ∷ (message ++ space ∷ to_string last_seq)

unfoldable pub log_message : Text → ℕ → ℕ → Store → Store
log_message message last_seq t s = record s {
  log_sequences = update s.log_sequences t n;
  log_queues = update s.log_queues t (s.log_queues t ++ log_line n message last_seq ∷ []);
}
  where
    n : ℕ
    n = s.log_sequences t + 1

-- `file << msg << '\n'` for each queued line, with the mark behind it.
unfoldable pub queued_lines : List Text → Text
queued_lines [] = []
queued_lines (m ∷ ms) = (m ++ mark) ++ newline ∷ queued_lines ms

unfoldable pub flush_log : ℕ → Store → Store
unfolding queued_lines
flush_log t s = record s {
  log_files = update s.log_files t (s.log_files t ++ queued_lines (s.log_queues t));
  log_queues = update s.log_queues t [];
}

-- Where an entry ends: the text before the last blank, without the number of the transaction.
pub replay_entry : Text → ℕ → Store → Outcome Store
replay_entry message t s = do
  r ← parsing_logic (before_last space message) s
  ok (record r { log_sequences = update r.log_sequences t (r.log_sequences t + 1) })

-- The loop of `recover_table` over the lines; `some message` is an entry that spans lines.
unfoldable pub recover_lines : ℕ → Option Text → List Text → Store → Outcome Store
unfolding replay_entry
recover_lines t entry [] s = ok s
recover_lines t none (msg ∷ lines) s =
    let message = after space msg in
    elim (find mark message) [
      | none ↦ recover_lines t (some (message ++ newline ∷ [])) lines s
      | some _ ↦ replay_entry message t s >>= recover_lines t none lines
    ]
recover_lines t (some start) (msg ∷ lines) s =
    let message = start ++ msg in
    elim (find mark message) [
      | none ↦ recover_lines t (some (message ++ newline ∷ [])) lines s
      | some _ ↦ replay_entry message t s >>= recover_lines t none lines
    ]

-- The first line holds the number of the checkpoint.
unfoldable recover_file : ℕ → List Text → Store → Outcome Store
unfolding recover_lines
recover_file t [] s = ok (record s { checkpoints = update s.checkpoints t 0 })
recover_file t (line ∷ lines) s =
    recover_lines t none lines (record s { checkpoints = update s.checkpoints t (atoi line) })

-- An empty log file gets the number 1.
unfoldable pub numbered_log : ℕ → Text → Store → Store
numbered_log t [] s = record s {
  checkpoints = update s.checkpoints t 1;
  log_files = update s.log_files t (codes "1\n");
}
numbered_log t (x ∷ file) s = s

unfoldable pub recover_table : ℕ → Store → Outcome Store
unfolding recover_file numbered_log
recover_table t s =
    let r = numbered_log t (s.log_files t) s in recover_file t (split newline (r.log_files t)) r

-- `stream >> word`: `none` where only blanks are left. The second part is the rest of the line.
unfoldable pub skip_space : Text → Text
skip_space [] = []
skip_space (x ∷ s) = if is_space x then skip_space s else x ∷ s

unfoldable pub word : Text → Text × Text
word [] = ([], [])
word (x ∷ s) = let (w, r) = word s in if is_space x then ([], x ∷ s) else (x ∷ w, r)

-- Row, column and value that the loop of `restore_table` carries from line to line.
pub record Entry : Type 0 where
  pub row : Text
  pub col : Text
  pub value : Text

-- `stream >> row >> col; getline(stream >> ws, value);` A word that is not there leaves its
-- variable as it was.
unfoldable read_entry : Text → Entry → Entry
unfolding skip_space word
read_entry line e = elim (skip_space line) [
  | [] ↦ e
  | c ∷ r ↦
      let row' = (word (c ∷ r)).0 in
      elim (skip_space (word (c ∷ r)).1) [
        | [] ↦ record e { row = row' }
        | d ∷ q ↦
            let rest = skip_space (word (d ∷ q)).1 in
            elim rest [
              | [] ↦ record e { row = row'; col = (word (d ∷ q)).0 }
              | v ∷ vs ↦ record { row = row'; col = (word (d ∷ q)).0; value = v ∷ vs }
            ]
      ]
]

-- The lock is made, and the value goes into the tablet that is restored.
unfoldable restore_entry : ℕ → Key → Text → Store → Store
restore_entry t key val s =
    let r = make_lock s key in record r { table = update r.table t (insert key val (r.table t)) }

-- One line: the value so far is `e.value`, to which the line has been added.
unfoldable pub restore_lines : ℕ → Bool → List Text → Entry → Store → Store
unfolding read_entry restore_entry
restore_lines t multi_line [] e s = s
restore_lines t false (line ∷ lines) e s =
    let f = read_entry line e in
    elim (find mark f.value) [
      | none ↦ restore_lines t true lines (record f { value = f.value ++ newline ∷ [] }) s
      | some (val, _) ↦
          restore_lines t false lines (record f { value = [] })
            (restore_entry t (f.row, f.col) val s)
    ]
restore_lines t true (line ∷ lines) e s =
    let text = e.value ++ line in
    elim (find mark text) [
      | none ↦ restore_lines t true lines (record e { value = text ++ newline ∷ [] }) s
      | some (val, _) ↦
          restore_lines t false lines (record e { value = [] })
            (restore_entry t (e.row, e.col) val s)
    ]

unfoldable pub restore_table : ℕ → Store → Store
unfolding restore_lines
restore_table t s =
    restore_lines t false (split newline (s.table_files t))
      (record { row = []; col = []; value = [] }) s

-- `row + " " + col + " " + val + "||END||\n"` for each entry of the tablet.
unfoldable pub batch : Map Key Text → Text
batch [] = []
batch (((row, col), val) ∷ m) = row ++ space ∷ (col ++ space ∷ (val ++ (mark ++ newline ∷ batch m)))

-- The files and numbers that `create_new_checkpoint` leaves; the answer to the primary is sent by
-- the caller. `checkpointing` is set and cleared within the call.
unfoldable pub create_new_checkpoint : ℕ → Store → Store
unfolding batch
create_new_checkpoint t s = record s {
  checkpoints = update s.checkpoints t n;
  table_files = update s.table_files t (batch (s.table t));
  log_sequences = update s.log_sequences t 0;
  log_files = update s.log_files t (to_string n ++ newline ∷ []);
  checkpointing = update s.checkpointing t false;
}
  where
    n : ℕ
    n = s.checkpoints t + 1

-- `while (getline(file, message)) full_log += message + "\n";`
unfoldable pub whole_lines : List Text → Text
whole_lines [] = []
whole_lines (l ∷ ls) = l ++ newline ∷ whole_lines ls

unfoldable pub create_log_string : ℕ → Store → Text × Store
unfolding whole_lines
create_log_string t s =
    let r = flush_log t s in
    (
      codes "LOGFILE "
          ++ (to_string t ++ space ∷ (whole_lines (split newline (r.log_files t)) ++ codes "\r\n")),
      r,
    )

-- The texts between the marks, each with the line end behind its mark passed over; `fuel` bounds
-- their number.
unfoldable pub marked_entries : ℕ → Text → List Text
marked_entries zero s = []
marked_entries (suc fuel) s = elim (find mark s) [
  | none ↦ []
  | some (a, b) ↦ a ∷ marked_entries fuel (drop 1 b)
]

-- The loop of `parse_log_string`: the store with the file that grows, and `log_seq_temp`. `known`
-- is `log_sequences[t]`, and `same` says that both sides stand at one checkpoint.
unfoldable pub take_entries : ℕ → ℕ → Bool → List Text → ℕ → Store → Outcome (ℕ × Store)
take_entries t known same [] seq s = ok (seq, s)
take_entries t known same (msg ∷ msgs) seq s =
    let n = atoi (before space msg) in
    let old = take_entries t known same msgs seq s in
    let r = record s {
      log_files = update s.log_files t (s.log_files t ++ ((msg ++ mark) ++ newline ∷ []));
    } in
    let new =
      (if r.active_tablets t then parsing_logic (before_last space (after space msg)) r else ok r)
      >>= take_entries t known same msgs (max seq n) in
    if leb n known && same then old else new

-- What the file holds when the entries are added. The number that an empty file gets is still in
-- the stream's buffer when the file is cleared, so it is written too.
log_header : ℕ → Text → ℕ → Text → Text
log_header checkpoint line primary file =
    let start : Text = elim file [ [] ↦ line ++ newline ∷ [] | x ∷ rest ↦ [] ] in
    if ltb checkpoint primary then start ++ (to_string primary ++ newline ∷ []) else file ++ start

-- The log of the primary, without the word `LOGFILE` and the tablet's number.
unfoldable pub parse_log_string : Text → ℕ → Store → Outcome Store
unfolding log_header
parse_log_string [] t s = ok s
parse_log_string (c ∷ str) t s =
    let line = before newline (c ∷ str) in
    let primary = atoi line in
    let checkpoint = s.checkpoints t in
    let r = record s {
      log_files = update s.log_files t (log_header checkpoint line primary (s.log_files t));
    } in
    if ltb primary checkpoint
    then ok (record s {
      log_files =
          update s.log_files t
            (elim (s.log_files t) [ [] ↦ line ++ newline ∷ [] | x ∷ rest ↦ x ∷ rest ]);
    })
    else (do
      done ←
          take_entries t (s.log_sequences t) (primary == checkpoint)
            (marked_entries (length str) (after newline (c ∷ str)))
            (if ltb checkpoint primary then 0 else s.log_sequences t) r
      ok (record done.1 {
        checkpoints = update done.1.checkpoints t primary;
        log_sequences = update done.1.log_sequences t done.0;
      }))
