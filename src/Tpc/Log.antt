-- ===== src/Tpc/Log.antt =====
-- The TPC log of backend/src/utils.cpp: `write_to_tpc_log` and `process_tpc_log`.
use penn_mail_and_penn_drive.Base.{
  ℕ, ◌<◌, ◌≡◌, refl, ap, ◌∙◌, List, [], ◌∷◌, ◌++◌, arith, nat_eq, list_eq, length, drop-length, ok,
  ◌>>=◌, All, All-append,
}
use penn_mail_and_penn_drive.Base.Text.{Text, codes, Lacks, split, to_string}
use penn_mail_and_penn_drive.Base.Text.Laws.{split-append}
use penn_mail_and_penn_drive.Base.Text.Numbers.{to_string-Lacks, split-to_string, stoi-to_string}
use penn_mail_and_penn_drive.Server.{Tpc}
use penn_mail_and_penn_drive.Command.{newline}
use penn_mail_and_penn_drive.Tpc.{
  decision, write_to_tpc_log, log_entry, log_tokens, log_lines, process_tpc_log,
}

-- A line of the log that `TPC:status:hash:seq` prints.
pub record Line : Type 0 where
  pub status : Text
  pub hash : Text
  pub seq : ℕ

-- Words without a colon or a line end, and a number that an `int` holds.
abbrev pub IsLine : Line → Type 0
IsLine l =
    Lacks b':' l.status
    × Lacks newline l.status
    × Lacks b':' l.hash
    × Lacks newline l.hash
    × (l.seq < 2147483648)

abbrev pub printed : Line → Text
printed l = decision l.status l.hash l.seq

pub split-printed :
    (l : Line)
    → Lacks b':' l.status
    → Lacks b':' l.hash
    → split b':' (printed l) ≡ codes "TPC" ∷ l.status ∷ l.hash ∷ to_string l.seq ∷ []
split-printed l a b =
    split-append b':' (codes "TPC") (l.status ++ b':' ∷ (l.hash ++ b':' ∷ to_string l.seq))
      (omega arith)
    ∙ ap (λ r. codes "TPC" ∷ r)
        (split-append b':' l.status (l.hash ++ b':' ∷ to_string l.seq) a
          ∙ ap (λ r. l.status ∷ r)
              (split-append b':' l.hash (to_string l.seq) b
                ∙ ap (λ r. l.hash ∷ r) (split-to_string l.seq)))

-- A line is read back as the entry that it was printed from.
log_tokens-printed :
    (l : Line) (t : Tpc)
    → IsLine l
    → log_tokens (split b':' (printed l)) t ≡ ok (log_entry l.status l.hash l.seq t)
unfolding log_tokens
log_tokens-printed l t h =
    let (a, _, b, _, small) = h in rw (split-printed l a b, log_tokens, stoi-to_string l.seq small)

Lacks-printed : (l : Line) → IsLine l → Lacks newline (printed l)
Lacks-printed l (_, a, _, b, _) = (
  omega arith,
  (
    omega arith,
    (
      omega arith,
      (
        omega arith,
        All-append _ l.status (b':' ∷ (l.hash ++ b':' ∷ to_string l.seq)) a (
          omega arith,
          All-append _ l.hash (b':' ∷ to_string l.seq) b
              (omega arith, to_string-Lacks newline l.seq (omega arith)),
        ),
      ),
    ),
  ),
)

-- The log file after the lines were written, and their entries applied one by one.
abbrev pub log_text : List Line → Text
log_text [] = []
log_text (l ∷ ls) = printed l ++ newline ∷ log_text ls

abbrev pub replayed : List Line → Tpc → Tpc
replayed [] t = t
replayed (l ∷ ls) t = replayed ls (log_entry l.status l.hash l.seq t)

log_lines-log_text :
    (ls : List Line) (t : Tpc)
    → All IsLine ls
    → log_lines (split newline (log_text ls)) t ≡ ok (replayed ls t)
unfolding log_lines split
log_lines-log_text [] t h = refl
log_lines-log_text (l ∷ ls) t h =
    ap (λ r. log_lines r t) (split-append newline (printed l) (log_text ls) (Lacks-printed l h.0))
    ∙ ap (λ m. m >>= log_lines (split newline (log_text ls))) (log_tokens-printed l t h.0)
    ∙ log_lines-log_text ls (log_entry l.status l.hash l.seq t) h.1

-- Read from its start, a log of lines `TPC:status:hash:seq` gives their entries in order.
pub process_tpc_log-log_text :
    (ls : List Line) (t : Tpc)
    → All IsLine ls
    → process_tpc_log (record t { tpc_file = log_text ls; tpc_pos = 0 })
      ≡ ok (
          replayed ls
            (record t { tpc_file = log_text ls; tpc_pos = length (log_text ls); tpc_pending = [] }))
unfolding process_tpc_log
process_tpc_log-log_text ls t h =
    log_lines-log_text ls
      (record t { tpc_file = log_text ls; tpc_pos = length (log_text ls); tpc_pending = [] }) h

-- Each call of `write_to_tpc_log` leaves the stream's position at the end of the file, so a later
-- `process_tpc_log` reads no line: it only empties the pending transactions.
pub process_tpc_log_after_write :
    (message : Text) (t : Tpc)
    → process_tpc_log (write_to_tpc_log message t)
      ≡ ok (record (write_to_tpc_log message t) { tpc_pending = [] })
unfolding process_tpc_log write_to_tpc_log log_lines split
process_tpc_log_after_write message t =
    ap (λ r. log_lines (split newline r) (record (write_to_tpc_log message t) { tpc_pending = [] }))
      (drop-length (t.tpc_file ++ (message ++ newline ∷ [])))
