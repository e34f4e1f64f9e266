-- ===== src/Wal/Crash.antt =====
-- `recover_table` of backend/src/utils.cpp on a whole log.
use penn_mail_and_penn_drive.Base.{
  ℕ, suc, ◌+◌, ◌≡◌, refl, ap, sym, ◌∙◌, ◌++◌, List, [], ◌∷◌, none, Bool, true, arith, Outcome, ok,
  ◌>>=◌, nat_eq, list_eq, pair_eq, append_assoc, All-append, length,
}
use mathlib.Core.Path.{ap₂}
use penn_mail_and_penn_drive.Base.Maps.{update, update_self}
use penn_mail_and_penn_drive.Base.Text.{Text, split, to_string}
use penn_mail_and_penn_drive.Base.Text.Laws.{split-append, before_last-append}
use penn_mail_and_penn_drive.Base.Text.Numbers.{to_string-Lacks, to_string-cons, atoi-to_string}
use penn_mail_and_penn_drive.Server.{Store}
use penn_mail_and_penn_drive.Command.{space, newline, get_tablet}
use penn_mail_and_penn_drive.Store.{get, parsing_logic}
use penn_mail_and_penn_drive.Store.Ops.{Op, puts, cputs, deletes, print, key, IsReady}
use penn_mail_and_penn_drive.Store.Replay.{Replays, parsing_logic-print}
use penn_mail_and_penn_drive.Wal.{
  mark, log_line, queued_lines, flush_log, replay_entry, recover_lines, recover_file, recover_table,
  numbered_log,
}
use penn_mail_and_penn_drive.Wal.Entries.{recover-log_line}
use penn_mail_and_penn_drive.Wal.History.{
  apply_map, apply-at, Runs, Runs-Leaves, History, nothing, next, lines_from, log_queues-History,
  log_files-History,
}

replay_entry-entry :
    (t n : ℕ) (message : Text) (r : Store)
    → replay_entry ((message ++ space ∷ to_string n) ++ mark) t r ≡ (
        parsing_logic message r >>= λ a.
        ok (record a { log_sequences = update a.log_sequences t (a.log_sequences t + 1) }))
unfolding replay_entry
replay_entry-entry t n message r = rw (
  append_assoc message (space ∷ to_string n) mark,
  before_last-append space message (to_string n ++ mark)
      (All-append _ (to_string n) mark (to_string-Lacks space n (omega arith)) (omega arith)),
)

IsReady-same :
    (t : ℕ) (op : Op) (s r : Store)
    → get_tablet (key op).0 ≡ t
    → r.table t ≡ s.table t
    → IsReady op s
    → IsReady op r
unfolding get
IsReady-same t (puts row col val) s r own same h = tt
IsReady-same t (cputs row col old new) s r own same h = ground arith
IsReady-same t (deletes row col) s r own same h = tt

-- What a recovery reaches: the table of `u`, from the log that `u` left.
record Recovers (t : ℕ) (r u : Store) (count : ℕ) (o : Outcome Store) : Type 0 where
  after : Store
  runs : o ≡ ok after
  table : after.table t ≡ u.table t
  sequence : after.log_sequences t ≡ r.log_sequences t + count
  numbers : after.checkpoints t ≡ r.checkpoints t

recover_no_lines :
    (t : ℕ) (r u : Store)
    → r.table t ≡ u.table t
    → Recovers t r u 0 (recover_lines t none (split newline (queued_lines [])) r)
unfolding recover_lines split queued_lines
recover_no_lines t r u same = record {
  after = r;
  runs = refl;
  table = same;
  sequence = omega arith;
  numbers = refl;
}

-- The entry of one command is read, and `count` more behind it.
module _ (t n q count : ℕ) (op : Op) (s w u r : Store) (lines : List Text) (h : Runs t op n s w)
    (same : r.table t ≡ s.table t) (active : r.active_tablets t ≡ true) where
  replayed : Replays op r (parsing_logic (print op) r)
  replayed =
      parsing_logic-print op r h.plain (IsReady-same t op s r h.own same h.ready)
        (ap r.active_tablets h.own ∙ active)

  counted : Store
  counted = record replayed.after {
    log_sequences = update replayed.after.log_sequences t (replayed.after.log_sequences t + 1);
  }

  table-counted : counted.table t ≡ w.table t
  unfolding counted
  table-counted =
      replayed.tables t
      ∙ apply-at t op r.table h.own
      ∙ ap (apply_map op) same
      ∙ sym (Runs-Leaves t op n s w h).table

  active-counted : counted.active_tablets t ≡ true
  unfolding counted
  active-counted = ap (λ (f : ℕ → Bool). f t) replayed.active ∙ active

  sequence-counted : counted.log_sequences t ≡ r.log_sequences t + 1
  unfolding counted
  sequence-counted = update_self _ t _ ∙ ap (λ (f : ℕ → ℕ). f t + 1) replayed.sequences

  entry_replays : replay_entry ((print op ++ space ∷ to_string n) ++ mark) t r ≡ ok counted
  unfolding counted
  entry_replays = replay_entry-entry t n (print op) r ∙ rw replayed.runs

  recover_one :
      Recovers t counted u count (recover_lines t none (split newline (queued_lines lines)) counted)
      → Recovers t r u
          (suc count)
          (recover_lines t none (split newline (queued_lines (log_line q (print op) n ∷ lines))) r)
  unfolding queued_lines
  recover_one rest = record {
    after = rest.after;
    runs =
        recover-log_line t q n (print op) (queued_lines lines) r h.no_mark
        ∙ ap (λ o. o >>= recover_lines t none (split newline (queued_lines lines))) entry_replays
        ∙ rest.runs;
    table = rest.table;
    sequence = omega (arith, rest.sequence, sequence-counted);
    numbers = rest.numbers ∙ unfold counted in ap (λ (f : ℕ → ℕ). f t) replayed.numbers;
  }

recover-History :
    (t q : ℕ) (s u : Store) (ops : List (Op × ℕ))
    → History t s ops u
    → (r : Store) → r.table t ≡ s.table t
    → r.active_tablets t ≡ true
    → Recovers t r u
        (length ops)
        (recover_lines t none (split newline (queued_lines (lines_from q ops))) r)
recover-History t q s u ops (nothing _) r same active = recover_no_lines t r _ same
recover-History t q s u ops (next {s = s'} {u = w} {v = v} {op = op} {n = n} {ops = rest} h hs) r
      same active =
    recover_one t n (q + 1) (length rest) op s' w v r (lines_from (q + 1) rest) h same active (
      recover-History t (q + 1) w v rest hs
        (counted t n (q + 1) (length rest) op s' w v r (lines_from (q + 1) rest) h same active)
        (table-counted t n (q + 1) (length rest) op s' w v r (lines_from (q + 1) rest) h same
          active)
        (active-counted t n (q + 1) (length rest) op s' w v r (lines_from (q + 1) rest) h same
          active))

numbered_log_full :
    (t x : ℕ) (file text : Text) (r : Store) → text ≡ x ∷ file → numbered_log t text r ≡ r
unfolding numbered_log
numbered_log_full t x file text r e = rw (e, numbered_log)

-- A log file that starts with the number of a checkpoint.
recover_numbered :
    (t k : ℕ) (rest : Text) (r : Store)
    → r.log_files t ≡ to_string k ++ newline ∷ rest
    → recover_table t r
      ≡ recover_lines t none
          (split newline rest)
          (record r { checkpoints = update r.checkpoints t k })
unfolding recover_table recover_file
recover_numbered t k rest r e =
    let (x, s, c) = to_string-cons k in
    rw (
      numbered_log_full t x (s ++ newline ∷ rest) (r.log_files t) r
          (e ∙ ap (λ z. z ++ newline ∷ rest) c),
      e,
      split-append newline (to_string k) rest (to_string-Lacks newline k (omega arith)),
      recover_table,
      atoi-to_string k,
    )

-- Let `s` stand at a checkpoint: nothing is queued for tablet `t`, and its log file holds the
-- checkpoint's number `k` alone. Commands are logged and executed up to `u`, and the log is
-- flushed. A server that starts with the table of the checkpoint and with that file reads the log
-- without a fault, and has for tablet `t` the table of `u`, entry by entry, the number `k`, and a
-- log sequence that counts the commands. Keys and values may hold any byte but for the conditions
-- in `Runs`; entries may span lines.
pub recover_table-History :
    (t k : ℕ) (s u r : Store) (ops : List (Op × ℕ))
    → s.log_queues t ≡ []
    → s.log_files t ≡ to_string k ++ newline ∷ []
    → History t s ops u
    → r.table t ≡ s.table t
    → r.active_tablets t ≡ true
    → r.log_files t ≡ (flush_log t u).log_files t
    → (a : Store) × (recover_table t r ≡ ok a)
      × (a.table t ≡ u.table t)
      × (a.log_sequences t ≡ r.log_sequences t + length ops)
      × (a.checkpoints t ≡ k)
unfolding flush_log
recover_table-History t k s u r ops empty header h same active file = (
  found.after,
  recover_numbered t k (queued_lines lines) r content ∙ found.runs,
  found.table,
  found.sequence,
  found.numbers ∙ update_self r.checkpoints t k,
)
  where
    lines : List Text
    lines = lines_from (s.log_sequences t) ops

    content : r.log_files t ≡ to_string k ++ newline ∷ queued_lines lines
    content =
        file
        ∙ update_self _ t _
        ∙ ap₂ (λ a b. a ++ queued_lines b)
            (ap (λ (f : ℕ → Text). f t) (log_files-History t s u ops h) ∙ header)
            (log_queues-History t s u ops h ∙ ap (λ z. z ++ lines) empty)
        ∙ append_assoc (to_string k) (newline ∷ []) (queued_lines lines)

    found :
        Recovers t
          (record r { checkpoints = update r.checkpoints t k })
          u
          (length ops)
          (recover_lines t none
            (split newline (queued_lines lines))
            (record r { checkpoints = update r.checkpoints t k }))
    found =
        recover-History t (s.log_sequences t) s u ops h
          (record r { checkpoints = update r.checkpoints t k }) same active
