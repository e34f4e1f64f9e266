-- ===== src/Wal/History.antt =====
-- The commands of one tablet in their order, and the lines that they leave in its log.
use penn_mail_and_penn_drive.Base.{
  ℕ, ◌+◌, ◌≡◌, refl, ap, sym, ◌∙◌, ◌++◌, List, [], ◌∷◌, none, some, true, ok, nat_eq, list_eq,
  pair_eq, append_assoc, append-nil,
}
use penn_mail_and_penn_drive.Base.Maps.{Map, lookup, insert, erase, update_self}
use penn_mail_and_penn_drive.Base.Text.{Text, find}
use penn_mail_and_penn_drive.Server.{Key, Store}
use penn_mail_and_penn_drive.Command.{get_tablet}
use penn_mail_and_penn_drive.Store.{get, get_command_locks, execute_command}
use penn_mail_and_penn_drive.Store.Ops.{
  Op, puts, cputs, deletes, print, key, Tables, apply, IsPlain, IsReady, executed, table-executed,
  log_queues-executed, log_sequences-executed, log_files-executed,
}
use penn_mail_and_penn_drive.Store.Execute.{execute-print}
use penn_mail_and_penn_drive.Store.Locks.{
  SameButLocks, get_command_locks-SameButLocks, get_command_locks-held,
}
use penn_mail_and_penn_drive.Wal.{mark, log_line, log_message}

-- What an operation does to the map of its own tablet.
abbrev pub apply_map : Op → Map Key Text → Map Key Text
apply_map (puts row col val) = insert (row, col) val
apply_map (cputs row col old new) = insert (row, col) new
apply_map (deletes row col) = erase (row, col)

pub apply-at :
    (t : ℕ) (op : Op) (tb : Tables)
    → get_tablet (key op).0 ≡ t
    → apply op tb t ≡ apply_map op (tb t)
apply-at t (puts row col val) tb e = rw e (update_self tb t _)
apply-at t (cputs row col old new) tb e = rw e (update_self tb t _)
apply-at t (deletes row col) tb e = rw e (update_self tb t _)

-- One command of tablet `t`, as `handle_message` runs it: its lock is taken, it is logged with the
-- number `n`, and it is executed.
pub record Runs (t : ℕ) (op : Op) (n : ℕ) (s u : Store) : Type 0 where
  pub plain : IsPlain op
  pub ready : IsReady op s
  pub no_mark : find mark (print op) ≡ none
  pub own : get_tablet (key op).0 ≡ t
  pub locked : (get_command_locks (print op) s).0 ≡ true
  pub runs :
      execute_command (print op) (log_message (print op) n t (get_command_locks (print op) s).1)
      ≡ ok u

-- What one command leaves behind for its tablet.
pub record Leaves (t : ℕ) (op : Op) (n : ℕ) (s u : Store) : Type 0 where
  pub table : u.table t ≡ apply_map op (s.table t)
  pub queue : u.log_queues t ≡ s.log_queues t ++ log_line (s.log_sequences t + 1) (print op) n ∷ []
  pub sequence : u.log_sequences t ≡ s.log_sequences t + 1
  pub files : u.log_files ≡ s.log_files

module _ (t : ℕ) (op : Op) (n : ℕ) (s u : Store) (h : Runs t op n s u) where
  locked_store : Store
  locked_store = (get_command_locks (print op) s).1

  logged_store : Store
  unfolding locked_store
  logged_store = log_message (print op) n t locked_store

  only_locks : SameButLocks s locked_store
  unfolding locked_store
  only_locks = get_command_locks-SameButLocks (print op) s

  table-logged : logged_store.table ≡ s.table
  unfolding logged_store log_message
  table-logged = ap (λ (z : Store). z.table) only_locks

  IsReady-logged : (o : Op) → IsReady o s → IsReady o logged_store
  unfolding get
  IsReady-logged (puts row col val) r = tt
  IsReady-logged (cputs row col old new) r = rw table-logged r
  IsReady-logged (deletes row col) r = tt

  held : lookup (key op) logged_store.row_locks ≡ some true
  unfolding logged_store log_message
  held = get_command_locks-held op s h.plain h.locked

  result : ok u ≡ ok (executed op logged_store)
  unfolding logged_store
  result = sym h.runs ∙ execute-print op logged_store true h.plain (IsReady-logged op h.ready) held

  u-executed : u ≡ executed op logged_store
  u-executed = cc result

  log_queues-logged :
      logged_store.log_queues t
      ≡ s.log_queues t ++ log_line (s.log_sequences t + 1) (print op) n ∷ []
  unfolding logged_store log_message
  log_queues-logged =
      update_self _ t _
      ∙ ap (λ (z : Store). z.log_queues t ++ log_line (z.log_sequences t + 1) (print op) n ∷ [])
          only_locks

  log_sequences-logged : logged_store.log_sequences t ≡ s.log_sequences t + 1
  unfolding logged_store log_message
  log_sequences-logged = update_self _ t _ ∙ ap (λ (z : Store). z.log_sequences t + 1) only_locks

  log_files-logged : logged_store.log_files ≡ s.log_files
  unfolding logged_store log_message
  log_files-logged = ap (λ (z : Store). z.log_files) only_locks

  pub Runs-Leaves : Leaves t op n s u
  Runs-Leaves = record {
    table =
        ap (λ (z : Store). z.table t) u-executed
        ∙ ap (λ (f : Tables). f t) (table-executed op logged_store)
        ∙ apply-at t op logged_store.table h.own
        ∙ ap (λ (f : Tables). apply_map op (f t)) table-logged;
    queue =
        ap (λ (z : Store). z.log_queues t) u-executed
        ∙ ap (λ (f : ℕ → List Text). f t) (log_queues-executed op logged_store)
        ∙ log_queues-logged;
    sequence =
        ap (λ (z : Store). z.log_sequences t) u-executed
        ∙ ap (λ (f : ℕ → ℕ). f t) (log_sequences-executed op logged_store)
        ∙ log_sequences-logged;
    files =
        ap (λ (z : Store). z.log_files) u-executed
        ∙ log_files-executed op logged_store
        ∙ log_files-logged;
  }

-- The commands of tablet `t` from `s` to `u`, in their order.
pub data History (t : ℕ) : Store → List (Op × ℕ) → Store → Type 0 where
  nothing : (s : Store) → History t s [] s
  next :
      {s u v : Store} {op : Op} {n : ℕ} {ops : List (Op × ℕ)}
      → Runs t op n s u
      → History t u ops v
      → History t s ((op, n) ∷ ops) v

-- The lines that the commands leave, behind the number `q`.
abbrev pub lines_from : ℕ → List (Op × ℕ) → List Text
lines_from q [] = []
lines_from q ((op, n) ∷ ops) = log_line (q + 1) (print op) n ∷ lines_from (q + 1) ops

pub log_queues-History :
    (t : ℕ) (s u : Store) (ops : List (Op × ℕ))
    → History t s ops u
    → u.log_queues t ≡ s.log_queues t ++ lines_from (s.log_sequences t) ops
log_queues-History t s u ops (nothing _) = sym (append-nil (s.log_queues t))
log_queues-History t s u ops (next {s = s'} {u = w} {v = v} {op = op} {n = n} {ops = rest} r h) =
    let l = Runs-Leaves t op n s' w r in
    log_queues-History t w v rest h
    ∙ ap (λ q. q ++ lines_from (w.log_sequences t) rest) l.queue
    ∙ append_assoc (s'.log_queues t) (log_line (s'.log_sequences t + 1) (print op) n ∷ [])
        (lines_from (w.log_sequences t) rest)
    ∙ ap
        (λ q.
          s'.log_queues t ++ (log_line (s'.log_sequences t + 1) (print op) n ∷ lines_from q rest))
        l.sequence

pub log_files-History :
    (t : ℕ) (s u : Store) (ops : List (Op × ℕ)) → History t s ops u → u.log_files ≡ s.log_files
log_files-History t s u ops (nothing _) = refl
log_files-History t s u ops (next {s = s'} {u = w} {v = v} {op = op} {n = n} {ops = rest} r h) =
    log_files-History t w v rest h ∙ (Runs-Leaves t op n s' w r).files
