-- ===== src/Tpc/Commit.antt =====
-- `process_tpc_queue` of backend/src/utils.cpp, when the next transaction is committed.
use penn_mail_and_penn_drive.Base.{
  ℕ, ◌+◌, ◌≡◌, refl, ap, ◌∙◌, Bool, true, false, some, ◌∷◌, ◌++◌, arith, nat_eq, list_eq, pair_eq,
  if◌then◌else◌, Outcome, ok, ◌>>=◌,
}
use penn_mail_and_penn_drive.Base.Maps.{lookup}
use penn_mail_and_penn_drive.Base.Text.{Text, Lacks, before}
use penn_mail_and_penn_drive.Base.Text.Laws.{before-append, after-append}
use penn_mail_and_penn_drive.Server.{Store, Tpc, Transaction, Server, Env}
use penn_mail_and_penn_drive.Command.{space, put, cput, delete, get_tablet}
use penn_mail_and_penn_drive.Store.{get, execute_command}
use penn_mail_and_penn_drive.Store.Ops.{
  Op, puts, cputs, deletes, print, key, apply, executed, table-executed, IsPlain, IsReady,
}
use penn_mail_and_penn_drive.Store.Execute.{execute-print}
use penn_mail_and_penn_drive.Wal.{log_message}
use penn_mail_and_penn_drive.Tablets.{load_tablet}
use penn_mail_and_penn_drive.Tpc.{
  commit, command_row, ensure_loaded, commit_next, advance, respond, send_reply, set_lock,
  process_tpc_queue,
}
use penn_mail_and_penn_drive.Tpc.Queue.{head, one_step, process_tpc_queue-one_step, respond-tpc}

row_behind :
    (verb row rest : Text)
    → Lacks space verb
    → Lacks space row
    → command_row (verb ++ space ∷ (row ++ space ∷ rest)) ≡ row
unfolding command_row
row_behind verb row rest v r =
    ap (before space) (after-append space verb (row ++ space ∷ rest) v)
    ∙ before-append space row rest r

command_row-print : (op : Op) → IsPlain op → command_row (print op) ≡ (key op).0
command_row-print (puts row col val) (r, _, _) = row_behind put row _ (omega arith) r
command_row-print (cputs row col old new) (r, _, _) = row_behind cput row _ (omega arith) r
command_row-print (deletes row col) (r, _, _) = row_behind delete row _ (omega arith) r

respond-store : (b : Bool) (hash : Text) (s : Server) → (respond b hash s).store ≡ s.store
unfolding respond send_reply
respond-store b hash s = ground arith

IsReady-log_message :
    (op : Op) (m : Text) (n t : ℕ) (s : Store) → IsReady op s → IsReady op (log_message m n t s)
unfolding log_message get
IsReady-log_message (puts row col val) m n t s h = tt
IsReady-log_message (cputs row col old new) m n t s h = h
IsReady-log_message (deletes row col) m n t s h = tt

module _ (env : Env) (op : Op) (hash : Text) (l : Bool) (s : Server) where
  abbrev decided : Transaction
  decided = record { status = commit; command = print op; hash = hash }

  abbrev logged : Store
  logged = log_message (print op) (s.tpc.last_seq + 1 + 1) (get_tablet (key op).0) s.store

  abbrev done : Server
  done = record s { store = executed op logged; tpc = advance s.tpc }

  runs :
      IsPlain op
      → IsReady op s.store
      → s.store.active_tablets (get_tablet (key op).0) ≡ true
      → lookup (key op) s.store.row_locks ≡ some l
      → execute_command (print op) logged ≡ ok (executed op logged)
  unfolding log_message
  runs plain ready active lock =
      execute-print op logged l plain
        (IsReady-log_message op (print op) (s.tpc.last_seq + 1 + 1) (get_tablet (key op).0) s.store
          ready)
        lock

  commit_next-print :
      IsPlain op
      → IsReady op s.store
      → s.store.active_tablets (get_tablet (key op).0) ≡ true
      → lookup (key op) s.store.row_locks ≡ some l
      → commit_next env decided s ≡ ok (respond true hash done)
  unfolding commit_next ensure_loaded
  commit_next-print plain ready active lock =
      ap (λ row. at_tablet (get_tablet row)) (command_row-print op plain)
      ∙ ap
          (λ o. o >>= (λ loaded.
            execute_command (print op)
              (log_message (print op) (s.tpc.last_seq + 1 + 1) (get_tablet (key op).0) loaded)
            >>= answer))
          loads
      ∙ ap (λ o. o >>= answer) (runs plain ready active lock)
    where
      answer : Store → Outcome Server
      answer d = ok (respond true hash (record s { store = d; tpc = advance s.tpc }))

      at_tablet : ℕ → Outcome Server
      at_tablet t = ensure_loaded env t s.store >>= (λ loaded.
          execute_command (print op) (log_message (print op) (s.tpc.last_seq + 1 + 1) t loaded)
          >>= answer)

      loads : ensure_loaded env (get_tablet (key op).0) s.store ≡ ok s.store
      loads =
          ap
            (λ b.
              if b
              then ok s.store
              else load_tablet env.avail_memory (get_tablet (key op).0) s.store)
            active

-- When the next transaction is committed, `tpc_queue_lock` is free, its command is `IsPlain`, its
-- tablet is in memory, its row has a lock, and a CPUT finds its old value: one call of
-- `process_tpc_queue` ends with the lock free, the command applied to the tables, and the
-- transaction passed.
pub process_tpc_queue-applies :
    (env : Env) (op : Op) (hash : Text) (l : Bool) (s : Server)
    → s.tpc.queue_locked ≡ false
    → head s.tpc ≡ some (record { status = commit; command = print op; hash = hash })
    → IsPlain op
    → IsReady op s.store
    → s.store.active_tablets (get_tablet (key op).0) ≡ true
    → lookup (key op) s.store.row_locks ≡ some l
    → (r : Server) × (process_tpc_queue env s ≡ ok r)
      × (r.store.table ≡ apply op s.store.table)
      × (r.tpc.last_seq ≡ s.tpc.last_seq + 1)
      × (r.tpc.queue_locked ≡ false)
unfolding one_step advance log_message
process_tpc_queue-applies env op hash l s free next plain ready active lock = (
  set_lock false answered,
  (process_tpc_queue-one_step env 0 s free).0
      ∙ ap (λ o. one_step env o s) next
      ∙ ap (λ o. o >>= (λ r. ok (set_lock false r)))
          (commit_next-print env op hash l taken plain ready active lock),
  ap (λ (z : Store). z.table) (respond-store true hash (done env op hash l taken)) ∙ applied,
  ap (λ (t : Tpc). t.last_seq) (respond-tpc true hash (done env op hash l taken)) ∙ passed,
  refl,
)
  where
    taken : Server
    taken = set_lock true s

    answered : Server
    answered = respond true hash (done env op hash l taken)

    applied : (done env op hash l taken).store.table ≡ apply op s.store.table
    applied = table-executed op (logged env op hash l taken)

    passed : (done env op hash l taken).tpc.last_seq ≡ s.tpc.last_seq + 1
    passed = refl
