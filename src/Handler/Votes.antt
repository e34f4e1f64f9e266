-- ===== src/Handler/Votes.antt =====
-- A replica's answer to a prepare message, in `handle_message` of backend/src/threads.cpp.
use penn_mail_and_penn_drive.Base.{
  ℕ, ◌≡◌, ap, ◌∙◌, Bool, true, false, some, ◌&&◌, ◌||◌, not, leb, beq_refl, if◌then◌else◌, nat_eq,
  list_eq, pair_eq, ok, blocked,
}
use penn_mail_and_penn_drive.Base.Maps.{Map, lookup, has, insert_ordered, lookup-insert_ordered}
use penn_mail_and_penn_drive.Base.Text.{Text}
use penn_mail_and_penn_drive.Server.{Store, Server, Transaction}
use penn_mail_and_penn_drive.Store.{get_command_locks}
use penn_mail_and_penn_drive.Store.Ops.{Op, print, key, IsPlain}
use penn_mail_and_penn_drive.Store.Locks.{
  is_held, LocksOnce, get_command_locks-once, get_command_locks-SameButLocks,
}
use penn_mail_and_penn_drive.Net.{do_write_backend}
use penn_mail_and_penn_drive.Tpc.{prepare, write_to_tpc_log}
use penn_mail_and_penn_drive.Handler.{handle_prepare, enqueue, vote_line, is_recovering}

-- What a replica tells the primary, and what it then holds: it says YES if and only if nobody held
-- the row's lock before and it recovers no tablet.
abbrev pub Voted : ℕ → Text → Op → Server → Server → Type 0
Voted seq hash op s r =
    (r.net
      ≡ do_write_backend s.net.primary_fd
          (vote_line
            (not (is_held (lookup (key op) s.store.row_locks)) && not (is_recovering s.store)) hash
            seq s.net)
          s.net)
    × (lookup (key op) r.store.row_locks ≡ some true)

inserted :
    (seq : ℕ) (t : Transaction) (m : Map ℕ Transaction)
    → lookup seq (insert_ordered seq t m) ≡ some t
inserted seq t m = lookup-insert_ordered seq seq t m ∙ rw (beq_refl seq)

-- A prepare message for a transaction that is neither passed nor queued, with a command that is
-- `IsPlain`, and with `tpc_queue_lock` free: the replica queues it as prepared, and votes YES if
-- nobody held the row's lock before and it recovers no tablet, and NO otherwise. The row's lock is
-- held afterwards.
pub handle_prepare-Voted :
    (seq : ℕ) (hash : Text) (op : Op) (s : Server)
    → IsPlain op
    → s.tpc.queue_locked ≡ false
    → (leb seq s.tpc.last_seq || has seq s.tpc.tpc_queue) ≡ false
    → (r : Server) × (handle_prepare seq hash (print op) s ≡ ok r)
      × (lookup seq r.tpc.tpc_queue
          ≡ some (record { status = prepare; command = print op; hash = hash }))
      × Voted seq hash op s r
unfolding handle_prepare enqueue write_to_tpc_log
handle_prepare-Voted seq hash op s plain free fresh = (answered, runs, queued, (vote, taken.1))
  where
    store : Store
    store = (get_command_locks (print op) s.store).1

    said : Bool
    said = (get_command_locks (print op) s.store).0 && not (is_recovering store)

    answered : Server
    answered = record s {
      store = store;
      tpc = enqueue hash seq (print op) s.tpc;
      net = do_write_backend s.net.primary_fd (vote_line said hash seq s.net) s.net;
    }

    runs : handle_prepare seq hash (print op) s ≡ ok answered
    runs =
        ap
          (λ b.
            if b
            then blocked
            else if leb seq s.tpc.last_seq || has seq s.tpc.tpc_queue
            then ok s
            else ok answered)
          free
        ∙ ap (λ b. if b then ok s else ok answered) fresh

    queued :
        lookup seq answered.tpc.tpc_queue
        ≡ some (record { status = prepare; command = print op; hash = hash })
    queued = inserted seq _ s.tpc.tpc_queue

    taken :
        LocksOnce
          (key op)
          (is_held (lookup (key op) s.store.row_locks))
          s.store
          (get_command_locks (print op) s.store)
    taken = get_command_locks-once op s.store plain

    calm : is_recovering store ≡ is_recovering s.store
    calm = ap is_recovering (get_command_locks-SameButLocks (print op) s.store)

    vote :
        answered.net
        ≡ do_write_backend s.net.primary_fd
            (vote_line
              (not (is_held (lookup (key op) s.store.row_locks)) && not (is_recovering s.store))
              hash
              seq
              s.net)
            s.net
    vote =
        ap (λ b. do_write_backend s.net.primary_fd (vote_line b hash seq s.net) s.net)
          (ap (λ b. b && not (is_recovering store)) taken.0
            ∙ ap (λ b. not (is_held (lookup (key op) s.store.row_locks)) && not b) calm)
