-- ===== src/Threads.antt =====
-- The storage server's other threads (backend/src/threads.cpp): logging, the replay of the
-- primary's log, the end of a primary's recovery, the check for transactions that take too long,
-- the clearing of tablets and the end of a connection. A thread's round runs without a break.
pub mod Recovery
pub mod Polls
pub mod Accepts
use penn_mail_and_penn_drive.Base.{
  ℕ, zero, suc, ◌+◌, ◌-◌, ◌*◌, ◌/◌, ◌%◌, ◌≤◌, ◌<◌, ◌≡◌, refl, sym, ap, ◌∙◌, subst, ◌≢◌, ◌↔◌, ◌⊎◌,
  inl, inr, Bool, true, false, not, ◌&&◌, ◌||◌, Option, none, some, List, [], ◌∷◌, ◌++◌, map,
  append_assoc, append-nil, arith, ltb, leb, ◌==◌, if◌then◌else◌, ==_iff, Bool-cases, Option-cases,
  Eq, ◌=?◌, nat_eq, list_eq, pair_eq, beq_refl, length, get_elem?, take, drop, length-append,
  drop-append, drop-length, take-append, All, All-append, Outcome, ok, blocked, stopped, ◌>>=◌,
  ◌>>◌, >>=-result, ok-injective, blocked-ne-ok,
}
use penn_mail_and_penn_drive.Base.Text.{
  Text, codes, Lacks, before, after?, after, before_last?, before_last, after_last, starts_with,
  find, has_text, tokens, split, is_digit, is_space, trim_end, to_string, value, atoi, stoi,
}
use penn_mail_and_penn_drive.Base.Maps.{Map, lookup, contains, remove, update}
use penn_mail_and_penn_drive.Server.{Transaction, Store, Tpc, Net, Server, Env}
use penn_mail_and_penn_drive.Wal.{flush_log, parse_log_string}
use penn_mail_and_penn_drive.Tablets.{start_new_checkpoint, clear_tablet}
use penn_mail_and_penn_drive.Net.{do_write_backend}
use penn_mail_and_penn_drive.Tpc.{primary_abort_transaction}

-- A log file of 100000000 bytes is due for a checkpoint.
unfoldable pub checkpoint_eligible : Text → Bool
checkpoint_eligible file = leb 100000000 (length file)

-- Every three seconds, for one tablet.
unfoldable pub log_round : ℕ → Server → Server
unfolding checkpoint_eligible
log_round t s =
    if s.store.checkpointing t
    then s
    else if s.net.is_primary && checkpoint_eligible (s.store.log_files t)
    then start_new_checkpoint t s
    else record s { store = flush_log t s.store }

abbrev pub set_recovering : ℕ → Bool → Store → Store
set_recovering t b s = record s { recovering = update s.recovering t b }

-- `recovery_func`, on the log that the primary sent.
unfoldable pub recover_tablet : Text → ℕ → Store → Outcome Store
recover_tablet log_string t s =
    parse_log_string log_string t (set_recovering t true s) >>= λ r. ok (set_recovering t false r)

-- `clear_func`, for the tablet that waits first.
unfoldable pub clear_round : Server → Server
clear_round s = elim s.store.clears [
  | [] ↦ s
  | t ∷ rest ↦ clear_tablet t (record s { store = record s.store { clears = rest } })
]

unfoldable pub abort_pending : Env → Map ℕ Transaction → Server → Outcome Server
abort_pending env [] s = ok s
abort_pending env ((seq, t) ∷ pending) s =
    primary_abort_transaction env seq t.hash s >>= abort_pending env pending

-- The end of the primary's recovery: what the log left undecided is aborted, and transactions may
-- start.
unfoldable pub finish_recovery : Env → Server → Outcome Server
unfolding abort_pending
finish_recovery env s = abort_pending env s.tpc.tpc_pending s >>= λ r.
    ok (record r { tpc = record r.tpc { primary_recovering = false } })

-- One look of `tpc_primary_recovery_function` at the replicas. A primary that is not connected to
-- all of them asks the coordinator, on `conn_fd`, how many there are, and waits; then the result
-- says `false`.
unfoldable pub recovery_round : Env → ℕ → ℕ → ℕ → Server → Outcome (Server × Bool)
unfolding finish_recovery
recovery_round env partition replica_count conn_fd s =
    if s.net.is_primary && ltb (length s.net.alive_replicas) replica_count
    then ok (
      record s {
        net =
            do_write_backend (some conn_fd)
              (codes "REPLICA COUNT " ++ (to_string partition ++ codes "\r\n")) s.net;
      },
      false,
    )
    else (finish_recovery env s >>= λ r. ok (r, true))

-- The transactions that started more than 6000 seconds ago; the clock counts nanoseconds.
unfoldable pub expired : ℕ → Map ℕ ℕ → List ℕ
expired now [] = []
expired now ((seq, start) ∷ times) =
    let rest = expired now times in if ltb (start + 6000000000000) now then seq ∷ rest else rest

-- Each is aborted if it is in the queue; `tpc_queue_lock` has to be free.
unfoldable pub abort_expired : Env → List ℕ → Server → Outcome Server
abort_expired env [] s = ok s
abort_expired env (seq ∷ to_remove) s =
    if s.tpc.queue_locked then blocked else elim (lookup seq s.tpc.tpc_queue) [
      | none ↦ abort_expired env to_remove s
      | some t ↦ primary_abort_transaction env seq t.hash s >>= abort_expired env to_remove
    ]

-- One round of `tpc_check_function`, on a primary.
unfoldable pub tpc_check_round : Env → Server → Outcome Server
unfolding expired abort_expired
tpc_check_round env s =
    if s.net.is_primary then abort_expired env (expired env.now s.tpc.tpc_start_time) s else ok s

-- The end of `start_func`: the connection is closed, and its peer is no replica any longer.
unfoldable pub end_connection : ℕ → Bool → Text → Net → Net
end_connection connfd backend_conn conn_address n = record n {
  partition_fds = remove connfd n.partition_fds;
  alive_replicas =
      if n.is_primary && backend_conn
      then remove conn_address n.alive_replicas
      else n.alive_replicas;
  open_fds = remove connfd n.open_fds;
}
