-- ===== src/Examples/Transactions.antt =====
-- Runs of two-phase commit on small servers.
use penn_mail_and_penn_drive.Base.{
  ◌+◌, ◌≡◌, refl, [], ◌∷◌, some, true, false, Outcome, ok, blocked, stopped, List, inl, arith,
  nat_eq, list_eq, pair_eq, length,
}
use penn_mail_and_penn_drive.Base.Maps.{
  lookup, insert, contains, erase, insert_ordered, add, contains,
}
use penn_mail_and_penn_drive.Base.Text.{
  Text, codes, find, starts_with, split, to_string, stoi, before, after, after?, has_text,
}
use penn_mail_and_penn_drive.Server.{Tpc, Net, Server, Env, Transaction}
use penn_mail_and_penn_drive.Store.{
  get_command_locks, execute_command, make_lock, unlock, put_value, join_values,
}
use penn_mail_and_penn_drive.Command.{get_tablet}
use penn_mail_and_penn_drive.Store.Ops.{print, apply}
use penn_mail_and_penn_drive.Wal.{log_message}
use penn_mail_and_penn_drive.Net.{forward_msg}
use penn_mail_and_penn_drive.Tpc.{
  decision, prepare, commit, abort, process_tpc_queue, queue_loop, set_lock, already_processed,
  primary_commit_transaction, primary_abort_transaction, write_to_tpc_log, process_tpc_log,
  commit_next, advance, respond, mark_message, set_status, decide, ensure_loaded,
}
use penn_mail_and_penn_drive.Tpc.Commit.{process_tpc_queue-applies}
use penn_mail_and_penn_drive.Tpc.Queue.{
  Progress, one_step, head, process_tpc_queue-one_step, process_tpc_queue-Progress,
}
use penn_mail_and_penn_drive.Tpc.Log.{
  Line, log_text, replayed, process_tpc_log-log_text, process_tpc_log_after_write,
}
use penn_mail_and_penn_drive.Handler.{
  handle_message, handle_vote, handle_decision, handle_prepare, replica_tpc, prepare_message,
}
use penn_mail_and_penn_drive.Handler.Lines.{replica_tpc-decision}
use penn_mail_and_penn_drive.Handler.Votes.{Voted, handle_prepare-Voted}
use penn_mail_and_penn_drive.Handler.Growth.{Grows}
use penn_mail_and_penn_drive.Handler.Numbers.{handle_message-Grows}
use penn_mail_and_penn_drive.Handler.Decisions.{Ignores, decision_once, prepared_head_blocks}
use penn_mail_and_penn_drive.Examples.{empty_store, letter, letter-IsPlain}

abbrev pub env : Env
env = record { now = 5; create_hash = λ m. m; avail_memory = λ i. 1000000 }

abbrev replica : Net
replica = record {
  is_primary = false;
  primary_fd = some 3;
  partition_fds = [];
  alive_replicas = [];
  open_fds = 3 ∷ [];
  own_ip = codes "127.0.0.1";
  primary_port = 5001;
  msg_queue = [];
  checkpoint_queue = [];
  checkpoint_acks = λ t. 0;
  primary_queue = [];
  sent = [];
}

abbrev fresh : Tpc
fresh = record {
  tpc_queue = [];
  queue_locked = false;
  last_seq = 0;
  tpc_seq = 0;
  queued_transactions = [];
  tpc_responses = [];
  tpc_replicas = [];
  tpc_start_time = [];
  tpc_pending = [];
  primary_recovering = false;
  tpc_file = [];
  tpc_pos = 0;
}

abbrev pending : Transaction
pending = record { status = prepare; command = print letter; hash = codes "h" }

-- Transaction 1 is prepared, and its row is locked.
abbrev prepared : Server
prepared = record {
  store = (get_command_locks (print letter) empty_store).1;
  tpc = record fresh { tpc_seq = 1; tpc_queue = (1, pending) ∷ [] };
  net = replica;
}

abbrev result : Outcome Server → Server
result (ok s) = s
result blocked = prepared
result stopped = prepared

abbrev committed : Server
committed = result (primary_commit_transaction env 1 (codes "h") prepared)

commits : primary_commit_transaction env 1 (codes "h") prepared ≡ ok committed
unfolding primary_commit_transaction already_processed process_tpc_queue queue_loop commit_next
    advance respond mark_message set_status decide forward_msg write_to_tpc_log execute_command
    log_message get_command_locks get_tablet find split lookup insert insert_ordered erase add
    contains ensure_loaded make_lock unlock put_value join_values to_string before after
commits = refl

decision_once_example :
    Ignores committed (primary_commit_transaction env 1 (codes "x") committed)
    × Ignores committed (primary_abort_transaction env 1 (codes "x") committed)
    × Ignores committed (handle_vote env false 1 (codes "x") (codes "127.0.0.1:5002") committed)
    × Ignores committed (handle_decision env (codes "TPC:ABORT:x:1") abort (codes "x") 1 committed)
decision_once_example =
    decision_once env 1 (codes "h") prepared committed (inl commits) env (codes "x")
      (codes "127.0.0.1:5002") (codes "TPC:ABORT:x:1") abort false

prepared_head_blocks_example :
    (process_tpc_queue env prepared ≡ ok (set_lock true prepared))
    × (process_tpc_queue env (set_lock true prepared) ≡ blocked)
    × (primary_commit_transaction env 1 (codes "h") (set_lock true prepared) ≡ blocked)
    × (primary_abort_transaction env 1 (codes "h") (set_lock true prepared) ≡ blocked)
    × (handle_vote env true 1 (codes "h") (codes "ip:1") (set_lock true prepared) ≡ blocked)
    × (handle_decision env (codes "m") commit (codes "h") 1 (set_lock true prepared) ≡ blocked)
    × (handle_prepare 1 (codes "h") (codes "m") (set_lock true prepared) ≡ blocked)
unfolding lookup
prepared_head_blocks_example =
    prepared_head_blocks env env pending prepared 1 (codes "h") (codes "ip:1") commit (codes "m")
      true refl refl refl

process_tpc_queue-one_step_example :
    (process_tpc_queue env prepared ≡ one_step env (head prepared.tpc) prepared)
    × (queue_loop 5 env (set_lock true prepared) ≡ process_tpc_queue env prepared)
process_tpc_queue-one_step_example = process_tpc_queue-one_step env 3 prepared refl

abbrev decided : Server
decided = record prepared {
  tpc = record fresh { tpc_seq = 1; tpc_queue = (1, record pending { status = commit }) ∷ [] };
}

process_tpc_queue-applies_example :
    (r : Server) × (process_tpc_queue env decided ≡ ok r)
    × (r.store.table ≡ apply letter decided.store.table)
    × (r.tpc.last_seq ≡ 0 + 1)
    × (r.tpc.queue_locked ≡ false)
unfolding get_command_locks split make_lock lookup insert
process_tpc_queue-applies_example =
    process_tpc_queue-applies env letter (codes "h") true decided refl refl letter-IsPlain tt refl
      refl

abbrev passed : Server
passed = result (process_tpc_queue env decided)

process_tpc_queue-Progress_example : Progress decided passed
unfolding process_tpc_queue queue_loop commit_next advance respond execute_command log_message
    get_command_locks get_tablet find split lookup insert erase ensure_loaded make_lock unlock
    put_value join_values to_string before after
process_tpc_queue-Progress_example = process_tpc_queue-Progress env decided passed refl

abbrev pub empty_server : Server
empty_server = record { store = empty_store; tpc = fresh; net = replica }

abbrev prepare_line : Text
prepare_line = codes "TPC:PREPARE:h:1:PUT ada mail hi"

abbrev answered : Server
answered = result (handle_message env [] prepare_line (some 3) true true empty_server)

handle_message-Grows_example : Grows fresh answered.tpc
unfolding handle_message replica_tpc prepare_message handle_prepare has_text after? after stoi
    before find lookup
handle_message-Grows_example =
    handle_message-Grows env [] prepare_line (some 3) true true empty_server answered refl

handle_prepare-Voted_example :
    (r : Server) × (handle_prepare 1 (codes "h") (print letter) empty_server ≡ ok r)
    × (lookup 1 r.tpc.tpc_queue ≡ some pending)
    × Voted 1 (codes "h") letter empty_server r
unfolding lookup
handle_prepare-Voted_example =
    handle_prepare-Voted 1 (codes "h") letter empty_server letter-IsPlain refl refl

replica_tpc-decision_example :
    (replica_tpc env (decision commit (codes "77") 1) prepared
      ≡ handle_decision env (decision commit (codes "77") 1) commit (codes "77") 1 prepared)
    × (replica_tpc env (decision abort (codes "77") 1) prepared
        ≡ handle_decision env (decision abort (codes "77") 1) abort (codes "77") 1 prepared)
unfolding has_text find starts_with to_string
replica_tpc-decision_example =
    replica_tpc-decision env (codes "77") 1 prepared (omega arith) (omega arith) refl refl

abbrev lines : List Line
lines =
    record { status = prepare; hash = codes "h"; seq = 1 }
    ∷ record { status = commit; hash = codes "h"; seq = 1 }
    ∷ []

process_tpc_log-log_text_example :
    process_tpc_log (record fresh { tpc_file = log_text lines; tpc_pos = 0 })
    ≡ ok (
        replayed lines (record fresh {
          tpc_file = log_text lines;
          tpc_pos = length (log_text lines);
          tpc_pending = [];
        }))
process_tpc_log-log_text_example = process_tpc_log-log_text lines fresh (
  (omega arith, omega arith, omega arith, omega arith, omega arith),
  ((omega arith, omega arith, omega arith, omega arith, omega arith), tt),
)

process_tpc_log_after_write_example :
    process_tpc_log (write_to_tpc_log (codes "TPC:PREPARE:h:1") fresh)
    ≡ ok (record (write_to_tpc_log (codes "TPC:PREPARE:h:1") fresh) { tpc_pending = [] })
process_tpc_log_after_write_example = process_tpc_log_after_write (codes "TPC:PREPARE:h:1") fresh
