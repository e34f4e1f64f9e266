-- ===== src/Tpc.antt =====
-- Two-phase commit: `process_tpc_queue`, `already_processed`, `primary_abort_transaction`,
-- `primary_commit_transaction`, `start_tpc`, `write_to_tpc_log` and `process_tpc_log` of
-- backend/src/utils.cpp. The mutexes but `tpc_queue_lock` are released by whoever takes them, in
-- the same call, so they leave no trace in the state.
pub mod Queue
pub mod Aborts
pub mod Log
pub mod Commit
use penn_mail_and_penn_drive.Base.{
  ℕ, zero, suc, ◌+◌, Bool, true, false, ◌||◌, List, [], ◌∷◌, ◌++◌, Option, none, some, max, leb,
  length, drop, if◌then◌else◌, ◌=?◌, nat_eq, list_eq, pair_eq, Outcome, ok, blocked, stopped, ◌>>=◌,
}
use penn_mail_and_penn_drive.Base.Maps.{
  Map, lookup, insert, insert_ordered, erase, has, contains, add,
}
use penn_mail_and_penn_drive.Base.Text.{Text, codes, before, after, split, to_string, stoi}
use penn_mail_and_penn_drive.Server.{Key, Transaction, Message, Store, Tpc, Net, Server, Env}
use penn_mail_and_penn_drive.Command.{space, newline, get_tablet, generate_client_response}
use penn_mail_and_penn_drive.Store.{unlock, execute_command}
use penn_mail_and_penn_drive.Wal.{log_message}
use penn_mail_and_penn_drive.Tablets.{load_tablet}
use penn_mail_and_penn_drive.Net.{do_write_backend, forward_msg}

abbrev pub prepare : Text
prepare = codes "PREPARE"

abbrev pub commit : Text
commit = codes "COMMIT"

abbrev pub abort : Text
abort = codes "ABORT"

-- The row and the column of a command, as the queue's loop cuts them out.
unfoldable pub command_row : Text → Text
command_row command = before space (after space command)

unfoldable pub command_col : Text → Text
command_col command = before space (after space (after space command))

-- The reply is held back while the tablet is checkpointed.
unfoldable pub send_reply : Option ℕ → Text → ℕ → Server → Server
send_reply fd reply t s =
    if s.store.checkpointing t
    then record s {
      net = record s.net { checkpoint_queue = s.net.checkpoint_queue ++ (fd, reply) ∷ [] };
    }
    else record s { net = do_write_backend fd reply s.net }

-- `if (msg_queue.find(hash) != msg_queue.end() && msg_queue[hash]->from_frontend) { … }`
unfoldable pub respond : Bool → Text → Server → Server
unfolding send_reply
respond success hash s = elim (lookup hash s.net.msg_queue) [
  | none ↦ s
  | some msg ↦
      if msg.from_frontend
      then (let r =
            send_reply msg.fd (generate_client_response success msg.opt) (get_tablet msg.row) s in
          record r { net = record r.net { msg_queue = erase hash r.net.msg_queue } })
      else s
]

-- `last_seq = next_seq; next_seq++; tpc_queue.erase(next_seq);`
unfoldable pub advance : Tpc → Tpc
advance t = record t {
  last_seq = t.last_seq + 1;
  tpc_queue = erase (t.last_seq + 1 + 1) t.tpc_queue;
}

-- A tablet that is not in memory is loaded.
unfoldable pub ensure_loaded : Env → ℕ → Store → Outcome Store
ensure_loaded env t s = if s.active_tablets t then ok s else load_tablet env.avail_memory t s

-- `next_seq` has been raised when the command is logged.
unfoldable pub commit_next : Env → Transaction → Server → Outcome Server
unfolding advance ensure_loaded
commit_next env cur s = do
  loaded ← ensure_loaded env (get_tablet (command_row cur.command)) s.store
  done ← execute_command cur.command (
      log_message cur.command (s.tpc.last_seq + 1 + 1) (get_tablet (command_row cur.command))
        loaded)
  ok (respond true cur.hash (record s { store = done; tpc = advance s.tpc }))

unfoldable pub unlock_if_there : Key → Store → Outcome Store
unlock_if_there key s = if has key s.row_locks then unlock s key else ok s

unfoldable pub abort_next : Transaction → Server → Outcome Server
unfolding advance unlock_if_there
abort_next cur s = do
  done ← unlock_if_there (command_row cur.command, command_col cur.command) s.store
  ok (respond false cur.hash (record s { store = done; tpc = advance s.tpc }))

abbrev pub set_lock : Bool → Server → Server
set_lock locked s = record s { tpc = record s.tpc { queue_locked = locked } }

-- The loop, with `tpc_queue_lock` held. A transaction that is neither prepared, committed nor
-- aborted makes it loop for ever.
unfoldable pub queue_loop : ℕ → Env → Server → Outcome Server
queue_loop zero env s = blocked
queue_loop (suc fuel) env s = elim (lookup (s.tpc.last_seq + 1) s.tpc.tpc_queue) [
  | none ↦ ok (set_lock false s)
  | some cur ↦
      if cur.status =? prepare
      then ok s
      else if cur.status =? commit
      then commit_next env cur s >>= queue_loop fuel env
      else if cur.status =? abort
      then abort_next cur s >>= queue_loop fuel env
      else blocked
]

-- The body runs at most once, so two rounds of fuel are enough.
unfoldable pub process_tpc_queue : Env → Server → Outcome Server
process_tpc_queue env s = if s.tpc.queue_locked then blocked else queue_loop 2 env (set_lock true s)

abbrev pub is_decided : Option Transaction → Bool
is_decided none = false
is_decided (some t) = t.status =? abort || t.status =? commit

unfoldable pub already_processed : ℕ → Tpc → Outcome Bool
already_processed seq t =
    if t.queue_locked
    then blocked
    else ok (
        leb seq t.last_seq
        || is_decided (lookup seq t.tpc_queue)
        || contains seq t.queued_transactions)

-- A line at the end of the file, where the file's position then stands.
unfoldable pub write_to_tpc_log : Text → Tpc → Tpc
write_to_tpc_log message t =
    let file = t.tpc_file ++ (message ++ newline ∷ []) in
    record t { tpc_file = file; tpc_pos = length file }

abbrev with_status : Text → Option Transaction → ℕ → Map ℕ Transaction → Map ℕ Transaction
with_status status none seq q = q
with_status status (some t) seq q = insert_ordered seq (record t { status = status }) q

abbrev with_success : Text → Option Message → Text → Map Text Message → Map Text Message
with_success status none hash q = q
with_success status (some m) hash q = insert hash (record m { tpc_success = status }) q

-- `if (msg_queue.find(hash) != msg_queue.end()) msg_queue[hash]->tpc_success = status;`
unfoldable pub mark_message : Text → Text → Net → Net
mark_message status hash n = record n {
  msg_queue = with_success status (lookup hash n.msg_queue) hash n.msg_queue;
}

-- `if (tpc_queue.find(seq) != tpc_queue.end()) tpc_queue[seq].status = status;`
unfoldable pub set_status : Text → ℕ → Tpc → Tpc
set_status status seq t = record t {
  tpc_queue = with_status status (lookup seq t.tpc_queue) seq t.tpc_queue;
}

-- `TPC:status:hash:seq`
abbrev pub decision : Text → Text → ℕ → Text
decision status hash seq = codes "TPC:" ++ (status ++ (b':' ∷ (hash ++ b':' ∷ to_string seq)))

-- The decision is marked as made, logged, sent to the replicas and noted, before the queue is
-- looked at. `already_processed` has found `tpc_queue_lock` free.
unfoldable pub decide : Text → Env → ℕ → Text → Server → Outcome Server
decide status env seq hash s = process_tpc_queue env (record s {
  tpc = set_status status seq (
      write_to_tpc_log (decision status hash seq) (record s.tpc {
        queued_transactions = add seq s.tpc.queued_transactions;
        tpc_responses = erase seq s.tpc.tpc_responses;
        tpc_start_time = erase seq s.tpc.tpc_start_time;
      }));
  net = mark_message status hash (forward_msg (decision status hash seq ++ codes "\r\n") s.net);
})

unfoldable pub primary_abort_transaction : Env → ℕ → Text → Server → Outcome Server
unfolding decide
primary_abort_transaction env seq hash s = do
  done ← already_processed seq s.tpc
  if done then ok s else decide abort env seq hash s

unfoldable pub primary_commit_transaction : Env → ℕ → Text → Server → Outcome Server
unfolding decide
primary_commit_transaction env seq hash s = do
  done ← already_processed seq s.tpc
  if done then ok s else decide commit env seq hash s

-- `TPC:PREPARE:hash:seq:command`
unfoldable pub start_tpc : Env → Text → Text → ℕ → Server → Outcome Server
start_tpc env command hash seq s =
    if s.tpc.primary_recovering || s.tpc.queue_locked
    then blocked
    else ok (record s {
      tpc = write_to_tpc_log (decision prepare hash seq) (record s.tpc {
        tpc_start_time = insert_ordered seq env.now s.tpc.tpc_start_time;
        tpc_queue =
            insert_ordered seq (record { status = prepare; command = command; hash = hash })
              s.tpc.tpc_queue;
        tpc_replicas = insert seq s.net.alive_replicas s.tpc.tpc_replicas;
      });
      net = forward_msg (decision prepare hash seq ++ (b':' ∷ (command ++ codes "\r\n"))) s.net;
    })

-- One line of the TPC log with its four parts.
unfoldable pub log_entry : Text → Text → ℕ → Tpc → Tpc
log_entry type hash seq t =
    let r = record t { tpc_seq = max t.tpc_seq seq } in
    if leb seq r.last_seq
    then r
    else if type =? prepare
    then record r {
      tpc_pending =
          insert_ordered seq (record { status = type; command = []; hash = hash }) r.tpc_pending;
    }
    else if type =? commit || type =? abort
    then record r { tpc_pending = erase seq r.tpc_pending; last_seq = max r.last_seq seq }
    else r

unfoldable pub log_tokens : List Text → Tpc → Outcome Tpc
unfolding log_entry
log_tokens (tag ∷ type ∷ hash ∷ number ∷ []) t = elim (stoi number) [
  | none ↦ stopped
  | some seq ↦ ok (log_entry type hash seq t)
]
log_tokens _ t = ok t

unfoldable pub log_lines : List Text → Tpc → Outcome Tpc
unfolding log_tokens
log_lines [] t = ok t
log_lines (line ∷ lines) t = log_tokens (split b':' line) t >>= log_lines lines

-- It reads from the file's position on.
unfoldable pub process_tpc_log : Tpc → Outcome Tpc
unfolding log_lines
process_tpc_log t =
    log_lines (split newline (drop t.tpc_pos t.tpc_file))
      (record t { tpc_pending = []; tpc_pos = length t.tpc_file })
