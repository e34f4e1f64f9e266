-- ===== src/Handler.antt =====
-- `handle_message` of backend/src/threads.cpp and `handle_primary_queue` of backend/src/utils.cpp:
-- messages of two-phase commit, and commands that change a table. A handler runs without a break.
pub mod Growth
pub mod Numbers
pub mod Decisions
pub mod Votes
pub mod Lines
use penn_mail_and_penn_drive.Base.{
  ℕ, ◌+◌, Bool, true, false, not, ◌&&◌, ◌||◌, List, [], ◌∷◌, ◌++◌, Option, none, some, max, leb,
  ◌==◌, length, if◌then◌else◌, nat_eq, list_eq, Outcome, ok, blocked, stopped, ◌>>=◌,
}
use penn_mail_and_penn_drive.Base.Maps.{lookup, insert, insert_ordered, erase, has, contains, add}
use penn_mail_and_penn_drive.Base.Text.{
  Text, codes, before, after, after?, split, to_string, stoi, has_text,
}
use penn_mail_and_penn_drive.Server.{Message, Store, Tpc, Net, Server, Env}
use penn_mail_and_penn_drive.Command.{space, get_tablet, generate_client_response, opt_of}
use penn_mail_and_penn_drive.Store.{get_command_locks, execute_command}
use penn_mail_and_penn_drive.Wal.{log_message}
use penn_mail_and_penn_drive.Net.{do_write_backend}
use penn_mail_and_penn_drive.Tpc.{
  prepare, commit, abort, ensure_loaded, send_reply, process_tpc_queue, already_processed,
  write_to_tpc_log, mark_message, set_status, decision, primary_abort_transaction,
  primary_commit_transaction, start_tpc,
}

abbrev replicas_of : Option (List Text) → List Text
replicas_of none = []
replicas_of (some l) = l

-- `tpc_responses[seq].size() == tpc_replicas[seq].size() || … >= alive_replicas_ipport.size()`
unfoldable pub all_responded : ℕ → Server → Bool
all_responded seq s =
    length responses == length (replicas_of (lookup seq s.tpc.tpc_replicas))
    || leb (length s.net.alive_replicas) (length responses)
  where
    responses : List Text
    responses = replicas_of (lookup seq s.tpc.tpc_responses)

-- The primary takes the lock itself, and commits if it has it.
unfoldable pub finish_vote : Env → ℕ → Text → Text → Server → Outcome Server
finish_vote env seq hash command s =
    let (success, store) = get_command_locks command s.store in
    let r = record s { store = store } in
    if success
    then primary_commit_transaction env seq hash r
    else primary_abort_transaction env seq hash r

unfoldable pub count_yes : ℕ → Text → Tpc → Tpc
count_yes seq ip_port t = record t {
  tpc_responses =
      insert seq (add ip_port (replicas_of (lookup seq t.tpc_responses))) t.tpc_responses;
}

-- A vote on a transaction that is not decided.
unfoldable pub handle_vote : Env → Bool → ℕ → Text → Text → Server → Outcome Server
unfolding all_responded finish_vote count_yes
handle_vote env yes' seq hash ip_port s = do
  done ← already_processed seq s.tpc
  if done then ok s else elim (lookup seq s.tpc.tpc_queue) [
    | none ↦ ok s
    | some t ↦
        if yes'
        then (let r = record s { tpc = count_yes seq ip_port s.tpc } in
            if all_responded seq r then finish_vote env seq hash t.command r else ok r)
        else primary_abort_transaction env seq hash s
  ]

unfoldable pub vote_tokens : Env → Bool → List Text → Server → Outcome Server
vote_tokens env yes' (tag ∷ vote ∷ hash ∷ number ∷ ip ∷ port ∷ []) s = elim (stoi number) [
  | none ↦ stopped
  | some seq ↦ handle_vote env yes' seq hash (ip ++ b':' ∷ port) s
]
vote_tokens env yes' _ s = ok s

-- `TPC:YES:hash:seq:ip:port` and `TPC:NO:…` at the primary.
unfoldable pub primary_tpc : Env → Text → Server → Outcome Server
unfolding vote_tokens
primary_tpc env message s =
    if has_text (codes "YES") message || has_text (codes "NO") message
    then vote_tokens env (has_text (codes "YES") message) (split b':' message) s
    else ok s

-- The answer of a replica: `TPC:YES:hash:seq:IP:port`.
unfoldable pub vote_line : Bool → Text → ℕ → Net → Text
vote_line yes' hash seq n =
    decision (if yes' then codes "YES" else codes "NO") hash seq
    ++ (b':' ∷ (n.own_ip ++ (b':' ∷ (to_string n.primary_port ++ codes "\r\n"))))

abbrev is_recovering : Store → Bool
is_recovering s =
    s.recovering 0 || s.recovering 1 || s.recovering 2 || s.recovering 3 || s.recovering 4

-- The transaction goes into the queue before the replica tries to lock its row.
unfoldable pub enqueue : Text → ℕ → Text → Tpc → Tpc
enqueue hash seq command t =
    let r = write_to_tpc_log (decision prepare hash seq) t in
    record r {
      tpc_seq = max r.tpc_seq seq;
      tpc_queue =
          insert_ordered seq (record { status = prepare; command = command; hash = hash })
            r.tpc_queue;
    }

unfoldable pub handle_prepare : ℕ → Text → Text → Server → Outcome Server
unfolding enqueue
handle_prepare seq hash command s =
    if s.tpc.queue_locked
    then blocked
    else if leb seq s.tpc.last_seq || has seq s.tpc.tpc_queue
    then ok s
    else (let (success, store) = get_command_locks command s.store in
        ok (record s {
          store = store;
          tpc = enqueue hash seq command s.tpc;
          net =
              do_write_backend s.net.primary_fd
                (vote_line (success && not (is_recovering store)) hash seq s.net) s.net;
        }))

-- `TPC:PREPARE:hash:seq:command`, cut at the first four colons. With fewer than three colons the
-- number is read at another place; the word `TPC` there is no number.
unfoldable pub prepare_message : Text → Server → Outcome Server
prepare_message message s = elim (after? b':' message) [
  | none ↦ stopped
  | some m1 ↦ elim (after? b':' m1) [
    | none ↦ elim (stoi m1) [
      | none ↦ stopped
      | some seq ↦ handle_prepare seq (before b':' message) message s
    ]
    | some m2 ↦ elim (after? b':' m2) [
      | none ↦ stopped
      | some m3 ↦ elim (stoi (before b':' m3)) [
        | none ↦ stopped
        | some seq ↦
            handle_prepare seq (before b':' m2)
              (elim (after? b':' m3) [ none ↦ message | some m4 ↦ m4 ]) s
      ]
    ]
  ]
]

-- A decision of the primary reaches a replica.
unfoldable pub handle_decision : Env → Text → Text → Text → ℕ → Server → Outcome Server
handle_decision env message status hash seq s = do
  done ← already_processed seq s.tpc
  if done
      then ok s
      else process_tpc_queue env (record s {
        tpc = set_status status seq (
            write_to_tpc_log message
              (record s.tpc { queued_transactions = add seq s.tpc.queued_transactions }));
        net = mark_message status hash s.net;
      })

unfoldable pub decision_tokens : Env → Text → List Text → Server → Outcome Server
decision_tokens env message (tag ∷ status ∷ hash ∷ number ∷ []) s = elim (stoi number) [
  | none ↦ stopped
  | some seq ↦ handle_decision env message status hash seq s
]
decision_tokens env message _ s = ok s

unfoldable pub replica_tpc : Env → Text → Server → Outcome Server
unfolding prepare_message decision_tokens
replica_tpc env message s =
    if has_text prepare message
    then prepare_message message s
    else if has_text commit message || has_text abort message
    then decision_tokens env message (split b':' message) s
    else ok s

-- `col`, as `handle_message` cuts it out.
message_col : Text → Text
message_col message = elim (after? space (after space message)) [
  | none ↦ before space message
  | some rest ↦ before space rest
]

-- What the primary keeps of a command until it is answered.
unfoldable pub primary_message : Text → Option ℕ → Bool → Text → Message
unfolding message_col
primary_message message connfd backend_conn original_ipport = record {
  fd = connfd;
  from_frontend = not backend_conn;
  tpc_success = prepare;
  original_ipport = original_ipport;
  opt = opt_of message;
  row = before space (after space message);
  col = message_col message;
}

-- No replica is connected: the command is executed at once.
unfoldable pub execute_alone : Env → Text → Text → Message → Server → Outcome Server
execute_alone env message hash msg s =
    let t = get_tablet msg.row in
    let (success, store) = get_command_locks message s.store in
    if success
    then (do
      loaded ← ensure_loaded env t store
      done ← execute_command message (log_message message (s.tpc.last_seq + 1) t loaded)
      let r =
          send_reply msg.fd (generate_client_response true msg.opt) t
            (record s { store = done; tpc = record s.tpc { last_seq = s.tpc.last_seq + 1 } })
      ok (record r { net = record r.net { msg_queue = erase hash r.net.msg_queue } }))
    else (let n = do_write_backend msg.fd (generate_client_response false msg.opt) s.net in
        ok (record s { store = store; net = record n { msg_queue = erase hash n.msg_queue } }))

-- A command at the primary, from a frontend server or passed on by a replica with its hash.
unfoldable pub primary_command :
    Env → Text → Text → Option ℕ → Bool → Text → Server → Outcome Server
primary_command env given_hash message connfd backend_conn original_ipport s =
    let hash = if backend_conn then given_hash else env.create_hash message in
    let msg = primary_message message connfd backend_conn original_ipport in
    let seq = s.tpc.tpc_seq + 1 in
    let r = record s {
      tpc = record s.tpc { tpc_seq = seq };
      net = record s.net { msg_queue = insert hash msg s.net.msg_queue };
    } in
    if length s.net.partition_fds == 0
    then execute_alone env message hash msg r
    else start_tpc env message hash seq r

abbrev can_write : Option ℕ → List ℕ → Bool
can_write none fds = false
can_write (some fd) fds = contains fd fds

-- A replica passes a command on; while the primary is gone it keeps the line, its end included.
unfoldable pub replica_command : Env → Text → Option ℕ → Server → Server
replica_command env message connfd s =
    let hash = env.create_hash message in
    let line = hash ++ (space ∷ (message ++ codes "\r\n")) in
    let n =
      if can_write s.net.primary_fd s.net.open_fds
      then do_write_backend s.net.primary_fd line s.net
      else record s.net { primary_queue = s.net.primary_queue ++ line ∷ [] } in
    record s {
      net = record n {
        msg_queue =
            insert hash
              (record {
                fd = connfd;
                from_frontend = true;
                tpc_success = prepare;
                original_ipport = [];
                opt = opt_of message;
                row = [];
                col = [];
              })
              n.msg_queue;
      };
    }

unfoldable pub handle_message : Env → Text → Text → Option ℕ → Bool → Bool → Server → Outcome Server
handle_message env hash message connfd backend_conn is_tpc s =
    if is_tpc
    then (if s.net.is_primary then primary_tpc env message s else replica_tpc env message s)
    else if s.net.is_primary
    then primary_command env hash message connfd backend_conn (codes "NA") s
    else ok (replica_command env message connfd s)

-- The lines that were kept for a primary that was gone, once this server is the primary.
unfoldable pub start_queued : Env → List Text → Server → Outcome Server
start_queued env [] s = ok (record s { net = record s.net { primary_queue = [] } })
start_queued env (line ∷ lines) s =
    let seq = s.tpc.tpc_seq + 1 in
    start_tpc env (after space line) (before space line) seq
      (record s { tpc = record s.tpc { tpc_seq = seq } })
    >>= start_queued env lines

unfoldable pub handle_primary_queue : Env → Server → Outcome Server
unfolding start_queued
handle_primary_queue env s =
    if s.net.is_primary then start_queued env s.net.primary_queue s else ok s

-- A replica sends the lines that it kept to the new primary.
send_lines : List Text → Net → Net
send_lines [] n = n
send_lines (line ∷ lines) n = send_lines lines (do_write_backend n.primary_fd line n)

unfoldable pub send_queued_primary : Net → Net
unfolding send_lines
send_queued_primary n = record (send_lines n.primary_queue n) { primary_queue = [] }
