-- ===== src/Dispatch.antt =====
-- `start_func` of backend/src/threads.cpp: what a connection's thread does with one message. The
-- buffer has been cut at `\r\n`. Threads that are started are kept as tasks.
pub mod Lines
use penn_mail_and_penn_drive.Base.{
  ℕ, ◌+◌, ◌-◌, Bool, true, false, not, ◌&&◌, ◌||◌, List, [], ◌∷◌, ◌++◌, Option, none, some, max,
  ltb, leb, ◌==◌, length, take, drop, if◌then◌else◌, ◌=?◌, nat_eq, list_eq, pair_eq, Outcome, ok,
  stopped, ◌>>=◌,
}
use penn_mail_and_penn_drive.Base.Maps.{lookup, update, remove}
use penn_mail_and_penn_drive.Base.Text.{
  Text, codes, before, after, after_last, starts_with, has_text, split, trim_end, to_string, atoi,
  stoi,
}
use penn_mail_and_penn_drive.Server.{Key, Server, Env}
use penn_mail_and_penn_drive.Command.{space, newline, put, cput, delete, get_tablet}
use penn_mail_and_penn_drive.Store.{get, make_lock, at}
use penn_mail_and_penn_drive.Wal.{create_log_string}
use penn_mail_and_penn_drive.Net.{do_write_backend, forward_msg, send_queued_messages}
use penn_mail_and_penn_drive.Tablets.{checkpoint_server, make_kv_pairs}
use penn_mail_and_penn_drive.Tpc.{ensure_loaded, send_reply, process_tpc_log}
use penn_mail_and_penn_drive.Handler.{handle_message, handle_primary_queue}

-- `create_recovery_thread`, `tpc_check_function`, `tpc_primary_recovery_function` and a thread for
-- a new connection to the primary.
pub data Task : Type 0 where
  recover_log : Text → ℕ → Task
  tpc_check : Task
  tpc_primary_recovery : Task
  serve_primary : ℕ → Task

-- The globals that only `start_func` uses. `server_count` is one more than `replica_count`.
pub record Node : Type 0 where
  pub server : Server
  pub primary_addr : Text
  pub listen_address : Text
  pub server_count : ℕ
  pub frontend_fds : List ℕ
  pub tasks : List Task

-- A connection, by what its thread was started with.
pub record Connection : Type 0 where
  pub connfd : ℕ
  pub coord_conn : Bool
  pub backend_conn : Bool

abbrev pub on_server : Node → Server → Node
on_server n s = record n { server = s }

abbrev pub reply : Connection → Text → Node → Node
reply c msg n =
    on_server n (record n.server { net = do_write_backend (some c.connfd) msg n.server.net })

close_all : List ℕ → List ℕ → List ℕ
close_all [] rest = rest
close_all (fd ∷ fds) rest = close_all fds (remove fd rest)

-- The connections of a primary that is stopped.
close_replicas : Node → Node
unfolding close_all
close_replicas n = on_server n (record n.server {
  net = record n.server.net {
    is_primary = false;
    open_fds = close_all n.server.net.partition_fds n.server.net.open_fds;
    partition_fds = [];
    alive_replicas = [];
  };
})

unfoldable pub stop_server : Connection → Node → Node
unfolding close_replicas
stop_server c n =
    let m = record n {
      server = record n.server {
        net = record n.server.net { open_fds = close_all n.frontend_fds n.server.net.open_fds };
      };
      frontend_fds = [];
    } in
    reply c (codes "+ACK\r\n") (if n.server.net.is_primary then close_replicas m else m)

-- `if (primary_fd > 0) { close(primary_fd); primary_fd = -1; }`
close_primary : Server → Server
close_primary s = elim s.net.primary_fd [
  | none ↦ s
  | some fd ↦
      if ltb 0 fd
      then record s {
        net = record s.net { primary_fd = none; open_fds = remove fd s.net.open_fds };
      }
      else s
]

become_primary : Env → Node → Outcome Node
unfolding close_primary
become_primary env n = do
  let s = close_primary (record n.server {
    tpc = record n.server.tpc { primary_recovering = true };
    net = record n.server.net { is_primary = true };
  })
  t ← process_tpc_log s.tpc
  r ← handle_primary_queue env (record s { tpc = t })
  ok (record n { server = r; tasks = n.tasks ++ tpc_check ∷ tpc_primary_recovery ∷ [] })

-- `connect` is `create_connect_socket_port`, which opens a socket to an address.
follow_primary : (Text → ℕ) → Text → Node → Node
follow_primary connect addr n =
    let s = close_primary (record n.server { net = record n.server.net { is_primary = false } }) in
    record n {
      server = record s {
        net = record s.net {
          primary_fd = some (connect addr);
          open_fds = connect addr ∷ s.net.open_fds;
        };
      };
      tasks = n.tasks ++ serve_primary (connect addr) ∷ [];
    }

choose_primary : Env → (Text → ℕ) → Text → ℕ → Node → Outcome Node
unfolding become_primary follow_primary
choose_primary env connect addr count n =
    let m = record n { primary_addr = addr; server_count = count } in
    if addr =? n.listen_address
    then (if n.server.net.is_primary then ok m else become_primary env m)
    else ok (follow_primary connect addr m)

-- `+OK PRIMARY IP:port count`
unfoldable pub new_primary : Env → (Text → ℕ) → List Text → Node → Outcome Node
unfolding choose_primary
new_primary env connect (status ∷ word ∷ addr ∷ count ∷ rest) n = elim (stoi count) [
  | none ↦ stopped
  | some k ↦ choose_primary env connect addr k n
]
new_primary env connect _ n = ok n

-- `TSEQNUM` from a replica
unfoldable pub send_numbers : Connection → Node → Node
send_numbers c n =
    reply c
      (codes "TSEQNUMRETURN "
        ++ (to_string n.server.tpc.tpc_seq
            ++ space ∷ (to_string n.server.tpc.last_seq ++ codes "\r\n")))
      n

-- `TSEQNUMRETURN tpc_seq last_seq`
unfoldable pub take_numbers : List Text → Node → Outcome Node
take_numbers (word ∷ seq ∷ last ∷ []) n = elim (stoi seq) [
  | none ↦ stopped
  | some a ↦ elim (stoi last) [
    | none ↦ stopped
    | some b ↦ ok (
        on_server n (record n.server {
          tpc = record n.server.tpc {
            tpc_seq = max n.server.tpc.tpc_seq a;
            last_seq = max n.server.tpc.last_seq b;
          };
        }))
  ]
]
take_numbers _ n = ok n

-- `+OK REQUEST logfile t`
unfoldable pub send_log : Connection → Text → Node → Node
send_log c message n =
    let (line, store) = create_log_string (atoi (after_last space message)) n.server.store in
    reply c line (on_server n (record n.server { store = store }))

-- `CHECK_ACK t`
unfoldable pub count_ack : Text → Node → Node
count_ack message n =
    let t = atoi (after space message) in
    let net = n.server.net in
    let acks = net.checkpoint_acks t + 1 in
    on_server n (record n.server {
      net =
          if leb (length net.partition_fds) acks
          then (let done = send_queued_messages (forward_msg (codes "CHECK_DONE\r\n") net) in
              record done { checkpoint_acks = update net.checkpoint_acks t 0 })
          else record net { checkpoint_acks = update net.checkpoint_acks t acks };
    })

-- `LOGFILE t log`
unfoldable pub take_log : Text → Node → Node
take_log message n =
    let log_num = after space message ++ newline ∷ [] in
    record n {
      tasks = n.tasks ++ recover_log (after space log_num) (atoi (before space log_num)) ∷ [];
    }

-- `REPLICA COUNT n`
unfoldable pub take_count : Text → Node → Outcome Node
take_count message n = do
  count ← at (split space message) 2
  elim (stoi count) [ none ↦ stopped | some k ↦ ok (record n { server_count = k }) ]

abbrev missing : Text
missing = codes "-ERR 204 specific row and column does not exist.\r\n"

abbrev pub pass_on : Env → Connection → Text → Text → Node → Outcome Node
pass_on env c hash message n = do
  s ← handle_message env hash message (some c.connfd) c.backend_conn false n.server
  ok (on_server n s)

unfoldable pub put_command_line : Env → Connection → Text → Text → Key → Node → Outcome Node
put_command_line env c hash message key n =
    pass_on env c hash message
      (on_server n (record n.server { store = make_lock n.server.store key }))

-- A read lock is tried, but the value is read whether it was got or not.
unfoldable pub get_value : Env → Connection → Key → Node → Outcome Node
get_value env c key n = do
  store ← ensure_loaded env (get_tablet key.0) n.server.store
  let m = on_server n (record n.server { store = store })
  elim (get store key) [
    | none ↦ ok (reply c missing m)
    | some v ↦ elim (lookup key store.row_locks) [
      | none ↦ stopped
      | some _ ↦
          ok (
            on_server m
              (send_reply (some c.connfd) (v ++ codes "\r\n") (get_tablet key.0) m.server))
    ]
  ]

-- The old value is compared before the command is passed on; a line that ends behind it makes
-- `values.substr(existing_val.size() + 1)` throw.
unfoldable pub compare_value : Env → Connection → Text → Text → Text → Text → Node → Outcome Node
compare_value env c hash message existing values n =
    if take (length existing) values =? existing
    then (if ltb (length values) (length existing + 1)
        then stopped
        else if drop (length existing + 1) values =? existing
        then ok (reply c (codes "+OK table entry did not change.\r\n") n)
        else pass_on env c hash message n)
    else ok (reply c (codes "-ERR 204 original value does not match.\r\n") n)

unfoldable pub cput_command_line : Env → Connection → Text → Text → Key → Text → Node → Outcome Node
unfolding compare_value
cput_command_line env c hash message key values n = do
  store ← ensure_loaded env (get_tablet key.0) n.server.store
  let m = on_server n (record n.server { store = store })
  elim (get store key) [
    | none ↦ ok (reply c missing m)
    | some existing ↦ compare_value env c hash message existing values m
  ]

-- The tablet is not loaded for a DELETE.
unfoldable pub delete_command_line : Env → Connection → Text → Text → Key → Node → Outcome Node
delete_command_line env c hash message key n = elim (get n.server.store key) [
  | none ↦ ok (reply c missing n)
  | some _ ↦ pass_on env c hash message n
]

unfoldable pub command_line : Env → Connection → Text → Text → Node → Outcome Node
unfolding put_command_line get_value cput_command_line delete_command_line
command_line env c hash message n =
    let rcv = after space message in
    let row = before space rcv in
    let colv = after space rcv in
    if starts_with put message
    then put_command_line env c hash message (row, before space colv) n
    else if starts_with (codes "GET") message
    then (if message =? codes "GET passwd null"
        then ok (reply c (make_kv_pairs n.server.store) n)
        else get_value env c (row, colv) n)
    else if starts_with cput message
    then cput_command_line env c hash message (row, before space colv) (after space colv) n
    else if starts_with delete message
    then delete_command_line env c hash message (row, colv) n
    else if c.backend_conn
    then ok n
    else ok (reply c (codes "-ERR Unknown command: " ++ (take 200 message ++ codes "\r\n")) n)

unfoldable pub is_primary_fd : Connection → Node → Bool
is_primary_fd c n = elim n.server.net.primary_fd [ none ↦ false | some fd ↦ fd =? c.connfd ]

-- The messages between servers, once the message is known to have four bytes.
long_message : Env → (Text → ℕ) → Connection → Text → Node → Outcome Node
unfolding is_primary_fd
long_message env connect c message n =
    if starts_with (codes "PRIMARY") (drop 4 message) && c.coord_conn
    then new_primary env connect (split space message) n
    else if n.server.net.is_primary && has_text (codes "TSEQNUM") message
    then ok (send_numbers c n)
    else if has_text (codes "TSEQNUMRETURN") message
    then take_numbers (split space message) n
    else if n.server.net.is_primary && starts_with (codes "REQUEST") (drop 4 message)
    then ok (send_log c message n)
    else if n.server.net.is_primary && starts_with (codes "CHECK_ACK") message
    then ok (count_ack message n)
    else if is_primary_fd c n && starts_with (codes "LOGFILE") message
    then ok (take_log message n)
    else if is_primary_fd c n && starts_with (codes "CHECKPOINT") message
    then ok (on_server n (checkpoint_server (atoi (after space message)) n.server))
    else if starts_with (codes "CHECK_DONE") message
    then ok (on_server n (record n.server { net = send_queued_messages n.server.net }))
    else if starts_with (codes "TPC") message
    then (do
      s ← handle_message env [] message (some c.connfd) c.backend_conn true n.server
      ok (on_server n s))
    else if has_text (codes "REPLICA COUNT") message
    then take_count message n
    else if c.backend_conn
    then command_line env c (before space message) (after space message) n
    else command_line env c [] message n

-- `message.substr(4, 7)` throws for a message of less than four bytes.
unfoldable pub process_message : Env → (Text → ℕ) → Connection → Text → Node → Outcome Node
unfolding long_message
process_message env connect c line n =
    let message = trim_end line in
    if has_text (codes "STOP") message && c.coord_conn
    then ok (stop_server c n)
    else if ltb (length message) 4
    then stopped
    else long_message env connect c message n
