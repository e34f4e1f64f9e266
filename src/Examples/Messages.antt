-- ===== src/Examples/Messages.antt =====
-- Single messages at a storage server and at the coordinator.
use penn_mail_and_penn_drive.Base.{
  ◌≡◌, ◌≢◌, refl, [], ◌∷◌, ◌++◌, some, false, Outcome, ok, blocked, stopped, arith, nat_eq, list_eq,
  max, if◌then◌else◌, ◌=?◌,
}
use penn_mail_and_penn_drive.Base.Maps.{lookup, insert, erase, contains, remove}
use penn_mail_and_penn_drive.Base.Text.{codes, split, trim_end, to_string}
use penn_mail_and_penn_drive.Command.{space}
use penn_mail_and_penn_drive.Dispatch.{
  Node, Connection, reply, on_server, pass_on, process_message, compare_value, send_numbers,
  take_numbers,
}
use penn_mail_and_penn_drive.Dispatch.Lines.{
  numbers, process_message-short, compare_value-old, take_numbers-send_numbers,
}
use penn_mail_and_penn_drive.Coordinator.{
  Name, Coordinator, primary_at, pick, choose_random_server, handle_server_failure, start_request,
  trim_line_end, announce, primary_message, send_to_all,
}
use penn_mail_and_penn_drive.Coordinator.Choice.{Available, choose_random_server-Available}
use penn_mail_and_penn_drive.Coordinator.Primary.{
  handle_server_failure-primary, handle_server_failure-empty,
}
use penn_mail_and_penn_drive.Examples.Transactions.{env, empty_server}

abbrev pub node : Node
node = record {
  server = empty_server;
  primary_addr = [];
  listen_address = codes "127.0.0.1:6000";
  server_count = 2;
  frontend_fds = [];
  tasks = [];
}

abbrev pub client : Connection
client = record { connfd = 9; coord_conn = false; backend_conn = false }

short_line : process_message env (λ a. 4) client (codes "HI ") node ≡ stopped
unfolding trim_end
short_line = process_message-short env (λ a. 4) client (codes "HI ") node refl (omega arith)

short_cput :
    (compare_value env client [] (codes "CPUT ada mail hi") (codes "hi") (codes "hi") node
      ≡ stopped)
    × (compare_value env client []
          (codes "CPUT ada mail hi")
          (codes "hi")
          (codes "hi" ++ space ∷ codes "bye")
          node
        ≡ (if codes "bye" =? codes "hi"
            then ok (reply client (codes "+OK table entry did not change.\r\n") node)
            else pass_on env client [] (codes "CPUT ada mail hi") node))
short_cput =
    compare_value-old env client [] (codes "CPUT ada mail hi") (codes "hi") node (codes "bye")

numbers_taken :
    (send_numbers client node ≡ reply client (numbers 0 0 ++ codes "\r\n") node)
    × (take_numbers (split space (numbers 0 0)) node
        ≡ ok (
            on_server node (record empty_server {
              tpc = record empty_server.tpc { tpc_seq = max 0 0; last_seq = max 0 0 };
            })))
numbers_taken = take_numbers-send_numbers client node node (omega arith) (omega arith)

abbrev pub ada : Name
ada = codes "10.0.0.1:1:2:3"

abbrev pub bob : Name
bob = codes "10.0.0.2:1:2:3"

abbrev pub coordinator : Coordinator
coordinator = record {
  server_heartbeat = (ada, 0) ∷ (bob, 0) ∷ [];
  partition_info = (ada, 1) ∷ (bob, 1) ∷ [];
  server_info = [];
  comm_fd = (ada, 5) ∷ (bob, 6) ∷ [];
  primary_server = (1, ada) ∷ [];
  alive_servers = (1, ada ∷ bob ∷ []) ∷ [];
  paused_servers = [];
  paused_servers_frontend_fd = [];
  sent = [];
}

choose_random_server-Available_example : Available 1 coordinator bob
unfolding choose_random_server pick lookup contains
choose_random_server-Available_example =
    choose_random_server-Available (3 ∷ []) 1 coordinator bob refl

abbrev result : Outcome Coordinator → Coordinator
result (ok c) = c
result blocked = coordinator
result stopped = coordinator

abbrev failed : Coordinator
failed = result (handle_server_failure (2 ∷ []) ada coordinator)

handle_server_failure-primary_example : primary_at 1 failed.primary_server ≢ ada
unfolding handle_server_failure choose_random_server pick lookup contains insert erase remove
    announce primary_message send_to_all split to_string
handle_server_failure-primary_example =
    handle_server_failure-primary (2 ∷ []) ada coordinator failed (λ e. cc) refl

abbrev all_paused : Coordinator
all_paused = record coordinator { primary_server = []; paused_servers = (1, ada ∷ bob ∷ []) ∷ [] }

empty_name_left :
    (d f : Coordinator) × (handle_server_failure (2 ∷ []) bob all_paused ≡ ok d)
    × (start_request (2 ∷ []) 8 (codes "START" ∷ codes "passwd" ∷ ada ∷ []) d ≡ ok f)
    × (lookup 1 f.primary_server ≡ some [])
    × (f.sent ≡ [] ++ (8, codes "+OK Server resumed\r\n") ∷ [])
unfolding lookup contains trim_line_end
empty_name_left =
    handle_server_failure-empty (2 ∷ []) (2 ∷ []) bob ada (codes "START") (codes "passwd") 8
      all_paused refl (λ e. cc) refl refl
