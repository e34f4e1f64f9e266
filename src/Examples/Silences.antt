-- ===== src/Examples/Silences.antt =====
-- Servers that are silent, and a primary that comes back.
use penn_mail_and_penn_drive.Tpc.{queue_loop}
use penn_mail_and_penn_drive.Tpc.{write_to_tpc_log}
use penn_mail_and_penn_drive.Tpc.{set_status}
use penn_mail_and_penn_drive.Tpc.{already_processed}
use penn_mail_and_penn_drive.Tpc.{primary_abort_transaction}
use penn_mail_and_penn_drive.Base.{
  ℕ, ◌≡◌, refl, true, false, some, List, [], ◌∷◌, arith, nat_eq, list_eq, pair_eq, Outcome, ok,
  blocked, stopped,
}
use penn_mail_and_penn_drive.Base.Text.{Text, codes, has_text, split, to_string, stoi}
use penn_mail_and_penn_drive.Base.Maps.{lookup, insert, contains, remove, insert_ordered}
use penn_mail_and_penn_drive.Server.{Transaction, Server}
use penn_mail_and_penn_drive.Tpc.{prepare, commit, process_tpc_queue}
use penn_mail_and_penn_drive.Coordinator.{
  Coordinator, choose_random_server, pick, announce, primary_message, handle_server_failure,
}
use penn_mail_and_penn_drive.Coordinator.Requests.{frontend_message}
use penn_mail_and_penn_drive.Coordinator.Storage.{
  Connections, heartbeat_connection, check_heartbeats, has_expired, comm_message,
}
use penn_mail_and_penn_drive.Coordinator.Silence.{AllHeard, check_heartbeats-AllHeard}
use penn_mail_and_penn_drive.Coordinator.Arrivals.{silent_connection}
use penn_mail_and_penn_drive.Threads.{finish_recovery}
use penn_mail_and_penn_drive.Threads.Recovery.{
  AllDone, enqueue, finish_recovery-AllDone, recovery_gap,
}
use penn_mail_and_penn_drive.Examples.Transactions.{env, empty_server}
use penn_mail_and_penn_drive.Examples.Messages.{coordinator, ada, bob}

abbrev sent_by : Outcome Coordinator → List (ℕ × Text)
sent_by (ok c) = c.sent
sent_by blocked = []
sent_by stopped = []

helo_answer :
    sent_by (
      frontend_message 2
        (1 ∷ [])
        9
        (codes "HELO passwd bob@penn")
        (record coordinator { alive_servers = (1, ada ∷ bob ∷ []) ∷ [] }))
    ≡ (9, codes "+OK 10.0.0.2:3\r\n") ∷ []
unfolding frontend_message has_text split choose_random_server lookup pick contains
helo_answer = refl

replica_count_answer :
    sent_by (comm_message 6 bob (codes "REPLICA COUNT 1") coordinator)
    ≡ (6, codes "REPLICA COUNT 2\r\n") ∷ []
unfolding comm_message has_text split stoi to_string lookup
replica_count_answer = refl

abbrev checked : Outcome (Connections × Coordinator) → Connections × Coordinator
checked (ok r) = r
checked blocked = ([], coordinator)
checked stopped = ([], coordinator)

abbrev late : Outcome (Connections × Coordinator)
late = check_heartbeats (λ n. 0 ∷ []) 9 ((4, ada) ∷ []) coordinator

heard_or_gone : AllHeard 9 (checked late).1.server_heartbeat (checked late).0
unfolding check_heartbeats lookup handle_server_failure choose_random_server insert remove pick
    contains announce primary_message split
heard_or_gone =
    check_heartbeats-AllHeard (λ n. 0 ∷ []) 9 ((4, ada) ∷ []) (checked late).0 coordinator
      (checked late).1 refl

abbrev known : Coordinator
known = record coordinator { server_heartbeat = []; server_info = (codes "10.0.0.1:1", ada) ∷ [] }

abbrev joined : Outcome (Connections × Coordinator)
joined = heartbeat_connection [] 4 (codes "10.0.0.1:1") 0 ([], known)

silent_ada : has_expired 1000 ada (checked joined).1.server_heartbeat ≡ false
unfolding heartbeat_connection lookup contains
silent_ada =
    silent_connection [] 4 0 1000 (codes "10.0.0.1:1") ada [] (checked joined).0 known
      (checked joined).1 refl (λ e. cc) refl refl

abbrev restarted : Server
restarted = record empty_server {
  tpc = record empty_server.tpc {
    tpc_pending = (1, record { status = prepare; command = []; hash = codes "h" }) ∷ [];
    primary_recovering = true;
  };
}

abbrev recovered : Outcome Server → Server
recovered (ok s) = s
recovered blocked = restarted
recovered stopped = restarted

finish_recovery-AllDone_example :
    AllDone restarted.tpc.tpc_pending (recovered (finish_recovery env restarted)).tpc
    × ((recovered (finish_recovery env restarted)).tpc.primary_recovering ≡ false)
    × ((recovered (finish_recovery env restarted)).tpc.tpc_queue ≡ [])
    × ((recovered (finish_recovery env restarted)).tpc.last_seq ≡ 0)
unfolding finish_recovery primary_abort_transaction already_processed lookup contains
    process_tpc_queue set_status write_to_tpc_log queue_loop
finish_recovery-AllDone_example =
    finish_recovery-AllDone env restarted (recovered (finish_recovery env restarted)) refl refl

abbrev put_two : Transaction
put_two = record { status = commit; command = codes "PUT a b c"; hash = codes "i" }

abbrev with_two : Server
with_two = record (recovered (finish_recovery env restarted)) {
  tpc = enqueue 2 put_two (recovered (finish_recovery env restarted)).tpc;
}

recovery_gap_example :
    ((recovered (process_tpc_queue env with_two)).tpc.last_seq ≡ 0)
    × (lookup 2 (recovered (process_tpc_queue env with_two)).tpc.tpc_queue ≡ some put_two)
unfolding finish_recovery process_tpc_queue primary_abort_transaction already_processed lookup
    contains set_status write_to_tpc_log queue_loop insert_ordered
recovery_gap_example =
    recovery_gap env env restarted (recovered (finish_recovery env restarted))
      (recovered (process_tpc_queue env with_two)) 2 put_two refl refl (omega arith) refl
