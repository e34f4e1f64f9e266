-- ===== src/Examples/Polls.antt =====
-- A frontend server that sends a command in two reads, and a replica that comes and goes.
use penn_mail_and_penn_drive.Base.{
  ◌≡◌, refl, true, false, ◌||◌, [], ◌∷◌, nat_eq, list_eq, ok, blocked, stopped, Outcome,
}
use penn_mail_and_penn_drive.Base.Maps.{contains}
use penn_mail_and_penn_drive.Base.Text.{Text, codes}
use penn_mail_and_penn_drive.Threads.{end_connection}
use penn_mail_and_penn_drive.Threads.Polls.{readable, hung_up, poll_rounds, poll_rounds-split}
use penn_mail_and_penn_drive.Threads.Accepts.{Acceptor, is_stored, is_replica, accept_connection}
use penn_mail_and_penn_drive.Threads.Accepts.Ends.{accept_connection-ended}
use penn_mail_and_penn_drive.Examples.Transactions.{env}
use penn_mail_and_penn_drive.Examples.Messages.{node, client}

poll_rounds-split_example :
    poll_rounds env
      (λ a. 4)
      client
      (codes "127.0.0.1:5000")
      ((false, readable (codes "GET ada mail\r\n")) ∷ (false, hung_up) ∷ [])
      (node, [])
    ≡ poll_rounds env
        (λ a. 4)
        client
        (codes "127.0.0.1:5000")
        ((false, readable (codes "GET a"))
          ∷ (false, readable (codes "da mail\r\n"))
          ∷ (false, hung_up)
          ∷ [])
        (node, [])
poll_rounds-split_example =
    poll_rounds-split env (λ a. 4) client (codes "127.0.0.1:5000") b'G' b'd' (codes "ET a")
      (codes "a mail\r\n") [] node ((false, hung_up) ∷ [])

abbrev primary : Acceptor
primary = record {
  node = record node {
    server = record node.server { net = record node.server.net { is_primary = true } };
  };
  storage_fds = [];
  avail_connections = 0 ∷ 1 ∷ [];
  serving = [];
}

abbrev peer : Text
peer = codes "127.0.0.1:6004"

abbrev result_of : Outcome Acceptor → Acceptor
result_of (ok a) = a
result_of blocked = primary
result_of stopped = primary

abbrev joined : Acceptor
joined = result_of (accept_connection [] (peer ∷ []) true 30 peer primary)

accept_connection-ended_example :
    let net =
      end_connection 30
        (is_stored [] peer || is_replica (peer ∷ []) peer primary.node)
        peer
        joined.node.server.net in
    (net.partition_fds ≡ primary.node.server.net.partition_fds)
    × (net.open_fds ≡ primary.node.server.net.open_fds)
    × (net.alive_replicas ≡ primary.node.server.net.alive_replicas)
unfolding accept_connection contains
accept_connection-ended_example =
    accept_connection-ended [] (peer ∷ []) 30 peer primary joined refl refl refl refl
