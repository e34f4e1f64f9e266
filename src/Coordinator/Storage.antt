-- ===== src/Coordinator/Storage.antt =====
-- backend/coordinator.cpp: the connections and messages of storage servers. The set `all_servers`
-- of heartbeat connections stands beside the coordinator's other state.
use penn_mail_and_penn_drive.Base.{
  ℕ, ◌+◌, Bool, false, ◌&&◌, ◌||◌, none, some, List, [], ◌∷◌, ◌++◌, ltb, ◌==◌, if◌then◌else◌, ◌=?◌,
  nat_eq, list_eq, pair_eq, length, Outcome, ok, stopped, ◌>>=◌,
}
use penn_mail_and_penn_drive.Base.Text.{Text, codes, has_text, split, to_string, stoi}
use penn_mail_and_penn_drive.Base.Maps.{Map, lookup, insert, has, contains, add}
use penn_mail_and_penn_drive.Store.{at}
use penn_mail_and_penn_drive.Coordinator.{
  Name, Coordinator, set_at, number_at, touch_number, write_fd, choose_random_server,
  primary_message, handle_server_failure,
}
use penn_mail_and_penn_drive.Coordinator.Requests.{touch_set}

abbrev pub Connections : Type 0
Connections = List (ℕ × Name)

-- A partition without a primary gets one, or the empty name.
unfoldable pub choose_first_primary : List ℕ → ℕ → Coordinator → Outcome Coordinator
choose_first_primary rand partition c =
    if has partition c.primary_server
    then ok c
    else choose_random_server rand partition c >>= λ chosen. ok (record c {
      primary_server = insert partition (elim chosen [ none ↦ [] | some s ↦ s ]) c.primary_server;
    })

-- The server `name` connects from the address `ip_port`, at the time `now`. The time is noted under
-- the address, while it is looked up under the server's name later.
unfoldable pub connect_server :
    List ℕ → ℕ → Text → ℕ → Name → Connections × Coordinator → Outcome (Connections × Coordinator)
unfolding choose_first_primary
connect_server rand fd ip_port now name (all_servers, c) =
    let partition = number_at name c.partition_info in
    let alive = set_at partition c.alive_servers in
    let d = record c {
      server_heartbeat = insert ip_port now c.server_heartbeat;
      partition_info = touch_number name c.partition_info;
      alive_servers = insert partition (add name alive) c.alive_servers;
    } in
    if contains name alive
    then ok (add (fd, name) all_servers, d)
    else (choose_first_primary rand partition d >>= λ e. ok (add (fd, name) all_servers, e))

-- A heartbeat connection; a server that the configuration does not know is turned away.
unfoldable pub heartbeat_connection :
    List ℕ → ℕ → Text → ℕ → Connections × Coordinator → Outcome (Connections × Coordinator)
unfolding connect_server
heartbeat_connection rand fd ip_port now (all_servers, c) = elim (lookup ip_port c.server_info) [
  | none ↦ ok (all_servers, c)
  | some name ↦ connect_server rand fd ip_port now name (all_servers, c)
]

abbrev name_at : Text → Map Text Name → Name
name_at k m = elim (lookup k m) [ none ↦ [] | some s ↦ s ]

abbrev touch_name : Text → Map Text Name → Map Text Name
touch_name k m = elim (lookup k m) [ none ↦ insert k [] m | some s ↦ m ]

-- A connection for messages: its server is told the primary of its partition.
unfoldable pub comm_connection : ℕ → Text → Coordinator → Outcome Coordinator
comm_connection fd ip_port c =
    let name = name_at ip_port c.server_info in
    let partition = number_at name c.partition_info in
    let d = record c {
      server_info = touch_name ip_port c.server_info;
      comm_fd = insert name fd c.comm_fd;
      partition_info = touch_number name c.partition_info;
    } in
    elim (lookup partition c.primary_server) [
      | none ↦ ok (write_fd fd (codes "-ERR No primary server available\r\n") d)
      | some primary ↦
          primary_message primary (length (set_at partition c.alive_servers)) >>= λ response.
          ok (
            write_fd fd response (record d { alive_servers = touch_set partition c.alive_servers }))
    ]

unfoldable pub drop_connection : ℕ → Name → Connections → Connections
drop_connection fd name [] = []
drop_connection fd name ((g, s) ∷ all_servers) =
    let rest = drop_connection fd name all_servers in
    if (fd == g) && (name =? s) then rest else (g, s) ∷ rest

-- A line on a heartbeat connection, or its end.
unfoldable pub heartbeat_message :
    List ℕ → ℕ → Name → Text → ℕ → Connections × Coordinator → Outcome (Connections × Coordinator)
unfolding drop_connection
heartbeat_message rand fd name message now (all_servers, c) =
    if (message =? codes "CLOSED") || (message =? codes "ERROR")
    then (handle_server_failure rand name c >>= λ d. ok (drop_connection fd name all_servers, d))
    else if message =? codes "HEARTBEAT"
    then ok (all_servers, record c { server_heartbeat = insert name now c.server_heartbeat })
    else ok (all_servers, c)

-- `now - server_heartbeat[ip_port] > HEARTBEAT_THRESHOLD`, where the server has a heartbeat
unfoldable pub has_expired : ℕ → Name → Map Name ℕ → Bool
has_expired now name server_heartbeat = elim (lookup name server_heartbeat) [
  | none ↦ false
  | some last ↦ ltb (last + 3) now
]

-- The servers that are silent for too long fail, one after another; `rand` gives each its numbers.
unfoldable pub check_heartbeats :
    (ℕ → List ℕ) → ℕ → Connections → Coordinator → Outcome (Connections × Coordinator)
unfolding has_expired
check_heartbeats rand now [] c = ok ([], c)
check_heartbeats rand now ((fd, name) ∷ all_servers) c =
    if has_expired now name c.server_heartbeat
    then (handle_server_failure (rand (length all_servers)) name c
        >>= check_heartbeats rand now all_servers)
    else (check_heartbeats rand now all_servers c >>= λ (rest, d). ok ((fd, name) ∷ rest, d))

-- A line of a storage server on its connection for messages: it has paused, or asks how many
-- servers of a partition are alive.
unfoldable pub comm_message : ℕ → Name → Text → Coordinator → Outcome Coordinator
comm_message fd name message c =
    if has_text (codes "ACK") message
    then ok (
        write_fd (number_at name c.paused_servers_frontend_fd) (codes "+OK Server paused\r\n")
          (record c {
            paused_servers_frontend_fd = touch_number name c.paused_servers_frontend_fd;
          }))
    else if has_text (codes "REPLICA COUNT") message
    then (at (split b' ' message) 2 >>= λ token. elim (stoi token) [
      | none ↦ stopped
      | some partition ↦ ok (
          write_fd fd
            (codes "REPLICA COUNT "
              ++ (to_string (length (set_at partition c.alive_servers)) ++ codes "\r\n"))
            (record c { alive_servers = touch_set partition c.alive_servers }))
    ])
    else ok c
