-- ===== src/Threads/Accepts.antt =====
-- The connections that `main` of backend/table.cpp accepts, and `shut_down_func`.
pub mod Ends
use penn_mail_and_penn_drive.Base.{
  ℕ, Bool, true, false, not, ◌&&◌, ◌||◌, Option, none, some, List, [], ◌∷◌, ◌++◌, if◌then◌else◌,
  ◌=?◌, nat_eq, list_eq, Outcome, ok, blocked, stopped, ◌>>=◌,
}
use penn_mail_and_penn_drive.Base.Maps.{contains, add, remove}
use penn_mail_and_penn_drive.Base.Text.{Text, codes}
use penn_mail_and_penn_drive.Server.{Net, Server}
use penn_mail_and_penn_drive.Net.{write}
use penn_mail_and_penn_drive.Dispatch.{Node, Connection, on_server}

-- The server, the connections from other storage servers, the places that are free and the threads
-- that serve a connection, with their place and the peer's address.
pub record Acceptor : Type 0 where
  pub node : Node
  pub storage_fds : List ℕ
  pub avail_connections : List ℕ
  pub serving : List (ℕ × Connection × Text)

-- Another storage server, by the address that the servers' file names.
abbrev pub is_stored : List Text → Text → Bool
is_stored forward_addresses addr = contains addr forward_addresses

-- A replica that connects to the primary.
abbrev pub is_replica : List Text → Text → Node → Bool
is_replica part_addresses addr n = contains addr part_addresses && n.server.net.is_primary

abbrev pub with_net : Node → Net → Node
with_net n net = on_server n (record n.server { net = net })

-- What is noted of a new connection.
unfoldable pub note_connection : Bool → Bool → ℕ → Text → Node → Node
note_connection stored replica connfd addr n =
    let net = n.server.net in
    with_net
      (record n {
        frontend_fds = if stored || replica then n.frontend_fds else add connfd n.frontend_fds;
      })
      (record net {
        primary_fd = if addr =? n.primary_addr then some connfd else net.primary_fd;
        open_fds = add connfd net.open_fds;
        partition_fds = if replica then net.partition_fds ++ connfd ∷ [] else net.partition_fds;
        alive_replicas = if replica then add addr net.alive_replicas else net.alive_replicas;
      })

-- `pop_back`, which is undefined for an empty vector.
unfoldable pub pop_back : List ℕ → Outcome (List ℕ)
pop_back [] = stopped
pop_back (x ∷ []) = ok []
pop_back (x ∷ y ∷ l) = pop_back (y ∷ l) >>= λ r. ok (x ∷ r)

-- No thread could be made. The last descriptors are dropped, whether this connection put them in or
-- not, and a replica stays noted.
unfoldable pub not_created : ℕ → Bool → ℕ → Acceptor → Outcome Acceptor
unfolding pop_back
not_created connfd backend_conn msg_id a =
    let net = a.node.server.net in
    let closed = record net { open_fds = remove connfd net.open_fds } in
    let free = a.avail_connections ++ msg_id ∷ [] in
    if backend_conn
    then (pop_back a.storage_fds >>= λ storage_fds. pop_back net.partition_fds >>= λ partition_fds.
        ok (record a {
          node = with_net a.node (record closed { partition_fds = partition_fds });
          storage_fds = storage_fds;
          avail_connections = free;
        }))
    else ok (record a {
      node = with_net (record a.node { frontend_fds = remove connfd a.node.frontend_fds }) closed;
      avail_connections = free;
    })

-- A connection from `addr`; `created` says whether a thread could be made. Without a free place
-- `main` waits.
unfoldable pub accept_connection :
    List Text → List Text → Bool → ℕ → Text → Acceptor → Outcome Acceptor
unfolding note_connection not_created
accept_connection forward_addresses part_addresses created connfd addr a =
    elim a.avail_connections as (λ _. Outcome Acceptor) [
      | [] ↦ blocked
      | msg_id ∷ free ↦
          let stored = is_stored forward_addresses addr in
          let replica = is_replica part_addresses addr a.node in
          let noted = record a {
            node = note_connection stored replica connfd addr a.node;
            storage_fds = if stored then a.storage_fds ++ connfd ∷ [] else a.storage_fds;
            avail_connections = free;
          } in
          if created
          then ok (record noted {
            serving =
                a.serving
                ++ (
                  msg_id,
                  record { connfd = connfd; coord_conn = false; backend_conn = stored || replica },
                  addr,
                )
                  ∷ [];
          })
          else not_created connfd (stored || replica) msg_id noted
    ]

unfoldable pub tell_all : List ℕ → Text → Net → Net
unfolding write
tell_all [] msg net = net
tell_all (fd ∷ fds) msg net = tell_all fds msg (write fd msg net)

-- Every connection is told and closed; what waited is dropped.
unfoldable pub shut_down_func : Server → Server
unfolding tell_all
shut_down_func s =
    let net = tell_all s.net.open_fds (codes "-ERR Server shutting down\r\n") s.net in
    record s {
      net = record net { open_fds = []; msg_queue = [] };
      store = record s.store { row_locks = [] };
    }
