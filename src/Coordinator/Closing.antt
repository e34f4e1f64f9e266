-- ===== src/Coordinator/Closing.antt =====
-- Connections that are closed, and the end of the coordinator (backend/coordinator.cpp). `is_open`
-- is what `fcntl` says of a descriptor.
pub mod Swept
use penn_mail_and_penn_drive.Base.{
  ℕ, Bool, true, false, List, [], ◌∷◌, ◌++◌, if◌then◌else◌, nat_eq, length, Outcome, ok, ◌>>=◌,
}
use penn_mail_and_penn_drive.Base.Text.{Text, codes}
use penn_mail_and_penn_drive.Base.Maps.{Map}
use penn_mail_and_penn_drive.Coordinator.{Name, Coordinator, write_fd, handle_server_failure}
use penn_mail_and_penn_drive.Coordinator.Storage.{Connections}

-- The connections for messages that are still open.
unfoldable pub open_comm : (ℕ → Bool) → Map Name ℕ → Map Name ℕ
open_comm is_open [] = []
open_comm is_open ((name, fd) ∷ comm_fd) =
    let rest = open_comm is_open comm_fd in if is_open fd then (name, fd) ∷ rest else rest

-- A server whose heartbeat connection is closed fails. `rand` gives each its numbers.
unfoldable pub fail_closed :
    (ℕ → Bool) → (ℕ → List ℕ) → Connections → Coordinator → Outcome (Connections × Coordinator)
fail_closed is_open rand [] c = ok ([], c)
fail_closed is_open rand ((fd, name) ∷ all_servers) c =
    if is_open fd
    then (fail_closed is_open rand all_servers c >>= λ (rest, d). ok ((fd, name) ∷ rest, d))
    else (handle_server_failure (rand (length all_servers)) name c
        >>= fail_closed is_open rand all_servers)

-- What a round of the storage servers' thread begins with.
unfoldable pub sweep :
    (ℕ → Bool) → (ℕ → List ℕ) → Connections × Coordinator → Outcome (Connections × Coordinator)
unfolding open_comm fail_closed
sweep is_open rand (all_servers, c) =
    fail_closed is_open rand all_servers (record c { comm_fd = open_comm is_open c.comm_fd })

abbrev shutting_down : Text
shutting_down = codes "-ERR Server shutting down\r\n"

unfoldable pub tell_servers : Connections → Coordinator → Coordinator
tell_servers [] c = c
tell_servers ((fd, name) ∷ all_servers) c = tell_servers all_servers (write_fd fd shutting_down c)

unfoldable pub tell_comm : Map Name ℕ → Coordinator → Coordinator
tell_comm [] c = c
tell_comm ((name, fd) ∷ comm_fd) c = tell_comm comm_fd (write_fd fd shutting_down c)

-- Everybody is told, and nobody is paused any longer.
unfoldable pub clean_up_storage_thread : Connections → Coordinator → Coordinator
unfolding tell_servers tell_comm
clean_up_storage_thread all_servers c = record (tell_comm c.comm_fd (tell_servers all_servers c)) {
  paused_servers = [];
}

-- The frontend servers' connections that are still open.
unfoldable pub open_frontends : (ℕ → Bool) → List ℕ → List ℕ
open_frontends is_open [] = []
open_frontends is_open (fd ∷ connections) =
    let rest = open_frontends is_open connections in if is_open fd then fd ∷ rest else rest

-- A new one is greeted, and comes last.
unfoldable pub frontend_connection : ℕ → List ℕ × Coordinator → List ℕ × Coordinator
frontend_connection connfd (connections, c) =
    (connections ++ connfd ∷ [], write_fd connfd (codes "+OK Server ready\r\n") c)
