-- ===== src/Net.antt =====
-- Writes to sockets: `do_write_backend`, `forward_msg` and `send_queued_messages` of
-- backend/src/utils.cpp. A write to an open socket takes the whole message.
pub mod Reads
use penn_mail_and_penn_drive.Base.{
  ℕ, Bool, false, List, [], ◌∷◌, ◌++◌, Option, none, some, if◌then◌else◌, ◌=?◌, nat_eq,
}
use penn_mail_and_penn_drive.Base.Maps.{contains}
use penn_mail_and_penn_drive.Base.Text.{Text}
use penn_mail_and_penn_drive.Server.{Net}

-- A write to a closed socket fails, and the socket is closed again.
unfoldable pub write : ℕ → Text → Net → Net
write fd msg n = if contains fd n.open_fds then record n { sent = n.sent ++ (fd, msg) ∷ [] } else n

-- A negative descriptor fails in the same way.
unfoldable pub do_write_backend : Option ℕ → Text → Net → Net
unfolding write
do_write_backend none msg n = n
do_write_backend (some fd) msg n = write fd msg n

abbrev is_fd : ℕ → Option ℕ → Bool
is_fd fd none = false
is_fd fd (some g) = fd =? g

forward_to : List ℕ → Text → Net → Net
unfolding do_write_backend
forward_to [] msg n = n
forward_to (fd ∷ fds) msg n =
    forward_to fds msg (if is_fd fd n.primary_fd then n else do_write_backend (some fd) msg n)

-- To every replica; a closed descriptor and the server's own are passed over.
unfoldable pub forward_msg : Text → Net → Net
unfolding forward_to
forward_msg msg n = forward_to n.partition_fds msg n

send_all : List (Option ℕ × Text) → Net → Net
send_all [] n = n
send_all ((fd, msg) ∷ queue) n = send_all queue (do_write_backend fd msg n)

-- The answers that were held back during a checkpoint.
unfoldable pub send_queued_messages : Net → Net
unfolding send_all
send_queued_messages n = record (send_all n.checkpoint_queue n) { checkpoint_queue = [] }
