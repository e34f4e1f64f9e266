-- ===== src/Frontend/Slots.antt =====
-- The places that connections have: `fds` of frontend/src/ioutils.cc with the loop of
-- frontend/fserver.cc, and `open_fds` of frontend/smtp_server.cc with its `main`. A place that is
-- free is `none`. What is written goes to `sent`.
pub mod Laws
use penn_mail_and_penn_drive.Base.{
  ℕ, zero, suc, ◌+◌, Bool, true, false, Option, none, some, List, [], ◌∷◌, ◌++◌, ltb, if◌then◌else◌,
  ◌==◌, Outcome, ok, blocked, map,
}
use penn_mail_and_penn_drive.Base.Text.{Text, codes, before}

pub record Slots : Type 0 where
  pub fds : List (Option ℕ)
  pub sent : List (ℕ × Text)

-- The first free place.
unfoldable pub find_open_fd_idx : List (Option ℕ) → Option ℕ
find_open_fd_idx [] = none
find_open_fd_idx (none ∷ fds) = some 0
find_open_fd_idx (some fd ∷ fds) = elim (find_open_fd_idx fds) [
  | none ↦ none
  | some i ↦ some (suc i)
]

-- `fds[i] = fd`
unfoldable pub put_fd : ℕ → Option ℕ → List (Option ℕ) → List (Option ℕ)
put_fd i fd [] = []
put_fd zero fd (x ∷ fds) = fd ∷ fds
put_fd (suc i) fd (x ∷ fds) = x ∷ put_fd i fd fds

-- `fds[i]`
unfoldable pub fd_at : ℕ → List (Option ℕ) → Option ℕ
fd_at i [] = none
fd_at zero (x ∷ fds) = x
fd_at (suc i) (x ∷ fds) = fd_at i fds

-- The next client, whose descriptor `accept` gives. Without a free place the loop looks again.
unfoldable pub accept_client : Option ℕ → Slots → Outcome (ℕ × Slots)
unfolding find_open_fd_idx put_fd
accept_client fd s = elim (find_open_fd_idx s.fds) [
  | none ↦ blocked
  | some i ↦ ok (i, record s { fds = put_fd i fd s.fds })
]

abbrev shutting_down : Text
shutting_down = codes "-ERR Server shutting down\r\n"

abbrev pub tell : Option ℕ → Text → List (ℕ × Text) → List (ℕ × Text)
tell none msg sent = sent
tell (some fd) msg sent = sent ++ (fd, msg) ∷ []

unfoldable pub cleanup : ℕ → Bool → Slots → Slots
unfolding put_fd fd_at
cleanup i dirty s = record {
  fds = put_fd i none s.fds;
  sent = if dirty then tell (fd_at i s.fds) shutting_down s.sent else s.sent;
}

-- The places from `i` on, `n` of them.
unfoldable pub cleanup_all : ℕ → ℕ → Slots → Slots
unfolding cleanup fd_at
cleanup_all zero i s = s
cleanup_all (suc n) i s =
    cleanup_all n (i + 1) (elim (fd_at i s.fds) [ none ↦ s | some fd ↦ cleanup i true s ])

-- SIGINT: every client is told, and its connection closed.
unfoldable pub sighandler : Slots → Slots
unfolding cleanup_all
sighandler s = cleanup_all (count s.fds) 0 s
  where
    count : List (Option ℕ) → ℕ
    count [] = 0
    count (x ∷ fds) = count fds + 1

-- The mail server: a client beyond the last place is served without one. `main` waits only while
-- there are more than `max_connections` clients.
unfoldable pub record_fd : ℕ → List (Option ℕ) → List (Option ℕ)
unfolding find_open_fd_idx put_fd
record_fd fd open_fds = elim (find_open_fd_idx open_fds) [
  | none ↦ open_fds
  | some i ↦ put_fd i (some fd) open_fds
]

unfoldable pub accept_mail_client : ℕ → ℕ → List (Option ℕ) × ℕ → Outcome (List (Option ℕ) × ℕ)
unfolding record_fd
accept_mail_client max_connections fd (open_fds, open_connections) =
    if ltb max_connections open_connections
    then blocked
    else ok (record_fd fd open_fds, open_connections + 1)

-- The end of a mail client's thread: the first place with its descriptor is free again.
unfoldable pub forget_fd : ℕ → List (Option ℕ) → List (Option ℕ)
forget_fd fd [] = []
forget_fd fd (none ∷ open_fds) = none ∷ forget_fd fd open_fds
forget_fd fd (some g ∷ open_fds) =
    let rest = forget_fd fd open_fds in if g == fd then none ∷ open_fds else some g ∷ rest

-- SIGINT at the mail server.
unfoldable pub sigint_handler : List (Option ℕ) → List (ℕ × Text) → List (ℕ × Text)
sigint_handler [] sent = sent
sigint_handler (fd ∷ open_fds) sent =
    sigint_handler open_fds (
      tell fd (codes "421 <localhost> Service not available, closing transmission channel\r\n")
        sent)
