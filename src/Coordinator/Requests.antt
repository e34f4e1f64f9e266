-- ===== src/Coordinator/Requests.antt =====
-- backend/coordinator.cpp: the lines of frontend servers, and `get_partition` of
-- backend/src/utils.cpp.
use penn_mail_and_penn_drive.Base.{
  ℕ, ◌+◌, ◌-◌, ◌%◌, Bool, true, false, not, ◌&&◌, ◌||◌, Option, none, some, List, [], ◌∷◌, ◌++◌,
  ltb, leb, ◌==◌, if◌then◌else◌, ◌=?◌, nat_eq, list_eq, pair_eq, length, take, Outcome, ok, ◌>>=◌,
}
use penn_mail_and_penn_drive.Base.Text.{Text, codes, has_text, split, to_string}
use penn_mail_and_penn_drive.Base.Maps.{Map, lookup, insert, contains}
use penn_mail_and_penn_drive.Store.{at}
use penn_mail_and_penn_drive.Coordinator.{
  Name, Coordinator, set_at, write_fd, choose_random_server, stop_request, start_request,
}

abbrev lower : ℕ → ℕ
lower c = if leb b'A' c && leb c b'Z' then c + 32 else c

-- The partition of an email. `PARTITION_COUNT`, here `count`, comes from the configuration and is at
-- least 1. `none` is -1. A byte from 128 on is a negative character with a negative remainder; a
-- partition below -1 is one that no server has, as is 0.
unfoldable pub get_partition : ℕ → Text → Option ℕ
get_partition count [] = none
get_partition count (x ∷ email) =
    if ltb x 128
    then some (lower x % count + 1)
    else if (256 - x) % count == 2
    then none
    else some (1 - (256 - x) % count)

-- The answer names the address and the listening port of the server that was chosen.
unfoldable pub server_reply : Option Name → Outcome Text
server_reply none = ok (codes "-ERR No available servers\r\n")
server_reply (some chosen) = do
  ip ← at (split b':' chosen) 0
  port ← at (split b':' chosen) 3
  ok (codes "+OK " ++ (ip ++ b':' ∷ (port ++ codes "\r\n")))

-- `HELO passwd user_email`; `tokens.at(2)` throws where there is no third token.
unfoldable pub helo_request : ℕ → List ℕ → ℕ → Text → Coordinator → Outcome Coordinator
unfolding get_partition server_reply
helo_request count rand fd message c = do
  user_email ← at (split b' ' message) 2
  elim (get_partition count user_email) [
    | none ↦ ok (write_fd fd (codes "-ERR Invalid user email\r\n") c)
    | some partition ↦ choose_random_server rand partition c >>= λ chosen.
        server_reply chosen >>= λ reply. ok (write_fd fd reply c)
  ]

-- `alive_servers[partition]` puts in an empty set where there is none.
abbrev pub touch_set : ℕ → Map ℕ (List Name) → Map ℕ (List Name)
touch_set p m = elim (lookup p m) [ none ↦ insert p [] m | some l ↦ m ]

abbrev pub status_text : Bool → Text
status_text true = codes "ON"
status_text false = codes "OFF"

unfoldable pub is_on : Name → ℕ → Coordinator → Bool
is_on name partition c =
    contains name (set_at partition c.alive_servers)
    && not (contains name (set_at partition c.paused_servers))

abbrev pub server_entry : Name → ℕ → Coordinator → Text
server_entry name partition c =
    to_string partition ++ b'-' ∷ (name ++ b'-' ∷ status_text (is_on name partition c))

-- The entries of the servers, a blank behind each.
unfoldable pub status_entries : Map Name ℕ → Coordinator → Text
unfolding is_on
status_entries [] c = []
status_entries ((name, partition) ∷ servers) c =
    server_entry name partition c ++ b' ' ∷ status_entries servers c

unfoldable pub touch_sets : Map Name ℕ → Coordinator → Coordinator
touch_sets [] c = c
touch_sets ((name, partition) ∷ servers) c =
    touch_sets servers (record c { alive_servers = touch_set partition c.alive_servers })

-- `GET passwd null null`: the last blank is cut off, also that of `+OK ` where there is no server.
unfoldable pub status_request : ℕ → Coordinator → Coordinator
unfolding status_entries touch_sets
status_request fd c =
    let response = codes "+OK " ++ status_entries c.partition_info c in
    write_fd fd (take (length response - 1) response ++ codes "\r\n")
      (touch_sets c.partition_info c)

-- A line of a frontend server, or `CLOSED` or `ERROR`, after which the socket is closed.
unfoldable pub frontend_message : ℕ → List ℕ → ℕ → Text → Coordinator → Outcome Coordinator
unfolding helo_request status_request
frontend_message count rand fd message c =
    if (message =? codes "CLOSED") || (message =? codes "ERROR")
    then ok c
    else if has_text (codes "HELO passwd") message
    then helo_request count rand fd message c
    else if has_text (codes "GET passwd null null") message
    then ok (status_request fd c)
    else if has_text (codes "STOP passwd") message
    then stop_request rand fd (split b' ' message) c
    else if has_text (codes "START passwd") message
    then start_request rand fd (split b' ' message) c
    else ok (write_fd fd (codes "-ERR Invalid request\r\n") c)
