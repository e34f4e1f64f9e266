-- ===== src/Coordinator.antt =====
-- backend/coordinator.cpp: the coordinator, which knows the storage servers, chooses the primary of
-- each partition and pauses servers. A server is named `IP:port:port:port`. Both threads' functions
-- run without a break.
pub mod Choice
pub mod Primary
pub mod Requests
pub mod Storage
pub mod Silence
pub mod Arrivals
pub mod Closing
use penn_mail_and_penn_drive.Base.{
  ℕ, zero, suc, ◌+◌, ◌%◌, Bool, true, false, not, ◌&&◌, List, [], ◌∷◌, ◌++◌, Option, none, some,
  ltb, ◌==◌, length, get_elem?, if◌then◌else◌, ◌=?◌, nat_eq, list_eq, Outcome, ok, blocked, stopped,
  ◌>>=◌,
}
use penn_mail_and_penn_drive.Base.Maps.{Map, lookup, insert, erase, has, contains, add, remove}
use penn_mail_and_penn_drive.Base.Text.{Text, codes, split, to_string}
use penn_mail_and_penn_drive.Command.{space}
use penn_mail_and_penn_drive.Store.{at}

abbrev pub Name : Type 0
Name = Text

-- The globals. `sent` is what was written to sockets.
pub record Coordinator : Type 0 where
  pub server_heartbeat : Map Name ℕ
  pub partition_info : Map Name ℕ
  pub server_info : Map Text Name
  pub comm_fd : Map Name ℕ
  pub primary_server : Map ℕ Name
  pub alive_servers : Map ℕ (List Name)
  pub paused_servers : Map ℕ (List Name)
  pub paused_servers_frontend_fd : Map Name ℕ
  pub sent : List (ℕ × Text)

-- `m[k]` for a set: a missing one is empty.
abbrev pub set_at : ℕ → Map ℕ (List Name) → List Name
set_at p m = elim (lookup p m) [ none ↦ [] | some l ↦ l ]

-- `m[k]` for a number: a missing one is 0, and is put in.
abbrev pub number_at : Text → Map Text ℕ → ℕ
number_at k m = elim (lookup k m) [ none ↦ 0 | some n ↦ n ]

abbrev pub touch_number : Text → Map Text ℕ → Map Text ℕ
touch_number k m = elim (lookup k m) [ none ↦ insert k 0 m | some n ↦ m ]

-- `primary_server[partition]`: a missing name is empty, and is put in.
abbrev pub primary_at : ℕ → Map ℕ Name → Name
primary_at p m = elim (lookup p m) [ none ↦ [] | some s ↦ s ]

abbrev pub touch_primary : ℕ → Map ℕ Name → Map ℕ Name
touch_primary p m = elim (lookup p m) [ none ↦ insert p [] m | some s ↦ m ]

-- `while (… back() == '\r' || … back() == '\n') pop_back();`
unfoldable pub trim_line_end : Text → Text
trim_line_end [] = []
trim_line_end (x ∷ s) = elim (trim_line_end s) [
  | [] ↦ if x == 13 then [] else if x == 10 then [] else x ∷ []
  | y ∷ r ↦ x ∷ y ∷ r
]

abbrev pub write_fd : ℕ → Text → Coordinator → Coordinator
write_fd fd msg c = record c { sent = c.sent ++ (fd, msg) ∷ [] }

-- The loop: the numbers that `rand` gives, until one names a server that is not paused. The source
-- goes on as long as it takes; `none` says that the numbers given are all of paused servers.
unfoldable pub pick : List ℕ → List Name → List Name → Option Name
pick [] servers paused = none
pick (random ∷ more) servers paused =
    let next = pick more servers paused in
    elim (get_elem? servers (random % length servers)) [
      | none ↦ next
      | some chosen ↦ if contains chosen paused then next else some chosen
    ]

-- An empty name, here `none`, where no server can be chosen.
unfoldable pub choose_random_server : List ℕ → ℕ → Coordinator → Outcome (Option Name)
choose_random_server rand partition c = elim (lookup partition c.alive_servers) [
  | none ↦ ok none
  | some servers ↦
      let paused = set_at partition c.paused_servers in
      if length servers == 0
      then ok none
      else if length servers == length paused
      then ok none
      else elim (pick rand servers paused) [ none ↦ blocked | some s ↦ ok (some s) ]
]

-- `+OK PRIMARY IP:port count`
unfoldable pub primary_message : Name → ℕ → Outcome Text
primary_message primary count = do
  ip ← at (split b':' primary) 0
  port ← at (split b':' primary) 3
  ok (codes "+OK PRIMARY " ++ (ip ++ b':' ∷ (port ++ space ∷ (to_string count ++ codes "\r\n"))))

unfoldable pub send_to_all : List Name → Text → Coordinator → Coordinator
send_to_all [] msg c = c
send_to_all (s ∷ servers) msg c =
    send_to_all servers msg
      (write_fd (number_at s c.comm_fd) msg (record c { comm_fd = touch_number s c.comm_fd }))

-- The new primary is noted, and told to every server of the partition that is alive.
unfoldable pub announce : ℕ → Name → Coordinator → Outcome Coordinator
announce partition new_primary c = do
  let servers = set_at partition c.alive_servers
  msg ← primary_message new_primary (length servers)
  ok (
      send_to_all servers msg
        (record c { primary_server = insert partition new_primary c.primary_server }))

abbrev pub forget_server : ℕ → Name → Coordinator → Coordinator
forget_server partition name c = record c {
  comm_fd = erase name c.comm_fd;
  alive_servers = insert partition (remove name (set_at partition c.alive_servers)) c.alive_servers;
  server_heartbeat = erase name c.server_heartbeat;
}

-- A primary that is gone is replaced, unless no server of its partition can be chosen.
unfoldable pub replace_failed : ℕ → Option Name → Coordinator → Outcome Coordinator
replace_failed partition none c = ok (record c {
  alive_servers = erase partition c.alive_servers;
  primary_server = erase partition c.primary_server;
})
replace_failed partition (some s) c = announce partition s c

-- It is called for servers that `partition_info` holds.
unfoldable pub handle_server_failure : List ℕ → Name → Coordinator → Outcome Coordinator
unfolding replace_failed
handle_server_failure rand name c =
    let partition = number_at name c.partition_info in
    let d = forget_server partition name c in
    let e = record d { primary_server = touch_primary partition d.primary_server } in
    if primary_at partition d.primary_server =? name
    then (do chosen ← choose_random_server rand partition e; replace_failed partition chosen e)
    else ok e

-- A server without a replacement leaves the partition without a primary.
unfoldable pub replace_paused : ℕ → Option Name → Coordinator → Outcome Coordinator
replace_paused partition none c =
    ok (record c { primary_server = erase partition c.primary_server })
replace_paused partition (some s) c = announce partition s c

-- `STOP passwd name` from a frontend server on `fd`.
unfoldable pub pause : List ℕ → ℕ → Name → ℕ → Coordinator → Outcome Coordinator
unfolding replace_paused
pause rand fd name partition c =
    let d = write_fd (number_at name c.comm_fd) (codes "STOP\r\n") (record c {
      paused_servers =
          insert partition (add name (set_at partition c.paused_servers)) c.paused_servers;
      paused_servers_frontend_fd = insert name fd c.paused_servers_frontend_fd;
      comm_fd = touch_number name c.comm_fd;
      primary_server = touch_primary partition c.primary_server;
    }) in
    if name =? primary_at partition c.primary_server
    then (do chosen ← choose_random_server rand partition d; replace_paused partition chosen d)
    else ok d

unfoldable pub stop_request : List ℕ → ℕ → List Text → Coordinator → Outcome Coordinator
unfolding pause
stop_request rand fd (word ∷ passwd ∷ text ∷ []) c =
    elim (lookup (trim_line_end text) c.partition_info) [
      | none ↦ ok (write_fd fd (codes "-ERR Cannot identify server\r\n") c)
      | some partition ↦
          if contains (trim_line_end text) (set_at partition c.paused_servers)
          then ok (write_fd fd (codes "-ERR Server is already paused\r\n") c)
          else pause rand fd (trim_line_end text) partition c
    ]
stop_request rand fd _ c = ok (write_fd fd (codes "-ERR Invalid request\r\n") c)

-- `START passwd name`
unfoldable pub resume : List ℕ → Name → ℕ → Coordinator → Outcome Coordinator
unfolding replace_paused
resume rand name partition c =
    let d = record c {
      paused_servers =
          insert partition (remove name (set_at partition c.paused_servers)) c.paused_servers;
      paused_servers_frontend_fd = erase name c.paused_servers_frontend_fd;
    } in
    if has partition d.primary_server
    then ok d
    else (do chosen ← choose_random_server rand partition d; replace_paused partition chosen d)

unfoldable pub start_request : List ℕ → ℕ → List Text → Coordinator → Outcome Coordinator
unfolding resume
start_request rand fd (word ∷ passwd ∷ text ∷ []) c =
    elim (lookup (trim_line_end text) c.partition_info) [
      | none ↦ ok (write_fd fd (codes "-ERR Cannot identify server\r\n") c)
      | some partition ↦
          if contains (trim_line_end text) (set_at partition c.paused_servers)
          then (do
            d ← resume rand (trim_line_end text) partition c
            ok (write_fd fd (codes "+OK Server resumed\r\n") d))
          else ok (write_fd fd (codes "-ERR Server is already running\r\n") c)
    ]
start_request rand fd _ c = ok (write_fd fd (codes "-ERR Invalid request\r\n") c)
