-- ===== src/Frontend/Messages.antt =====
-- The lines that the front end sends to the coordinator and to storage servers, and what it reads
-- in the coordinator's answer (`frontend/src/message.cc`).
use penn_mail_and_penn_drive.Base.{
  ℕ, ◌%◌, Option, none, some, ◌∷◌, ◌++◌, if◌then◌else◌, nat_eq, list_eq, pair_eq, drop, Outcome, ok,
  stopped, ◌>>=◌,
}
use penn_mail_and_penn_drive.Base.Text.{Text, codes, before, after?, starts_with, find, split, stoi}
use penn_mail_and_penn_drive.Store.{at}
use penn_mail_and_penn_drive.Frontend.Strings.{strip}

abbrev pub line_end : Text
line_end = codes "\r\n"

-- `bend_uk` and `bend_ukv`
unfoldable pub uk_line : Text → Text → Text → Text
uk_line meth u k = meth ++ b' ' ∷ (u ++ b' ' ∷ (k ++ line_end))

unfoldable pub ukv_line : Text → Text → Text → Text → Text
ukv_line meth u k v = meth ++ b' ' ∷ (u ++ b' ' ∷ (k ++ b' ' ∷ (v ++ line_end)))

abbrev pub get_line : Text → Text → Text
get_line = uk_line (codes "GET")

abbrev pub put_line : Text → Text → Text → Text
put_line = ukv_line (codes "PUT")

-- One value, where a storage server wants two.
abbrev pub cput_line : Text → Text → Text → Text
cput_line = ukv_line (codes "CPUT")

abbrev pub delete_line : Text → Text → Text
delete_line = uk_line (codes "DELETE")

-- `greet_bend`
unfoldable pub greet_line : Text → Text
greet_line uuid = codes "HELO passwd " ++ (uuid ++ line_end)

abbrev pub status_line : Text
status_line = codes "GET passwd null null\r\n"

-- A name as the coordinator's status list has it, `partition-IP:port:port:port-ON`, or the name of
-- the server alone.
unfoldable pub server_name : Text → Outcome Text
server_name baddr = elim (after? b'-' baddr) [ none ↦ ok baddr | some _ ↦ at (split b'-' baddr) 1 ]

-- `bend_shutdown` and `bend_restart`
unfoldable pub shutdown_line : Text → Outcome Text
unfolding server_name
shutdown_line baddr = server_name baddr >>= λ name. ok (codes "STOP passwd " ++ (name ++ line_end))

unfoldable pub restart_line : Text → Outcome Text
unfolding server_name
restart_line baddr = server_name baddr >>= λ name. ok (codes "START passwd " ++ (name ++ line_end))

abbrev pub list_line : Text
list_line = codes "GET passwd null\r\n"

-- The address that `bend_listcontent` connects to.
unfoldable pub list_address : Text → Outcome (Text × ℕ)
unfolding server_name
list_address baddr = do
  name ← server_name baddr
  token ← at (split b':' name) 3
  ip ← at (split b':' name) 0
  elim (stoi token) [ none ↦ stopped | some port ↦ ok (ip, port % 65536) ]

-- What `bend_connect` reads in the coordinator's answer: an address and a port, or nothing where
-- the answer is no `+OK`. Blanks are taken out first.
unfoldable pub bend_address : Text → Outcome (Option (Text × ℕ))
unfolding strip
bend_address answer =
    let reply = strip answer in
    let address = strip (drop 3 reply) in
    if starts_with (codes "+OK") reply
    then (elim (after? b':' address) [
      | none ↦ stopped
      | some rest ↦ elim (stoi rest) [
        | none ↦ stopped
        | some port ↦ ok (some (before b':' address, port % 65536))
      ]
    ])
    else ok none

-- `do_read`: the text up to the delimiter, or all of it where the peer ends the connection first.
unfoldable pub cut_at : Text → Text → Text
cut_at delim message = elim (find delim message) [ none ↦ message | some (a, _) ↦ a ]
