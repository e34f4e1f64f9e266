-- ===== src/Membership.antt =====
-- The HTTP servers that the load balancer knows (frontend/src/membership.cc and
-- frontend/loadbalancer.cc).
pub mod Redirects
use penn_mail_and_penn_drive.Base.{
  ℕ, zero, suc, ◌+◌, ◌-◌, ◌*◌, ◌/◌, ◌%◌, ◌≤◌, ◌<◌, ◌≡◌, refl, sym, ap, ◌∙◌, subst, ◌≢◌, ◌↔◌, ◌⊎◌,
  inl, inr, Bool, true, false, not, ◌&&◌, ◌||◌, Option, none, some, List, [], ◌∷◌, ◌++◌, map,
  append_assoc, append-nil, arith, ltb, leb, ◌==◌, if◌then◌else◌, ==_iff, Bool-cases, Option-cases,
  Eq, ◌=?◌, nat_eq, list_eq, pair_eq, beq_refl, length, get_elem?, take, drop, length-append,
  drop-append, drop-length, take-append, All, All-append, Outcome, ok, blocked, stopped, ◌>>=◌,
  ◌>>◌, >>=-result, ok-injective, blocked-ne-ok,
}
use penn_mail_and_penn_drive.Base.Text.{
  Text, codes, Lacks, before, after?, after, before_last?, before_last, after_last, starts_with,
  find, has_text, tokens, split, is_digit, is_space, trim_end, to_string, value, atoi, stoi,
}

-- `HTTPServer`
pub record HttpServer : Type 0 where
  pub ipaddr : Text
  pub port : ℕ
  pub last_heartbeat : ℕ
  pub num_connections : ℕ

-- A `sockaddr_in`: the address as a number, 0 for `INADDR_ANY`, and the port.
pub record Source : Type 0 where
  pub s_addr : ℕ
  pub sin_port : ℕ

-- The constructor. `inet_pton` is called with its arguments exchanged and copies no text, so a
-- server with an address has the text that stood in its memory before, here `memory`.
unfoldable pub new_server : Text → ℕ → Source → HttpServer
new_server memory now src = record {
  ipaddr = if src.s_addr == 0 then codes "127.0.0.1" else memory;
  port = src.sin_port;
  last_heartbeat = now;
  num_connections = 0;
}

-- `HBTIMEOUT` is 12.
unfoldable pub is_alive : ℕ → HttpServer → Bool
is_alive now s = leb now (s.last_heartbeat + 12)

-- The text that is compared with `ipaddr` stays empty, for the same reason.
unfoldable pub matches : Source → HttpServer → Bool
matches src s =
    if not (src.s_addr == 0) && not (s.ipaddr =? []) then false else s.port == src.sin_port

-- An unsigned counter with its bounds.
unfoldable pub incload : HttpServer → Outcome HttpServer
incload s =
    if leb 4294967295 s.num_connections
    then stopped
    else ok (record s { num_connections = suc s.num_connections })

unfoldable pub decload : HttpServer → Outcome HttpServer
decload s = elim s.num_connections [
  | zero ↦ stopped
  | suc n ↦ ok (record s { num_connections = n })
]

abbrev pub heartbeat_word : Text
heartbeat_word = codes "HTBTG"

abbrev pub inc_word : Text
inc_word = codes "HBINC"

abbrev pub dec_word : Text
dec_word = codes "HBDEC"

-- The text behind the word and the secret, if the message has them. Only behind the first word a
-- blank follows the secret in the pattern.
unfoldable pub server_part : Text → Text → Option Text
server_part secret msg =
    let beat = heartbeat_word ++ b' ' ∷ (secret ++ b' ' ∷ []) in
    let inc = inc_word ++ b' ' ∷ secret in
    let dec = dec_word ++ b' ' ∷ secret in
    if starts_with beat msg
    then some (drop (length beat) msg)
    else if starts_with inc msg
    then some (drop (length inc) msg)
    else if starts_with dec msg
    then some (drop (length dec) msg)
    else none

-- `is_server`: `none` where it says no. `inet_pton`, here `parse_ip`, changes the address only if
-- the text is one. A port of 0 ends the process.
unfoldable pub is_server : (Text → Option ℕ) → Text → Text → Source → Outcome (Option Source)
unfolding server_part
is_server parse_ip secret msg src = elim (server_part secret msg) [
  | none ↦ ok none
  | some ip ↦
      let port = atoi (after b':' ip) % 65536 in
      if port == 0
      then stopped
      else ok (
          some (record {
            s_addr = elim (parse_ip (before b':' ip)) [ none ↦ src.s_addr | some a ↦ a ];
            sin_port = port;
          }))
]

-- What the message does to the server that it comes from.
unfoldable pub update_server : ℕ → Text → HttpServer → Outcome HttpServer
unfolding incload decload
update_server now msg s =
    if starts_with inc_word msg
    then incload s
    else if starts_with dec_word msg
    then decload s
    else ok (record s { last_heartbeat = now })

-- The first server that matches is changed; a heartbeat of another one adds it.
unfoldable pub update_servers :
    Text → ℕ → Text → Source → List HttpServer → Outcome (List HttpServer)
unfolding new_server matches update_server
update_servers memory now msg src [] =
    if starts_with heartbeat_word msg then ok (new_server memory now src ∷ []) else stopped
update_servers memory now msg src (s ∷ servers) =
    let rest = update_servers memory now msg src servers in
    if matches src s
    then (update_server now msg s >>= λ r. ok (r ∷ servers))
    else (rest >>= λ r. ok (s ∷ r))

-- `if (msg.back() == c) msg.pop_back();`
unfoldable pub drop_end : ℕ → Text → Text
drop_end c [] = []
drop_end c (x ∷ []) = if x == c then [] else x ∷ []
drop_end c (x ∷ y ∷ s) = x ∷ drop_end c (y ∷ s)

-- A datagram from `src`; a sender that is no server ends the process.
unfoldable pub handle_fserver_state :
    (Text → Option ℕ)
    → Text
    → ℕ
    → Text
    → Text
    → Source
    → List HttpServer
    → Outcome (List HttpServer)
unfolding drop_end is_server update_servers
handle_fserver_state parse_ip memory now secret buf src servers =
    let msg = drop_end 13 (drop_end 10 buf) in
    is_server parse_ip secret msg src >>= λ found. elim found [
      | none ↦ stopped
      | some from ↦ update_servers memory now msg from servers
    ]

-- The search from `counter` on, which has 64 bits, through `n` places.
unfoldable pub first_alive : ℕ → ℕ → ℕ → List HttpServer → Option HttpServer
unfolding is_alive
first_alive zero counter now servers = none
first_alive (suc n) counter now servers =
    let next = first_alive n ((counter + 1) % 18446744073709551616) now servers in
    elim (get_elem? servers (counter % length servers)) [
      | none ↦ next
      | some s ↦ if is_alive now s then some s else next
    ]

unfoldable pub redirect_to : HttpServer → Text
redirect_to s =
    let host = if has_text (codes "127.0.0.1") s.ipaddr then codes "localhost" else s.ipaddr in
    codes "http://" ++ (host ++ b':' ∷ (to_string s.port ++ b'/' ∷ []))

-- An empty text where no server is alive.
unfoldable pub get_roundrobin_redirect : List HttpServer → ℕ → ℕ → Text
unfolding first_alive redirect_to
get_roundrobin_redirect servers counter now =
    elim (first_alive (length servers) counter now servers) [ none ↦ [] | some s ↦ redirect_to s ]

-- The answer of `main` of the load balancer to a request.
unfoldable pub redirect_response : List HttpServer → ℕ → ℕ → Text
unfolding get_roundrobin_redirect
redirect_response servers counter now = elim (get_roundrobin_redirect servers counter now) [
  | [] ↦ codes "HTTP/1.1 503 Service Unavailable\r\n\r\n"
  | x ∷ redirect ↦
      codes "HTTP/1.1 301 Moved Permanently\r\nLocation: " ++ (x ∷ redirect ++ codes "\r\n\r\n")
]

-- `get_status`
unfoldable pub status_list : ℕ → List HttpServer → Text
unfolding is_alive
status_list now [] = codes "\r\n"
status_list now (s ∷ servers) =
    let rest = status_list now servers in
    s.ipaddr
    ++ b':'
      ∷ (to_string s.port
          ++ ((if is_alive now s then codes "-ON" else codes "-OFF")
              ++ (elim servers [ [] ↦ [] | _ ∷ _ ↦ b' ' ∷ [] ] ++ rest)))

unfoldable pub get_status : ℕ → List HttpServer → Text
unfolding status_list
get_status now servers = codes "+OK " ++ status_list now servers
