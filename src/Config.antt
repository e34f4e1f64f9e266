-- ===== src/Config.antt =====
-- The configuration files: `coord_address` and `populate_addresses` of backend/src/utils.cpp, which
-- a storage server calls, and how `main` of backend/coordinator.cpp reads the same file. A file is
-- its text; a missing one ends the process.
pub mod Printed
pub mod Lines
pub mod Addressed
pub mod Registry
use penn_mail_and_penn_drive.Base.{
  ℕ, ◌+◌, ◌==◌, Option, none, some, List, [], ◌∷◌, ◌++◌, if◌then◌else◌, nat_eq, list_eq, max,
  Outcome, ok, stopped, ◌>>=◌,
}
use penn_mail_and_penn_drive.Base.Text.{Text, before_last, after_last, split, atoi, stoi, to_string}
use penn_mail_and_penn_drive.Base.Maps.{Map, lookup, insert}
use penn_mail_and_penn_drive.Store.{at}
use penn_mail_and_penn_drive.Coordinator.{Name}

-- The text in front of the last colon, and the number behind it.
unfoldable pub ip_port : Text → Text × ℕ
unfolding before_last after_last atoi
ip_port addr = (before_last b':' addr, atoi (after_last b':' addr))

-- Where the coordinator listens for heartbeats and for messages.
unfoldable pub coord_lines : List Text → Text × Text → Outcome (Text × Text)
coord_lines [] addresses = ok addresses
coord_lines (line ∷ lines) addresses = at (split b':' line) 0 >>= λ ip_addr.
    at (split b':' line) 2 >>= λ heartbeat. at (split b':' line) 3 >>= λ comm.
    coord_lines lines (ip_addr ++ b':' ∷ heartbeat, ip_addr ++ b':' ∷ comm)

-- The last line counts. A token that is missing, which is undefined, ends the process here.
unfoldable pub coord_address : Text → Outcome (Text × Text)
unfolding coord_lines
coord_address file = coord_lines (split b'\n' file) ([], [])

-- What a storage server knows of itself and of the others.
pub record Addresses : Type 0 where
  pub partition : ℕ
  pub ip : Text
  pub listen_port : ℕ
  pub primary_port : ℕ
  pub heartbeat_port : ℕ
  pub comm_port : ℕ
  pub listen_address : Text
  pub forward_addresses : List Text
  pub partition_map : Map ℕ (List Text)

abbrev pub no_addresses : Addresses
no_addresses = record {
  partition = 0;
  ip = [];
  listen_port = 0;
  primary_port = 0;
  heartbeat_port = 0;
  comm_port = 0;
  listen_address = [];
  forward_addresses = [];
  partition_map = [];
}

-- `partition_map[part]`
abbrev pub list_at : ℕ → Map ℕ (List Text) → List Text
list_at part m = elim (lookup part m) [ none ↦ [] | some l ↦ l ]

abbrev pub push_address : ℕ → Text → Map ℕ (List Text) → Map ℕ (List Text)
push_address part addr m = insert part (list_at part m ++ addr ∷ []) m

-- The line with the number `idx`.
unfoldable pub populate_line : ℕ → ℕ → Text → Addresses → Outcome Addresses
populate_line server_idx idx line a = at (split b':' line) 0 >>= λ part_text.
    at (split b':' line) 1 >>= λ ip_addr. at (split b':' line) 4 >>= λ list_port.
    at (split b':' line) 5 >>= λ prim_port. at (split b':' line) 2 >>= λ heartbeat.
    at (split b':' line) 3 >>= λ comm. ok (
      if idx == server_idx
      then record a {
        partition = atoi part_text;
        ip = ip_addr;
        listen_port = atoi list_port;
        primary_port = atoi prim_port;
        heartbeat_port = atoi heartbeat;
        comm_port = atoi comm;
        listen_address = ip_addr ++ b':' ∷ list_port;
      }
      else record a {
        forward_addresses = a.forward_addresses ++ (ip_addr ++ b':' ∷ list_port) ∷ [];
        partition_map = push_address (atoi part_text) (ip_addr ++ b':' ∷ prim_port) a.partition_map;
      })

unfoldable pub populate_lines : ℕ → ℕ → List Text → Addresses → Outcome Addresses
unfolding populate_line
populate_lines server_idx idx [] a = ok a
populate_lines server_idx idx (line ∷ lines) a =
    populate_line server_idx idx line a >>= populate_lines server_idx (idx + 1) lines

unfoldable pub populate_addresses : Text → ℕ → Outcome Addresses
unfolding populate_lines
populate_addresses file server_idx = populate_lines server_idx 1 (split b'\n' file) no_addresses

-- What the coordinator reads. Without a server the count is -1, here 0.
pub record Known : Type 0 where
  pub server_info : Map Text Name
  pub partition_info : Map Name ℕ
  pub partition_count : ℕ

-- `stoi(parts.at(i))`
unfoldable pub number_of : List Text → ℕ → Outcome ℕ
number_of parts i = at parts i >>= λ part. elim (stoi part) [ none ↦ stopped | some n ↦ ok n ]

-- The two texts with a colon between them.
abbrev pub colon : Text → Text → Text
colon a b = a ++ b':' ∷ b

unfoldable pub full_id : Text → ℕ → ℕ → ℕ → Text → Name
full_id ip heartbeat comm listening last =
    colon ip
      (colon (to_string heartbeat) (colon (to_string comm) (colon (to_string listening) last)))

-- Three addresses of the server lead to its name.
unfoldable pub register : Name → ℕ → Text → ℕ → ℕ → ℕ → Known → Known
register name partition ip heartbeat comm listening k = record {
  server_info = insert (colon ip (to_string comm)) name (
      insert (colon ip (to_string heartbeat)) name
        (insert (colon ip (to_string listening)) name k.server_info));
  partition_info = insert name partition k.partition_info;
  partition_count = max k.partition_count partition;
}

unfoldable pub read_server : Text → Known → Outcome Known
unfolding number_of full_id register
read_server line k =
    let parts = split b':' line in
    number_of parts 0 >>= λ partition. at parts 1 >>= λ ip. number_of parts 2 >>= λ heartbeat_port.
    number_of parts 3 >>= λ comm_port. number_of parts 4 >>= λ listening_port.
    at parts 5 >>= λ last_port. ok (
      register (full_id ip heartbeat_port comm_port listening_port last_port) partition ip
        heartbeat_port comm_port listening_port k)

unfoldable pub read_servers : List Text → Known → Outcome Known
unfolding read_server
read_servers [] k = ok k
read_servers (line ∷ lines) k = read_server line k >>= read_servers lines
