-- ===== src/Examples/Addresses.antt =====
-- The servers' file of two partitions.
use penn_mail_and_penn_drive.Base.{
  ℕ, ◌≡◌, refl, [], ◌∷◌, ◌++◌, map, arith, nat_eq, list_eq, Outcome, ok, blocked, stopped,
}
use penn_mail_and_penn_drive.Base.Text.{codes, split, stoi, to_string}
use penn_mail_and_penn_drive.Base.Maps.{lookup}
use penn_mail_and_penn_drive.Config.{
  Addresses, Known, list_at, populate_addresses, read_servers, coord_address, ip_port,
}
use penn_mail_and_penn_drive.Config.Printed.{Configured, file_of, line_of, listen_of}
use penn_mail_and_penn_drive.Config.Addressed.{primaries, populate_addresses-others}
use penn_mail_and_penn_drive.Config.Registry.{IsComplete, read_servers-IsComplete}

abbrev first : Configured
first = record {
  partition = 1;
  ip = codes "127.0.0.1";
  heartbeat = 8001;
  comm = 8002;
  listening = 8003;
  primary = 8004;
}

abbrev second : Configured
second = record {
  partition = 1;
  ip = codes "127.0.0.1";
  heartbeat = 9001;
  comm = 9002;
  listening = 9003;
  primary = 9004;
}

abbrev third : Configured
third = record {
  partition = 2;
  ip = codes "127.0.0.1";
  heartbeat = 8005;
  comm = 8006;
  listening = 8007;
  primary = 8008;
}

populate_addresses-others_example :
    (a : Addresses) × (populate_addresses (file_of ((first ∷ []) ++ second ∷ third ∷ [])) 2 ≡ ok a)
    × (a.partition ≡ 1)
    × (a.listen_address ≡ listen_of second)
    × (a.forward_addresses ≡ map listen_of ((first ∷ []) ++ third ∷ []))
    × ((p : ℕ) → list_at p a.partition_map ≡ primaries p ((first ∷ []) ++ third ∷ []))
populate_addresses-others_example =
    populate_addresses-others (first ∷ []) (third ∷ []) second ((ground arith, ground arith), tt)
      (ground arith, ground arith) ((ground arith, ground arith), tt)

abbrev nothing_known : Known
nothing_known = record { server_info = []; partition_info = []; partition_count = 0 }

nothing-IsComplete : IsComplete nothing_known
unfolding lookup
nothing-IsComplete addr name h = cc

abbrev known_of : Outcome Known → Known
known_of (ok k) = k
known_of blocked = nothing_known
known_of stopped = nothing_known

read_servers-IsComplete_example :
    IsComplete (known_of (read_servers (map line_of (first ∷ second ∷ third ∷ [])) nothing_known))
unfolding read_servers stoi split to_string
read_servers-IsComplete_example =
    read_servers-IsComplete (map line_of (first ∷ second ∷ third ∷ [])) nothing_known
      (known_of (read_servers (map line_of (first ∷ second ∷ third ∷ [])) nothing_known))
      nothing-IsComplete refl

coordinator_address :
    coord_address (codes "127.0.0.1:5001:5002:5003\n")
    ≡ ok (codes "127.0.0.1:5002", codes "127.0.0.1:5003")
unfolding coord_address split
coordinator_address = refl

address_parts : ip_port (codes "127.0.0.1:5001") ≡ (codes "127.0.0.1", 5001)
unfolding ip_port
address_parts = refl
