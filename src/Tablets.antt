-- ===== src/Tablets.antt =====
-- Tablets in memory: `load_tablet`, `create_clear_thread`, `clear_tablet`, `start_new_checkpoint`,
-- `load_tablets_startup`, `parse_checkpoint_file` and `make_kv_pairs` of backend/src/utils.cpp.
-- `total_avail_memory` reads /proc/meminfo; its readings in one call are an argument.
pub mod Reload
use penn_mail_and_penn_drive.Base.{
  ℕ, zero, suc, ◌+◌, ◌-◌, ◌*◌, ◌/◌, ◌%◌, ◌^◌, Bool, true, false, List, [], ◌∷◌, ◌++◌, none, some,
  leb, length, if◌then◌else◌, Outcome, ok, ◌>>=◌,
}
use penn_mail_and_penn_drive.Base.Maps.{Map, update}
use penn_mail_and_penn_drive.Base.Text.{Text, codes, find, split, to_string}
use penn_mail_and_penn_drive.Server.{Key, Store, Server}
use penn_mail_and_penn_drive.Command.{space, newline}
use penn_mail_and_penn_drive.Wal.{mark, restore_table, recover_table, create_new_checkpoint}
use penn_mail_and_penn_drive.Net.{do_write_backend, forward_msg}

-- `avail - sizes <= avail * 0.5`, with the difference of a `size_t`.
abbrev lacks_memory : ℕ → ℕ → Bool
lacks_memory avail sizes = leb (2 * ((avail + 2 ^ 64 - sizes) % 2 ^ 64)) avail

-- Each round reads the memory again, so `avail` gives the reading of each. `rounds` is `5 - idx`.
unfoldable evict : ℕ → ℕ → (ℕ → ℕ) → ℕ → Store → Store
evict zero idx avail sizes s = s
evict (suc rounds) idx avail sizes s =
    let r = if s.active_tablets idx then record s { clears = s.clears ++ idx ∷ [] } else s in
    let more = evict rounds (idx + 1) avail sizes r in
    if lacks_memory (avail idx) sizes then more else s

-- Both files of the tablet.
abbrev file_sizes : ℕ → Store → ℕ
file_sizes t s = length (s.table_files t) + length (s.log_files t)

unfoldable activate : ℕ → Store → Outcome Store
activate t s =
    recover_table t (restore_table t (record s { active_tablets = update s.active_tablets t true }))

unfoldable pub load_tablet : (ℕ → ℕ) → ℕ → Store → Outcome Store
unfolding evict activate
load_tablet avail t s = activate t (evict 5 0 avail (file_sizes t s) s)

-- `rounds` is `5 - i`; the limit stays half of the first reading.
load_from : ℕ → ℕ → (ℕ → ℕ) → ℕ → ℕ → Store → Outcome Store
unfolding activate
load_from zero i avail reading limit s = ok s
load_from (suc rounds) i avail reading limit s =
    let skip = load_from rounds (i + 1) avail reading limit s in
    let load = activate i s >>= load_from rounds (i + 1) avail (avail (i + 1)) limit in
    if leb ((reading + 2 ^ 64 - file_sizes i s) % 2 ^ 64) limit then skip else load

unfoldable pub load_tablets_startup : (ℕ → ℕ) → Store → Outcome Store
unfolding load_from
load_tablets_startup avail s = load_from 5 0 avail (avail 0) (avail 0 / 2) s

-- The call itself, and the answer of a server that is not the primary.
unfoldable pub checkpoint_server : ℕ → Server → Server
checkpoint_server t s =
    let r = record s { store = create_new_checkpoint t s.store } in
    if s.net.is_primary then r else record r {
      net =
          do_write_backend s.net.primary_fd (codes "CHECK_ACK " ++ (to_string t ++ codes "\r\n"))
            s.net;
    }

unfoldable pub start_new_checkpoint : ℕ → Server → Server
unfolding checkpoint_server
start_new_checkpoint t s =
    checkpoint_server t
      (record s { net = forward_msg (codes "CHECKPOINT " ++ (to_string t ++ codes "\r\n")) s.net })

unfoldable pub clear_tablet : ℕ → Server → Server
unfolding start_new_checkpoint
clear_tablet t s =
    let r = start_new_checkpoint t s in
    record r {
      store = record r.store {
        active_tablets = update r.store.active_tablets t false;
        table = update r.store.table t [];
      };
    }

-- Lines with a mark are put together, the others keep their line end.
checkpoint_lines : List Text → Text
checkpoint_lines [] = []
checkpoint_lines (line ∷ lines) = elim (find mark line) [
  | none ↦ (line ++ newline ∷ []) ++ checkpoint_lines lines
  | some _ ↦ line ++ checkpoint_lines lines
]

unfoldable pub parse_checkpoint_file : Text → Text
unfolding checkpoint_lines
parse_checkpoint_file file = checkpoint_lines (split newline file)

entries : Map Key Text → Text
entries [] = []
entries (((row, col), val) ∷ m) = row ++ space ∷ (col ++ space ∷ (val ++ (mark ++ entries m)))

-- A tablet in memory by its entries, any other by its checkpoint file.
tablet_pairs : ℕ → Store → Text
unfolding entries parse_checkpoint_file
tablet_pairs t s =
    if s.active_tablets t then entries (s.table t) else parse_checkpoint_file (s.table_files t)

unfoldable pub make_kv_pairs : Store → Text
unfolding tablet_pairs
make_kv_pairs s =
    tablet_pairs 0 s
    ++ (tablet_pairs 1 s
        ++ (tablet_pairs 2 s ++ (tablet_pairs 3 s ++ (tablet_pairs 4 s ++ codes "\r\n"))))
