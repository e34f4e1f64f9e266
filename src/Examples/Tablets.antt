-- ===== src/Examples/Tablets.antt =====
-- A tablet that is cleared and loaded again.
use penn_mail_and_penn_drive.Base.{◌+◌, ◌≡◌, refl, true, [], ◌∷◌, All, ok, nat_eq, list_eq, pair_eq}
use penn_mail_and_penn_drive.Base.Maps.{Map, lookup}
use penn_mail_and_penn_drive.Base.Maps.Distinct.{Distinct}
use penn_mail_and_penn_drive.Base.Text.{Text, codes, find, is_space}
use penn_mail_and_penn_drive.Server.{Key, Store, Server}
use penn_mail_and_penn_drive.Wal.Values.{IsStorable}
use penn_mail_and_penn_drive.Tablets.{clear_tablet, load_tablet}
use penn_mail_and_penn_drive.Tablets.Reload.{load_tablet-clear_tablet}
use penn_mail_and_penn_drive.Examples.Transactions.{empty_server}

abbrev two_cells : Map Key Text
two_cells =
    ((codes "ada", codes "mail"), codes "hello\nthere")
    ∷ ((codes "ada", codes "drive"), codes "01")
    ∷ []

abbrev full_server : Server
full_server = record empty_server { store = record empty_server.store { table = λ t. two_cells } }

two_cells-Distinct : Distinct two_cells
unfolding lookup
two_cells-Distinct = (refl, (refl, tt))

two_cells-IsStorable : All IsStorable two_cells
unfolding find is_space
two_cells-IsStorable = (
  ((refl, (refl, (refl, tt))), (refl, (refl, (refl, (refl, tt)))), (λ e. refl), refl),
  (((refl, (refl, (refl, tt))), (refl, (refl, (refl, (refl, (refl, tt))))), (λ e. refl), refl), tt),
)

load_tablet-clear_tablet_example :
    (u : Store) × (load_tablet (λ i. 1000) 4 (clear_tablet 4 full_server).store ≡ ok u)
    × (u.active_tablets 4 ≡ true)
    × (u.checkpoints 4 ≡ 1 + 1)
    × ((k : Key) → lookup k (u.table 4) ≡ lookup k two_cells)
load_tablet-clear_tablet_example =
    load_tablet-clear_tablet 4 full_server (λ i. 1000) two_cells-Distinct two_cells-IsStorable
