-- ===== src/Tablets/Reload.antt =====
-- A tablet that is cleared and loaded again: `clear_tablet` and `load_tablet` of
-- backend/src/utils.cpp.
use penn_mail_and_penn_drive.Base.{
  ℕ, zero, suc, ◌+◌, ◌≡◌, refl, ap, sym, ◌∙◌, subst, ◌++◌, List, [], ◌∷◌, Bool, true, Bool-cases,
  inl, inr, Option, none, some, All, ok, if◌then◌else◌, nat_eq, list_eq, pair_eq,
}
use penn_mail_and_penn_drive.Base.Maps.{Map, lookup, update, update_self}
use penn_mail_and_penn_drive.Base.Maps.Distinct.{
  Distinct, insert_all, lookup-insert_all, insert-Distinct, erase-Distinct,
}
use penn_mail_and_penn_drive.Base.Text.{Text, codes, to_string}
use penn_mail_and_penn_drive.Server.{Key, Store, Server}
use penn_mail_and_penn_drive.Command.{newline}
use penn_mail_and_penn_drive.Net.{forward_msg}
use penn_mail_and_penn_drive.Wal.{batch, create_new_checkpoint, restore_table}
use penn_mail_and_penn_drive.Store.Ops.{Op, puts, cputs, deletes}
use penn_mail_and_penn_drive.Wal.History.{apply_map, Runs-Leaves, History, nothing, next}
use penn_mail_and_penn_drive.Wal.Checkpoint.{restore_table-Restores, recover_table-number}
use penn_mail_and_penn_drive.Wal.Values.{IsStorable}
use penn_mail_and_penn_drive.Tablets.{
  checkpoint_server, start_new_checkpoint, clear_tablet, evict, lacks_memory, file_sizes, activate,
  load_tablet,
}

-- Making room only starts threads.
evict-clears :
    (rounds idx : ℕ) (avail : ℕ → ℕ) (sizes : ℕ) (s : Store)
    → (c : List ℕ) × (evict rounds idx avail sizes s ≡ record s { clears = c })
unfolding evict
evict-clears zero idx avail sizes s = (s.clears, refl)
evict-clears (suc rounds) idx avail sizes s =
    let r = if s.active_tablets idx then record s { clears = s.clears ++ idx ∷ [] } else s in
    elim (Bool-cases (lacks_memory (avail idx) sizes)) [
      | inl e ↦ elim (Bool-cases (s.active_tablets idx)) [
        | inl g ↦
            let (c, h) =
              evict-clears rounds (idx + 1) avail sizes
                (record s { clears = s.clears ++ idx ∷ [] }) in
            (c, rw (e, g) h)
        | inr g ↦ let (c, h) = evict-clears rounds (idx + 1) avail sizes s in (c, rw (e, g) h)
      ]
      | inr e ↦ (s.clears, rw e refl)
    ]

checkpoint_server-store :
    (t : ℕ) (s : Server) → (checkpoint_server t s).store ≡ create_new_checkpoint t s.store
unfolding checkpoint_server
checkpoint_server-store t s = elim (Bool-cases s.net.is_primary) [
  | inl e ↦ rw e refl
  | inr e ↦ rw e refl
]

-- What clearing leaves on the disk and in memory.
record Cleared (t : ℕ) (s r : Store) : Type 0 where
  file : r.table_files t ≡ batch (s.table t)
  log : r.log_files t ≡ to_string (s.checkpoints t + 1) ++ newline ∷ []
  empty : r.table t ≡ []

clear_tablet-Cleared : (t : ℕ) (s : Server) → Cleared t s.store (clear_tablet t s).store
unfolding clear_tablet start_new_checkpoint create_new_checkpoint
clear_tablet-Cleared t s = record {
  file = ap (λ r. r.table_files t) (checkpoint_server-store t told) ∙ update_self _ t _;
  log = ap (λ r. r.log_files t) (checkpoint_server-store t told) ∙ update_self _ t _;
  empty = update_self _ t _;
}
  where
    told : Server
    told = record s {
      net = forward_msg (codes "CHECKPOINT " ++ (to_string t ++ codes "\r\n")) s.net;
    }

-- What loading a tablet reaches from a store with the files of a checkpoint of `s`.
activate-Cleared :
    (t : ℕ) (s r : Store)
    → Cleared t s r
    → Distinct (s.table t)
    → All IsStorable (s.table t)
    → (u : Store) × (activate t r ≡ ok u)
      × (u.active_tablets t ≡ true)
      × (u.checkpoints t ≡ s.checkpoints t + 1)
      × ((k : Key) → lookup k (u.table t) ≡ lookup k (s.table t))
unfolding activate lookup
activate-Cleared t s r c distinct storable =
    let v = record r { active_tablets = update r.active_tablets t true } in
    let h = restore_table-Restores t (s.table t) v storable c.file in
    let n = s.checkpoints t + 1 in
    let w = restore_table t v in
    (
      record w { checkpoints = update w.checkpoints t n },
      recover_table-number t n w (ap (λ (f : ℕ → Text). f t) h.files ∙ c.log),
      ap (λ (f : ℕ → Bool). f t) h.active ∙ update_self _ t true,
      update_self _ t n,
      λ k.
          ap (lookup k) (h.table ∙ ap (insert_all (s.table t)) c.empty)
          ∙ lookup-insert_all k (s.table t) [] distinct
          ∙ same (lookup k (s.table t)),
    )
  where
    same : (o : Option Text) → (elim o [ none ↦ none | some v ↦ some v ]) ≡ o
    same none = refl
    same (some v) = refl

-- A tablet that is cleared out of memory and loaded again is in memory with every value that it
-- had and no other, and the number of its checkpoint is one more. Its keys differ, its rows and
-- columns are not empty and hold no blanks, and no value starts with a blank other than a line end
-- or makes a mark of its own with the mark behind it.
pub load_tablet-clear_tablet :
    (t : ℕ) (s : Server) (avail : ℕ → ℕ)
    → Distinct (s.store.table t)
    → All IsStorable (s.store.table t)
    → (u : Store) × (load_tablet avail t (clear_tablet t s).store ≡ ok u)
      × (u.active_tablets t ≡ true)
      × (u.checkpoints t ≡ s.store.checkpoints t + 1)
      × ((k : Key) → lookup k (u.table t) ≡ lookup k (s.store.table t))
unfolding load_tablet
load_tablet-clear_tablet t s avail distinct storable =
    let r = (clear_tablet t s).store in
    let cleared = clear_tablet-Cleared t s in
    let (c, h) = evict-clears 5 0 avail (file_sizes t r) r in
    let (u, e, active, number, same) =
      activate-Cleared t s.store (record r { clears = c })
        (record { file = cleared.file; log = cleared.log; empty = cleared.empty }) distinct
        storable in
    (u, ap (activate t) h ∙ e, active, number, same)

-- Commands keep the keys of a tablet different.
apply_map-Distinct : (op : Op) (m : Map Key Text) → Distinct m → Distinct (apply_map op m)
apply_map-Distinct (puts row col val) m d = insert-Distinct (row, col) val m d
apply_map-Distinct (cputs row col old new) m d = insert-Distinct (row, col) new m d
apply_map-Distinct (deletes row col) m d = erase-Distinct (row, col) m d

pub History-Distinct :
    {t : ℕ} {s u : Store} {ops : List (Op × ℕ)}
    → History t s ops u
    → Distinct (s.table t)
    → Distinct (u.table t)
History-Distinct (nothing s) d = d
History-Distinct {t} (next {s} {u} {v} {op} {n} {ops} r more) d =
    History-Distinct more
      (subst Distinct (sym (Runs-Leaves t op n s u r).table) (apply_map-Distinct op (s.table t) d))
