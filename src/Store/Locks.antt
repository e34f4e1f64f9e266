-- ===== src/Store/Locks.antt =====
-- `get_command_locks`: what it changes, and what its answer means.
use penn_mail_and_penn_drive.Base.{
  ℕ, zero, suc, ◌≡◌, refl, ap, ◌∙◌, List, [], ◌∷◌, Option, none, some, Bool, true, false, nat_eq,
  list_eq, pair_eq, Bool-cases, inl, inr, beq_refl, not, ◌=?◌, sym, if◌then◌else◌, pair_beq_iff,
}
use penn_mail_and_penn_drive.Base.Maps.{lookup, has, insert, lookup-insert}
use penn_mail_and_penn_drive.Base.Text.{Text, split}
use penn_mail_and_penn_drive.Server.{Key, Store}
use penn_mail_and_penn_drive.Command.{space}
use penn_mail_and_penn_drive.Store.{make_lock, try_once, try_lock, lock_key, get_command_locks}
use penn_mail_and_penn_drive.Store.Ops.{Op, puts, cputs, deletes, print, key, IsPlain}
use penn_mail_and_penn_drive.Store.Execute.{
  split-put_command, split-cput_command, split-delete_command,
}

-- The same store but for the row locks.
abbrev pub SameButLocks : Store → Store → Type 0
SameButLocks s r = r ≡ record s { row_locks = r.row_locks }

make_lock-SameButLocks : (s : Store) (k : Key) → SameButLocks s (make_lock s k)
unfolding make_lock
make_lock-SameButLocks s k = elim (Bool-cases (has k s.row_locks)) [
  | inl e ↦ rw (e, make_lock)
  | inr e ↦ rw (e, make_lock)
]

try_once-SameButLocks :
    (o : Option Bool) (again : Bool × Store) (s : Store) (k : Key)
    → SameButLocks s again.1
    → SameButLocks s (try_once o again s k).1
unfolding try_once
try_once-SameButLocks none again s k h = refl
try_once-SameButLocks (some true) again s k h = h
try_once-SameButLocks (some false) again s k h = refl

try_lock-SameButLocks : (n : ℕ) (s : Store) (k : Key) → SameButLocks s (try_lock n s k).1
unfolding try_lock
try_lock-SameButLocks zero s k = refl
try_lock-SameButLocks (suc n) s k =
    try_once-SameButLocks (lookup k s.row_locks) (try_lock n s k) s k (try_lock-SameButLocks n s k)

SameButLocks-trans : (s r q : Store) → SameButLocks s r → SameButLocks r q → SameButLocks s q
SameButLocks-trans s r q h g = g ∙ ap (λ (z : Store). record z { row_locks = q.row_locks }) h

lock_key-SameButLocks : (l : List Text) (s : Store) → SameButLocks s (lock_key l s).1
unfolding lock_key
lock_key-SameButLocks [] s = refl
lock_key-SameButLocks (op ∷ []) s = refl
lock_key-SameButLocks (op ∷ row ∷ []) s = refl
lock_key-SameButLocks (op ∷ row ∷ col ∷ l) s =
    SameButLocks-trans s (make_lock s (row, col)) (try_lock 5 (make_lock s (row, col)) (row, col)).1
      (make_lock-SameButLocks s (row, col))
      (try_lock-SameButLocks 5 (make_lock s (row, col)) (row, col))

-- Whatever the command is, `get_command_locks` changes nothing but the row locks.
pub get_command_locks-SameButLocks :
    (command : Text) (s : Store) → SameButLocks s (get_command_locks command s).1
unfolding get_command_locks
get_command_locks-SameButLocks command s = lock_key-SameButLocks (split space command) s

split-print :
    (op : Op)
    → IsPlain op
    → (verb : Text) × (rest : List Text) × (split space (print op)
        ≡ verb ∷ (key op).0 ∷ (key op).1 ∷ rest)
split-print (puts row col val) (r, c, v) = (_, _, split-put_command row col val r c)
split-print (cputs row col old new) (r, c, v) = (_, _, split-cput_command row col old new r c)
split-print (deletes row col) (r, c, v) = (_, _, split-delete_command row col r c v)

-- A client of the row has its lock.
abbrev pub is_held : Option Bool → Bool
is_held none = false
is_held (some b) = b

try_lock-held :
    (n : ℕ) (s : Store) (k : Key) → lookup k s.row_locks ≡ some true → try_lock n s k ≡ (false, s)
unfolding try_lock try_once
try_lock-held zero s k h = refl
try_lock-held (suc n) s k h = ap (λ o. try_once o (try_lock n s k) s k) h ∙ try_lock-held n s k h

try_lock-free :
    (n : ℕ) (s : Store) (k : Key)
    → lookup k s.row_locks ≡ some false
    → try_lock (suc n) s k ≡ (true, record s { row_locks = insert k true s.row_locks })
unfolding try_lock try_once
try_lock-free n s k h = ap (λ o. try_once o (try_lock n s k) s k) h

make_lock-lookup :
    (s : Store) (k j : Key)
    → lookup j (make_lock s k).row_locks
      ≡ (if k =? j then some (is_held (lookup k s.row_locks)) else lookup j s.row_locks)
unfolding make_lock
make_lock-lookup s k j = go (lookup k s.row_locks) refl
  where
    same :
        (o : Option Bool) (b : Bool)
        → (b ≡ true → lookup j s.row_locks ≡ o)
        → lookup j s.row_locks ≡ (if b then o else lookup j s.row_locks)
    same o true h = h refl
    same o false h = refl

    go :
        (o : Option Bool)
        → lookup k s.row_locks ≡ o
        → lookup j
            (if elim o [ none ↦ false | some _ ↦ true ]
              then s
              else record s { row_locks = insert k false s.row_locks }).row_locks
          ≡ (if k =? j then some (is_held o) else lookup j s.row_locks)
    go none e = lookup-insert k j false s.row_locks
    go (some b) e =
        same (some b) (k =? j)
          (λ q. ap (λ z. lookup z s.row_locks) (sym ((pair_beq_iff k j).0 q)) ∙ e)

-- What `get_command_locks` says and leaves for the entry `k`, where `held` says that its lock was
-- held before.
abbrev pub LocksOnce : Key → Bool → Store → Bool × Store → Type 0
LocksOnce k held s (answer, r) =
    (answer ≡ not held)
    × (lookup k r.row_locks ≡ some true)
    × ((j : Key) → (k =? j) ≡ false → lookup j r.row_locks ≡ lookup j s.row_locks)

tried :
    (held : Bool) (s m : Store) (k : Key)
    → lookup k m.row_locks ≡ some held
    → ((j : Key) → (k =? j) ≡ false → lookup j m.row_locks ≡ lookup j s.row_locks)
    → LocksOnce k held s (try_lock 5 m k)
tried true s m k e h = rw (try_lock-held 5 m k e) (refl, e, h)
tried false s m k e h = rw (try_lock-free 4 m k e) (
  refl,
  lookup-insert k k true m.row_locks ∙ rw (beq_refl k) refl,
  λ j other.
      lookup-insert k j true m.row_locks
      ∙ ap (λ b. if b then some true else lookup j m.row_locks) other
      ∙ h j other,
)

-- For a command whose row and column hold no blank (a value of a PUT does not end in a blank, the
-- column of a DELETE is not empty, and the old value of a CPUT first occurs where the command has
-- it), `get_command_locks` answers `true` if and only if nobody held the lock of the command's
-- entry before. The lock is held afterwards, and the locks of all other entries are as they were.
pub get_command_locks-once :
    (op : Op) (s : Store)
    → IsPlain op
    → LocksOnce (key op) (is_held (lookup (key op) s.row_locks)) s (get_command_locks (print op) s)
unfolding get_command_locks lock_key
get_command_locks-once op s p =
    let (verb, rest, e) = split-print op p in
    rw (e, get_command_locks)
      (tried (is_held (lookup (key op) s.row_locks)) s (make_lock s (key op)) (key op)
        (make_lock-lookup s (key op) (key op) ∙ rw (beq_refl (key op)) refl)
        (λ j other.
          make_lock-lookup s (key op) j
          ∙ ap
              (λ b.
                if b then some (is_held (lookup (key op) s.row_locks)) else lookup j s.row_locks)
              other))

-- The answer `true` means that the lock is held now.
pub get_command_locks-held :
    (op : Op) (s : Store)
    → IsPlain op
    → (get_command_locks (print op) s).0 ≡ true
    → lookup (key op) (get_command_locks (print op) s).1.row_locks ≡ some true
get_command_locks-held op s p h = (get_command_locks-once op s p).1
