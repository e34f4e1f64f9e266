-- ===== src/Store.antt =====
-- Reads and writes of the tables: `get_command_locks`, `execute_command` and `parsing_logic` of
-- backend/src/utils.cpp.
pub mod Ops
pub mod Execute
pub mod Replay
pub mod Locks
use penn_mail_and_penn_drive.Base.{
  ℕ, zero, suc, ◌+◌, Bool, true, false, List, [], ◌∷◌, ◌++◌, Option, none, some, ltb, length, drop,
  get_elem?, if◌then◌else◌, ◌=?◌, nat_eq, list_eq, pair_eq, Outcome, ok, stopped, ◌>>=◌,
}
use penn_mail_and_penn_drive.Base.Maps.{lookup, insert, erase, has, update}
use penn_mail_and_penn_drive.Base.Text.{Text, before, after, after?, find, starts_with, split}
use penn_mail_and_penn_drive.Server.{Key, Store}
use penn_mail_and_penn_drive.Command.{space, put, cput, delete, get_tablet}

-- `table[tablet_num][key]`, as far as it is there.
unfoldable pub get : Store → Key → Option Text
get s key = lookup key (s.table (get_tablet key.0))

-- `table[get_tablet(row)][key] = val`
unfoldable pub put_value : Store → Key → Text → Store
put_value s key val = record s { table = update s.table t (insert key val (s.table t)) }
  where
    t : ℕ
    t = get_tablet key.0

-- `table[get_tablet(row)].erase(key)`
unfoldable pub erase_value : Store → Key → Store
erase_value s key = record s { table = update s.table t (erase key (s.table t)) }
  where
    t : ℕ
    t = get_tablet key.0

-- A lock is made for a key that has none.
unfoldable pub make_lock : Store → Key → Store
make_lock s key =
    if has key s.row_locks then s else record s { row_locks = insert key false s.row_locks }

-- `pthread_rwlock_unlock(row_locks[key].get())`: a key that has no lock gives a null pointer.
unfoldable pub unlock : Store → Key → Outcome Store
unlock s key = elim (lookup key s.row_locks) [
  | none ↦ stopped
  | some _ ↦ ok (record s { row_locks = insert key false s.row_locks })
]

-- `tokens.at(i)`
abbrev pub at {ℓ} : {A : Type ℓ} → List A → ℕ → Outcome A
at l i = elim (get_elem? l i) [ none ↦ stopped | some a ↦ ok a ]

-- One try at a lock that is missing, held or free; `again` is what the tries left give.
try_once : Option Bool → Bool × Store → Store → Key → Bool × Store
try_once none again s key = (false, s)
try_once (some true) again s key = again
try_once (some false) again s key = (true, record s { row_locks = insert key true s.row_locks })

-- `while (n_tries > 0) { … pthread_rwlock_trywrlock … n_tries--; }`. The handlers run one at a
-- time, so no other thread releases the lock between two tries.
try_lock : ℕ → Store → Key → Bool × Store
unfolding try_once
try_lock zero s key = (false, s)
try_lock (suc n_tries) s key = try_once (lookup key s.row_locks) (try_lock n_tries s key) s key

lock_key : List Text → Store → Bool × Store
unfolding try_lock
lock_key (op ∷ row ∷ col ∷ rest) s = try_lock 5 (make_lock s (row, col)) (row, col)
lock_key _ s = (false, s)

unfoldable pub get_command_locks : Text → Store → Bool × Store
unfolding lock_key
get_command_locks command s = lock_key (split space command) s

-- `for (i = 3; …) { val += tokens.at(i); if (i != tokens.size() - 1) val += " "; }`
unfoldable pub join_values : List Text → Text
join_values [] = []
join_values (t ∷ []) = t
join_values (t ∷ u ∷ ts) = t ++ space ∷ join_values (u ∷ ts)

-- `s.substr(n)`, which throws beyond the end.
unfoldable pub substr_from : ℕ → Text → Outcome Text
substr_from n s = if ltb (length s) n then stopped else ok (drop n s)

-- `text.substr(text.find(old) + old.size() + 1)`; `npos` wraps around to `old.size()`.
unfoldable pub behind : Text → Text → Outcome Text
unfolding substr_from
behind old text = elim (find old text) [
  | none ↦ substr_from (length old) text
  | some (a, b) ↦ substr_from (length a + length old + 1) text
]

-- `table[tablet_num][key]` as a value: a missing entry is made, and is empty.
abbrev pub value_or_empty : Option Text → Text
value_or_empty none = []
value_or_empty (some v) = v

execute_op : Text → Text → Key → List Text → Store → Outcome Store
execute_op command op key values s =
    if op =? put
    then unlock (put_value s key (join_values values)) key
    else if op =? cput
    then (do val ← behind (value_or_empty (get s key)) command; unlock (put_value s key val) key)
    else if op =? delete
    then (do
      t ← unlock (erase_value s key) key
      ok (record t { row_locks = erase key t.row_locks }))
    else ok s

unfoldable pub execute_command : Text → Store → Outcome Store
unfolding execute_op
execute_command command s = do
  row ← at (split space command) 1
  col ← at (split space command) 2
  op ← at (split space command) 0
  execute_op command op (row, col) (drop 3 (split space command)) s

-- What `parsing_logic` does with the text behind the row.
parse_op : Text → Text → Text → Store → Outcome Store
parse_op message row colv s =
    if starts_with put message
    then ok (
        put_value (make_lock s (row, before space colv)) (row, before space colv)
          (after space colv))
    else if starts_with cput message
    then elim (get s (row, before space colv)) [
      | none ↦ ok s
      | some v1 ↦ do v2 ← behind v1 (after space colv); ok (put_value s (row, before space colv) v2)
    ]
    else if starts_with delete message
    then elim (get s (row, colv)) [
      | none ↦ ok s
      | some _ ↦
          (let t = erase_value s (row, colv) in
            ok (record t { row_locks = erase (row, colv) t.row_locks }))
    ]
    else ok s

-- A command that is read back from a log.
unfoldable pub parsing_logic : Text → Store → Outcome Store
unfolding parse_op
parsing_logic message s = elim (after? space message) [
  | none ↦ ok s
  | some rcv ↦ elim (after? space rcv) [
    | none ↦ ok s
    | some colv ↦
        if s.active_tablets (get_tablet (before space rcv))
        then parse_op message (before space rcv) colv s
        else ok s
  ]
]
