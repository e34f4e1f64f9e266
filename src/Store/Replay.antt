-- ===== src/Store/Replay.antt =====
-- `parsing_logic` of backend/src/utils.cpp on printed commands.
use penn_mail_and_penn_drive.Base.{
  ℕ, ◌≡◌, refl, sym, ◌++◌, [], ◌∷◌, none, some, true, arith, Outcome, ok, nat_eq, list_eq, pair_eq,
  Option-cases, inl, inr, Eq,
}
use penn_mail_and_penn_drive.Base.Maps.{Map, lookup, erase, update_same}
use penn_mail_and_penn_drive.Base.Text.{Text, Lacks, starts_with}
use penn_mail_and_penn_drive.Base.Text.Laws.{
  after?-append, before-append, after-append, find_at_start,
}
use penn_mail_and_penn_drive.Server.{Key, Store}
use penn_mail_and_penn_drive.Command.{space, put, cput, delete, get_tablet}
use penn_mail_and_penn_drive.Store.{get, put_value, erase_value, make_lock, parse_op, parsing_logic}
use penn_mail_and_penn_drive.Store.Ops.{
  Op, puts, cputs, deletes, print, key, apply, IsPlain, IsReady,
}
use penn_mail_and_penn_drive.Store.Execute.{behind-found}

erase-absent {ℓ κ} :
    {K : Type ℓ} {V : Type κ} ⦃e : Eq K⦄ (k : K) (m : Map K V) → lookup k m ≡ none → erase k m ≡ m
unfolding lookup erase
erase-absent k [] h = refl
erase-absent k ((j, v) ∷ m) h = ground (arith, erase-absent k m)

-- The result of a replayed command: the tables of `op`, and the tablets in memory as before.
pub record Replays (op : Op) (s : Store) (o : Outcome Store) : Type 0 where
  pub after : Store
  pub runs : o ≡ ok after
  pub tables : (t : ℕ) → after.table t ≡ apply op s.table t
  pub active : after.active_tablets ≡ s.active_tablets
  pub sequences : after.log_sequences ≡ s.log_sequences
  pub numbers : after.checkpoints ≡ s.checkpoints

make_lock-table : (s : Store) (k : Key) → (make_lock s k).table ≡ s.table
unfolding make_lock
make_lock-table s k = ground arith

make_lock-active : (s : Store) (k : Key) → (make_lock s k).active_tablets ≡ s.active_tablets
unfolding make_lock
make_lock-active s k = ground arith

make_lock-sequences : (s : Store) (k : Key) → (make_lock s k).log_sequences ≡ s.log_sequences
unfolding make_lock
make_lock-sequences s k = ground arith

make_lock-checkpoints : (s : Store) (k : Key) → (make_lock s k).checkpoints ≡ s.checkpoints
unfolding make_lock
make_lock-checkpoints s k = ground arith

parse_put :
    (row col val : Text) (s : Store)
    → Lacks space col
    → Replays (puts row col val) s (parse_op (print (puts row col val)) row (col ++ space ∷ val) s)
unfolding parse_op starts_with put_value
parse_put row col val s c = record {
  after = put_value (make_lock s (row, col)) (row, col) val;
  runs = rw (before-append space col val c, after-append space col val c) refl;
  tables = λ t. rw make_lock-table refl;
  active = make_lock-active s (row, col);
  sequences = make_lock-sequences s (row, col);
  numbers = make_lock-checkpoints s (row, col);
}

parse_cput :
    (row col old new : Text) (s : Store)
    → Lacks space col
    → get s (row, col) ≡ some old
    → Replays
        (cputs row col old new)
        s
        (parse_op (print (cputs row col old new)) row (col ++ space ∷ (old ++ space ∷ new)) s)
unfolding parse_op starts_with put_value
parse_cput row col old new s c ready = record {
  after = put_value s (row, col) new;
  runs = ground (
    arith,
    before-append space col (old ++ space ∷ new) c,
    after-append space col (old ++ space ∷ new) c,
    behind-found old (old ++ space ∷ new) [] new space (find_at_start old (space ∷ new)),
  );
  tables = λ t. refl;
  active = refl;
  sequences = refl;
  numbers = refl;
}

parse_delete :
    (row col : Text) (s : Store)
    → Replays (deletes row col) s (parse_op (print (deletes row col)) row col s)
unfolding parse_op starts_with erase_value get
parse_delete row col s = elim (Option-cases (get s (row, col))) [
  | inl e ↦ record {
    after = s;
    runs = rw (e, parse_op) refl;
    tables = λ t.
        rw (erase-absent (row, col) (s.table (get_tablet row)) e)
          (sym (update_same s.table (get_tablet row) t));
    active = refl;
    sequences = refl;
    numbers = refl;
  }
  | inr (v, e) ↦ record {
    after = record (erase_value s (row, col)) { row_locks = erase (row, col) s.row_locks };
    runs = rw (e, parse_op) refl;
    tables = λ t. refl;
    active = refl;
    sequences = refl;
    numbers = refl;
  }
]

parsing_logic_step :
    (word row rest : Text) (s : Store)
    → Lacks space word
    → Lacks space row
    → s.active_tablets (get_tablet row) ≡ true
    → parsing_logic (word ++ space ∷ (row ++ space ∷ rest)) s
      ≡ parse_op (word ++ space ∷ (row ++ space ∷ rest)) row rest s
unfolding parsing_logic
parsing_logic_step word row rest s w r a = ground (
  arith,
  after?-append space word (row ++ space ∷ rest) w,
  after?-append space row rest r,
  before-append space row rest r,
)

-- A command that is `IsPlain`, for a tablet in memory, changes the tables when it is read
-- back from a log as its execution did; a CPUT must find its old value. The tablets in memory, the
-- log sequences and the numbers of the checkpoints stay.
pub parsing_logic-print :
    (op : Op) (s : Store)
    → IsPlain op
    → IsReady op s
    → s.active_tablets (get_tablet (key op).0) ≡ true
    → Replays op s (parsing_logic (print op) s)
parsing_logic-print (puts row col val) s (r, c, v) ready a =
    rw (parsing_logic_step put row (col ++ space ∷ val) s (omega arith) r a)
      (parse_put row col val s c)
parsing_logic-print (cputs row col old new) s (r, c, v) ready a =
    rw (parsing_logic_step cput row (col ++ space ∷ (old ++ space ∷ new)) s (omega arith) r a)
      (parse_cput row col old new s c ready)
parsing_logic-print (deletes row col) s (r, c, v) ready a =
    rw (parsing_logic_step delete row col s (omega arith) r a) (parse_delete row col s)
