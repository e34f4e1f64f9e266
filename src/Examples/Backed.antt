-- ===== src/Examples/Backed.antt =====
-- The front end's table in one storage server without replicas: a PUT or DELETE takes the lock of its
-- entry, is executed as execute_command of backend/src/utils.cpp does it, and is refused where
-- another client has the lock; a DELETE of a missing cell is refused too.
use penn_mail_and_penn_drive.Base.{
  ℕ, ◌≡◌, refl, ap, ◌∙◌, Bool, true, false, ◌&&◌, ◌==◌, Option, none, some, [], ◌∷◌, arith,
  if◌then◌else◌, ◌=?◌, nat_eq, list_eq, pair_eq, list_beq_iff, Bool-cases, inl, inr, Outcome, ok,
  blocked, stopped, ◌≢◌,
}
use penn_mail_and_penn_drive.Base.Text.{
  Text, codes, Lacks, is_space, has_text, find, starts_with, split,
}
use penn_mail_and_penn_drive.Base.Maps.{
  Map, lookup, insert, erase, update, lookup-insert, lookup-erase,
}
use penn_mail_and_penn_drive.Server.{Key, Store}
use penn_mail_and_penn_drive.Command.{space, get_tablet, generate_client_response}
use penn_mail_and_penn_drive.Store.{
  get, get_command_locks, execute_command, make_lock, unlock, put_value, erase_value, join_values,
}
use penn_mail_and_penn_drive.Store.Ops.{
  Op, puts, deletes, print, NoBlankEnd, IsPlain, IsReady, Tables, apply, executed, table-executed,
}
use penn_mail_and_penn_drive.Store.Execute.{execute-print}
use penn_mail_and_penn_drive.Store.Locks.{get_command_locks-once, get_command_locks-SameButLocks}
use penn_mail_and_penn_drive.Smtp.Delivery.{no_such_cell}
use penn_mail_and_penn_drive.Frontend.Cells.{no_space, is_name, is_value, put_taken, delete_taken}
use penn_mail_and_penn_drive.Drive.{Storage, add_file, remove_file}
use penn_mail_and_penn_drive.Drive.Files.{add_file-remove_file}
use penn_mail_and_penn_drive.Examples.{empty_store}
use penn_mail_and_penn_drive.Examples.Files.{ada, files}
use penn_mail_and_penn_drive.Drive.Lists.{IsTable}

abbrev finished : ℕ → Outcome Store → Store → Text × Store
finished opt (ok t) r = (generate_client_response true opt, t)
finished opt blocked r = ([], r)
finished opt stopped r = ([], r)

abbrev answered : ℕ → Bool → Outcome Store → Store → Text × Store
answered opt true o r = finished opt o r
answered opt false o r = (generate_client_response false opt, r)

abbrev ran : Op → ℕ → Store → Text × Store
ran op opt s =
    let (got, r) = get_command_locks (print op) s in
    answered opt got (execute_command (print op) r) r

abbrev deleted : Option Text → Text → Text → Store → Text × Store
deleted none row col s = (no_such_cell, s)
deleted (some v) row col s = ran (deletes row col) 3 s

abbrev shown : Option Text → Text
shown none = no_such_cell
shown (some v) = v

abbrev pub cell_in : Store → Text → Text → Text
cell_in s row col = shown (lookup (row, col) (s.table (get_tablet row)))

abbrev pub backed : Storage Store
backed = record {
  reach = λ user s. ok s;
  bend_get = λ row col s. (cell_in s row col, s);
  bend_put = λ row col val s. ran (puts row col val) 1 s;
  bend_delete = λ row col s. deleted (get s (row, col)) row col s;
}

no_space-Lacks : (s : Text) → no_space s ≡ true → Lacks space s
unfolding is_space
no_space-Lacks [] h = tt
no_space-Lacks (x ∷ s) h = (ground arith, no_space-Lacks s (ground arith))

is_name-Lacks : (s : Text) → is_name s ≡ true → Lacks space s
is_name-Lacks [] h = tt
is_name-Lacks (x ∷ s) h = no_space-Lacks (x ∷ s) h

is_name-ne-nil : (s : Text) → is_name s ≡ true → s ≢ []
is_name-ne-nil [] h e = cc
is_name-ne-nil (x ∷ s) h e = cc

is_value-NoBlankEnd : (s : Text) → is_value s ≡ true → NoBlankEnd s
unfolding is_space
is_value-NoBlankEnd [] h = tt
is_value-NoBlankEnd (x ∷ []) h = ground arith
is_value-NoBlankEnd (x ∷ y ∷ s) h = is_value-NoBlankEnd (y ∷ s) (ground arith)

answered_table :
    (opt : ℕ) (got : Bool) (o : Outcome Store) (r t : Store)
    → has_text (codes "OK") (generate_client_response false opt) ≡ false
    → o ≡ ok t
    → has_text (codes "OK") (answered opt got o r).0 ≡ true
    → (answered opt got o r).1 ≡ t
answered_table opt true o r t refuses e h = ap (λ z. (finished opt z r).1) e
answered_table opt false o r t refuses e h = cc

-- An answer that reports success means that the command was executed.
ran_table :
    (op : Op) (opt : ℕ) (s : Store)
    → IsPlain op
    → ((r : Store) → IsReady op r)
    → has_text (codes "OK") (generate_client_response false opt) ≡ false
    → has_text (codes "OK") (ran op opt s).0 ≡ true
    → (ran op opt s).1.table ≡ apply op s.table
ran_table op opt s plain ready refuses h =
    let got = (get_command_locks (print op) s).0 in
    let r = (get_command_locks (print op) s).1 in
    ap (λ (z : Store). z.table)
      (answered_table opt got (execute_command (print op) r) r (executed op r) refuses
        (execute-print op r true plain (ready r) ((get_command_locks-once op s plain).1)) h)
    ∙ table-executed op r
    ∙ ap (λ (z : Store). apply op z.table) (get_command_locks-SameButLocks (print op) s)

updated :
    (tb : Tables) (row col : Text) (f : Map Key Text → Map Key Text) (o : Option Text)
    (row' col' : Text)
    → ((j : Key) (m : Map Key Text) → lookup j (f m) ≡ (if (row, col) =? j then o else lookup j m))
    → lookup (row', col') (update tb (get_tablet row) (f (tb (get_tablet row))) (get_tablet row'))
      ≡ (if (row =? row') && (col =? col') then o else lookup (row', col') (tb (get_tablet row')))
unfolding update
updated tb row col f o row' col' h = elim (Bool-cases (get_tablet row == get_tablet row')) [
  | inl e ↦
      let one : get_tablet row ≡ get_tablet row' = ground (arith, e) in
      rw (update, e)
        (h (row', col') (tb (get_tablet row))
          ∙ ap (λ n. if (row =? row') && (col =? col') then o else lookup (row', col') (tb n)) one)
  | inr e ↦ elim (Bool-cases (row =? row')) [
    | inl q ↦
        let same : get_tablet row ≡ get_tablet row' = ap get_tablet ((list_beq_iff row row').0 q) in
        absurd (ground (arith, e, same))
    | inr q ↦ rw (update, e, q) refl
  ]
]

shown_if :
    (b : Bool) (o p : Option Text) → shown (if b then o else p) ≡ (if b then shown o else shown p)
shown_if true o p = refl
shown_if false o p = refl

pub put_cell :
    (row col val row' col' : Text) (s : Store)
    → put_taken row col val (backed.bend_put row col val s).0 ≡ true
    → cell_in (backed.bend_put row col val s).1 row' col'
      ≡ (if (row =? row') && (col =? col') then val else cell_in s row' col')
put_cell row col val row' col' s taken =
    let named : is_name row ≡ true = ground (arith, taken) in
    let column : is_name col ≡ true = ground (arith, taken) in
    let value : is_value val ≡ true = ground (arith, taken) in
    let said : has_text (codes "OK") (ran (puts row col val) 1 s).0 ≡ true =
      ground (arith, taken) in
    ap (λ (tb : Tables). shown (lookup (row', col') (tb (get_tablet row'))))
      (ran_table (puts row col val) 1 s
        (is_name-Lacks row named, is_name-Lacks col column, is_value-NoBlankEnd val value) (λ r. tt)
        (unfold generate_client_response has_text find starts_with in refl) said)
    ∙ ap shown (
        updated s.table row col (insert (row, col) val) (some val) row' col'
          (λ j m. lookup-insert (row, col) j val m))
    ∙ shown_if ((row =? row') && (col =? col')) (some val)
        (lookup (row', col') (s.table (get_tablet row')))

refused : has_text (codes "OK") no_such_cell ≡ true → ⊥
unfolding has_text find starts_with
refused e = cc

pub delete_cell :
    (row col row' col' : Text) (s : Store)
    → delete_taken row col (backed.bend_delete row col s).0 ≡ true
    → cell_in (backed.bend_delete row col s).1 row' col'
      ≡ (if (row =? row') && (col =? col') then no_such_cell else cell_in s row' col')
delete_cell row col row' col' s taken = go (get s (row, col)) taken
  where
    go :
        (o : Option Text)
        → delete_taken row col (deleted o row col s).0 ≡ true
        → cell_in (deleted o row col s).1 row' col'
          ≡ (if (row =? row') && (col =? col') then no_such_cell else cell_in s row' col')
    go none t =
        let said : has_text (codes "OK") no_such_cell ≡ true = ground (arith, t) in
        absurd (refused said)
    go (some v) t =
        let named : is_name row ≡ true = ground (arith, t) in
        let column : is_name col ≡ true = ground (arith, t) in
        let said : has_text (codes "OK") (ran (deletes row col) 3 s).0 ≡ true = ground (arith, t) in
        ap (λ (tb : Tables). shown (lookup (row', col') (tb (get_tablet row'))))
          (ran_table (deletes row col) 3 s
            (is_name-Lacks row named, is_name-Lacks col column, is_name-ne-nil col column) (λ r. tt)
            (unfold generate_client_response has_text find starts_with in refl) said)
        ∙ ap shown (
            updated s.table row col (erase (row, col)) none row' col'
              (λ j m. lookup-erase (row, col) j m))
        ∙ shown_if ((row =? row') && (col =? col')) none
            (lookup (row', col') (s.table (get_tablet row')))

abbrev pub backed-IsTable : IsTable backed
backed-IsTable = record {
  cell = cell_in;
  get_cell = λ row col t key. refl;
  put_cell = put_cell;
  delete_cell = delete_cell;
}

-- The files of one user in the tablet of the user's row.
abbrev pub filled : Store
filled = record empty_store { table = λ t. if t == get_tablet ada then files else [] }

add_file-remove_file_example :
    (r : Text) × (u : Store) × (s : Text) × (v : Store) × (add_file backed
        (codes "penn")
        ada
        (codes "/")
        (codes "/a")
        (codes "10")
        filled
      ≡ ok (r, u))
    × (remove_file backed (codes "penn") ada (codes "/") (codes "/a") u ≡ ok (s, v))
    × ((row col : Text) → cell_in v row col ≡ cell_in filled row col)
unfolding has_text lookup get_tablet get_command_locks find execute_command split make_lock insert
    erase unlock put_value erase_value join_values get update is_space starts_with
    generate_client_response
add_file-remove_file_example =
    add_file-remove_file backed backed-IsTable ada (codes "/") (codes "/a") b'p' (codes "enn")
      (codes "10") filled (omega arith, (omega arith, tt)) (λ e. cc) (λ e. cc) (λ e. cc) (λ e. cc)
      refl refl (refl, refl) (refl, refl)
