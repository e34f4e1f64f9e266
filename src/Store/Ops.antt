-- ===== src/Store/Ops.antt =====
-- Commands as data: their lines, and what they do to the tables.
use penn_mail_and_penn_drive.Base.{
  ℕ, ◌≡◌, ◌≢◌, refl, ◌++◌, [], ◌∷◌, some, false, nat_eq, list_eq, pair_eq,
}
use penn_mail_and_penn_drive.Base.Maps.{Map, insert, erase, update}
use penn_mail_and_penn_drive.Base.Text.{Text, Lacks, find}
use penn_mail_and_penn_drive.Server.{Key, Store}
use penn_mail_and_penn_drive.Command.{
  space, cput, put_command, cput_command, delete_command, get_tablet,
}
use penn_mail_and_penn_drive.Store.{get, put_value, erase_value}

pub data Op : Type 0 where
  puts : Text → Text → Text → Op
  cputs : Text → Text → Text → Text → Op
  deletes : Text → Text → Op

abbrev pub print : Op → Text
print (puts row col val) = put_command row col val
print (cputs row col old new) = cput_command row col old new
print (deletes row col) = delete_command row col

abbrev pub key : Op → Key
key (puts row col val) = (row, col)
key (cputs row col old new) = (row, col)
key (deletes row col) = (row, col)

abbrev pub Tables : Type 0
Tables = ℕ → Map Key Text

-- What a client asks for.
abbrev pub apply : Op → Tables → Tables
apply (puts row col val) tb =
    update tb (get_tablet row) (insert (row, col) val (tb (get_tablet row)))
apply (cputs row col old new) tb =
    update tb (get_tablet row) (insert (row, col) new (tb (get_tablet row)))
apply (deletes row col) tb = update tb (get_tablet row) (erase (row, col) (tb (get_tablet row)))

-- The last byte is no blank; `trim_trailing_newline` sees to it for whole commands.
abbrev pub NoBlankEnd : Text → Type 0
NoBlankEnd [] = Unit
NoBlankEnd (x ∷ []) = x ≢ space
NoBlankEnd (x ∷ y ∷ s) = NoBlankEnd (y ∷ s)

-- The text of a CPUT up to the old value.
abbrev pub cput_prefix : Text → Text → Text
cput_prefix row col = cput ++ space ∷ (row ++ space ∷ (col ++ space ∷ []))

-- The old value is found where it was meant to be found.
abbrev pub FirstInCommand : Text → Text → Text → Text → Type 0
FirstInCommand row col old new =
    find old (cput_command row col old new) ≡ some (cput_prefix row col, space ∷ new)

-- Row and column hold no blank. The value of a PUT does not end in a blank, the column of a DELETE
-- is not empty, and the old value of a CPUT first occurs where the command has it.
abbrev pub IsPlain : Op → Type 0
IsPlain (puts row col val) = Lacks space row × Lacks space col × NoBlankEnd val
IsPlain (cputs row col old new) = Lacks space row × Lacks space col × FirstInCommand row col old new
IsPlain (deletes row col) = Lacks space row × Lacks space col × (col ≢ [])

-- A CPUT finds its old value.
abbrev pub IsReady : Op → Store → Type 0
IsReady (puts row col val) s = Unit
IsReady (cputs row col old new) s = get s (row, col) ≡ some old
IsReady (deletes row col) s = Unit

-- The store after `execute_command`: the lock is free, and gone with a deleted entry.
abbrev pub executed : Op → Store → Store
executed (puts row col val) s = record (put_value s (row, col) val) {
  row_locks = insert (row, col) false s.row_locks;
}
executed (cputs row col old new) s = record (put_value s (row, col) new) {
  row_locks = insert (row, col) false s.row_locks;
}
executed (deletes row col) s = record (erase_value s (row, col)) {
  row_locks = erase (row, col) (insert (row, col) false s.row_locks);
}

-- Either way the tables are those that the client asked for.
pub table-executed : (op : Op) (s : Store) → (executed op s).table ≡ apply op s.table
unfolding put_value erase_value
table-executed (puts row col val) s = refl
table-executed (cputs row col old new) s = refl
table-executed (deletes row col) s = refl

pub log_queues-executed : (op : Op) (s : Store) → (executed op s).log_queues ≡ s.log_queues
unfolding put_value erase_value
log_queues-executed (puts row col val) s = refl
log_queues-executed (cputs row col old new) s = refl
log_queues-executed (deletes row col) s = refl

pub log_sequences-executed : (op : Op) (s : Store) → (executed op s).log_sequences ≡ s.log_sequences
unfolding put_value erase_value
log_sequences-executed (puts row col val) s = refl
log_sequences-executed (cputs row col old new) s = refl
log_sequences-executed (deletes row col) s = refl

pub log_files-executed : (op : Op) (s : Store) → (executed op s).log_files ≡ s.log_files
unfolding put_value erase_value
log_files-executed (puts row col val) s = refl
log_files-executed (cputs row col old new) s = refl
log_files-executed (deletes row col) s = refl
