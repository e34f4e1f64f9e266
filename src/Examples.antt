-- ===== src/Examples.antt =====
-- Runs of the server's functions on small stores.
pub mod Transactions
pub mod Messages
pub mod Texts
pub mod Mails
pub mod Files
pub mod Backed
pub mod Stored
pub mod Mailboxes
pub mod Accounts
pub mod Logins
pub mod Silences
pub mod Tablets
pub mod Pages
pub mod Addresses
pub mod Polls
pub mod Titles
use penn_mail_and_penn_drive.Base.{
  ℕ, ◌≡◌, refl, [], ◌∷◌, none, some, true, false, Outcome, ok, blocked, ◌>>=◌, ◌+◌, ◌++◌, inl, inr,
  arith, nat_eq, list_eq, pair_eq,
}
use penn_mail_and_penn_drive.Base.Maps.{
  lookup, insert, update, has, contains, erase, insert_ordered, add,
}
use penn_mail_and_penn_drive.Base.Text.{Text, codes, find, split, to_string, stoi}
use penn_mail_and_penn_drive.Server.{Store, Tpc, Net, Server, Env, Transaction}
use penn_mail_and_penn_drive.Command.{space, newline, get_tablet}
use penn_mail_and_penn_drive.Store.{
  get_command_locks, execute_command, parsing_logic, make_lock, unlock, put_value, join_values, get,
  behind,
}
use penn_mail_and_penn_drive.Store.Ops.{Op, puts, cputs, print, key, executed, IsPlain}
use penn_mail_and_penn_drive.Store.Execute.{execute-print}
use penn_mail_and_penn_drive.Store.Replay.{Replays, parsing_logic-print}
use penn_mail_and_penn_drive.Store.Locks.{
  SameButLocks, get_command_locks-SameButLocks, LocksOnce, get_command_locks-once,
}
use penn_mail_and_penn_drive.Wal.{
  mark, log_line, log_message, flush_log, replay_entry, recover_lines, recover_table,
}
use penn_mail_and_penn_drive.Wal.Entries.{recover-log_line}
use penn_mail_and_penn_drive.Wal.History.{Runs, History, nothing, next}
use penn_mail_and_penn_drive.Wal.Crash.{recover_table-History}

abbrev pub empty_store : Store
empty_store = record {
  table = λ t. [];
  row_locks = [];
  active_tablets = λ t. true;
  checkpointing = λ t. false;
  recovering = λ t. false;
  checkpoints = λ t. 1;
  log_sequences = λ t. 0;
  log_queues = λ t. [];
  log_files = λ t. codes "1\n";
  table_files = λ t. [];
  clears = [];
}

abbrev pub letter : Op
letter = puts (codes "ada") (codes "mail") (codes "hello\nthere")

get_tablet_ada : get_tablet (codes "ada") ≡ 4
unfolding get_tablet
get_tablet_ada = refl

pub letter-IsPlain : IsPlain letter
letter-IsPlain = (omega arith, omega arith, omega arith)

abbrev edit : Op
edit = cputs (codes "ada") (codes "mail") (codes "hello\nthere") (codes "bye")

edit-IsPlain : IsPlain edit
unfolding find
edit-IsPlain = (omega arith, omega arith, refl)

abbrev locked : Op → Store → Store
locked op s = (get_command_locks (print op) s).1

abbrev after_letter : Store
after_letter = executed letter (log_message (print letter) 1 4 (locked letter empty_store))

abbrev after_edit : Store
after_edit = executed edit (log_message (print edit) 2 4 (locked edit after_letter))

letter-Runs : Runs 4 letter 1 empty_store after_letter
unfolding get_tablet get_command_locks find log_message execute_command split lookup make_lock
    insert unlock put_value join_values get behind update
letter-Runs = record {
  plain = letter-IsPlain;
  ready = tt;
  no_mark = refl;
  own = refl;
  locked = refl;
  runs = refl;
}

edit-Runs : Runs 4 edit 2 after_letter after_edit
unfolding get_tablet get_command_locks find log_message execute_command split lookup make_lock
    insert unlock put_value join_values get behind update
edit-Runs = record {
  plain = edit-IsPlain;
  ready = refl;
  no_mark = refl;
  own = refl;
  locked = refl;
  runs = refl;
}

abbrev restarted : Store
restarted = record empty_store { log_files = (flush_log 4 after_edit).log_files }

recover_table-History_example :
    (a : Store) × (recover_table 4 restarted ≡ ok a)
    × (a.table 4 ≡ after_edit.table 4)
    × (a.log_sequences 4 ≡ 0 + 2)
    × (a.checkpoints 4 ≡ 1)
unfolding to_string
recover_table-History_example =
    recover_table-History 4 1 empty_store after_edit restarted ((letter, 1) ∷ (edit, 2) ∷ []) refl
      refl (next letter-Runs (next edit-Runs (nothing after_edit))) refl refl refl

execute-print_example :
    execute_command (print letter) (locked letter empty_store)
    ≡ ok (executed letter (locked letter empty_store))
unfolding get_command_locks lookup split make_lock insert
execute-print_example = execute-print letter (locked letter empty_store) true letter-IsPlain tt refl

parsing_logic-print_example : Replays letter empty_store (parsing_logic (print letter) empty_store)
parsing_logic-print_example = parsing_logic-print letter empty_store letter-IsPlain tt refl

locks_only : SameButLocks empty_store (locked letter empty_store)
locks_only = get_command_locks-SameButLocks (print letter) empty_store

get_command_locks-once_example :
    LocksOnce (key letter) false empty_store (get_command_locks (print letter) empty_store)
unfolding lookup
get_command_locks-once_example = get_command_locks-once letter empty_store letter-IsPlain

letter_read_back :
    recover_lines 4 none
      (split newline ((log_line 1 (print letter) 7 ++ mark) ++ newline ∷ []))
      empty_store
    ≡ (replay_entry ((print letter ++ space ∷ to_string 7) ++ mark) 4 empty_store
        >>= recover_lines 4 none (split newline []))
unfolding find
letter_read_back = recover-log_line 4 1 7 (print letter) [] empty_store refl
