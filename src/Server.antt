-- ===== src/Server.antt =====
-- backend/include/externs.h and backend/src/externs.cpp: the globals of a storage server.
-- Arrays of five are functions of the tablet's number. A file is its text. A socket is the number
-- of its descriptor; `none` is a negative one. What is written to sockets is kept in `sent`.
use penn_mail_and_penn_drive.Base.{ℕ, Bool, List, Option}
use penn_mail_and_penn_drive.Base.Maps.{Map}
use penn_mail_and_penn_drive.Base.Text.{Text}

abbrev pub Key : Type 0
Key = Text × Text

-- `struct transaction`
pub record Transaction : Type 0 where
  pub status : Text
  pub command : Text
  pub hash : Text

-- `struct message_queue`
pub record Message : Type 0 where
  pub fd : Option ℕ
  pub from_frontend : Bool
  pub tpc_success : Text
  pub original_ipport : Text
  pub opt : ℕ
  pub row : Text
  pub col : Text

-- Tablets, their logs and their files. A row lock is present once it was made, and `true` while a
-- writer holds it. `clears` are the threads of `create_clear_thread` that have not run yet.
pub record Store : Type 0 where
  pub table : ℕ → Map Key Text
  pub row_locks : Map Key Bool
  pub active_tablets : ℕ → Bool
  pub checkpointing : ℕ → Bool
  pub recovering : ℕ → Bool
  pub checkpoints : ℕ → ℕ
  pub log_sequences : ℕ → ℕ
  pub log_queues : ℕ → List Text
  pub log_files : ℕ → Text
  pub table_files : ℕ → Text
  pub clears : List ℕ

-- Two-phase commit. `tpc_file` is the text of the TPC log file, and `tpc_pos` the position in it,
-- which reads and writes of a stream share. `queue_locked` is `tpc_queue_lock`.
pub record Tpc : Type 0 where
  pub tpc_queue : Map ℕ Transaction
  pub queue_locked : Bool
  pub last_seq : ℕ
  pub tpc_seq : ℕ
  pub queued_transactions : List ℕ
  pub tpc_responses : Map ℕ (List Text)
  pub tpc_replicas : Map ℕ (List Text)
  pub tpc_start_time : Map ℕ ℕ
  pub tpc_pending : Map ℕ Transaction
  pub primary_recovering : Bool
  pub tpc_file : Text
  pub tpc_pos : ℕ

-- Connections and what is queued for them.
pub record Net : Type 0 where
  pub is_primary : Bool
  pub primary_fd : Option ℕ
  pub partition_fds : List ℕ
  pub alive_replicas : List Text
  pub open_fds : List ℕ
  pub own_ip : Text
  pub primary_port : ℕ
  pub msg_queue : Map Text Message
  pub checkpoint_queue : List (Option ℕ × Text)
  pub checkpoint_acks : ℕ → ℕ
  pub primary_queue : List Text
  pub sent : List (ℕ × Text)

pub record Server : Type 0 where
  pub store : Store
  pub tpc : Tpc
  pub net : Net

-- What the clock, `create_hash` (a hash of the time and the message) and /proc/meminfo give to one
-- call.
pub record Env : Type 0 where
  pub now : ℕ
  pub create_hash : Text → Text
  pub avail_memory : ℕ → ℕ
