-- ===== src/Smtp/Worker.antt =====
-- frontend/smtp_server.cc: the loop of `worker` over what it reads from the mail client.
use penn_mail_and_penn_drive.Base.{
  ℕ, zero, suc, ◌+◌, none, some, List, [], ◌∷◌, ◌++◌, ltb, if◌then◌else◌, nat_eq, list_eq, pair_eq,
  length, Outcome, ok, blocked, stopped, ◌>>=◌,
}
use penn_mail_and_penn_drive.Base.Text.{Text, codes, find}
use penn_mail_and_penn_drive.Smtp.{Session, mail_data, start_session, handle_instruction}
use penn_mail_and_penn_drive.Smtp.Delivery.{Services, read_data}

-- The lines of the buffer one after another, also behind one that closes the connection or starts
-- the data, and what is left behind the last one. `fuel` bounds the number of lines.
unfoldable pub handle_lines : ℕ → Text → Session → Outcome (Session × Text)
unfolding handle_instruction
handle_lines zero text c = blocked
handle_lines (suc fuel) text c = elim (find (codes "\r\n") text) [
  | none ↦ ok (c, text)
  | some (s, rest) ↦ handle_instruction s c >>= handle_lines fuel rest
]

-- `read` of the bytes `chunk` in another stage than `DATA`. The buffer has 2000 bytes.
unfoldable pub read_lines : Text → Session × Text → Outcome (Session × Text)
unfolding handle_lines
read_lines chunk (c, buffer) =
    if ltb 2000 (length (buffer ++ chunk))
    then stopped
    else handle_lines (length (buffer ++ chunk) + 1) (buffer ++ chunk) c

module _ {T : Type 0} (services : Services T) where
  -- One round of the loop, with the time at which it happens and the bytes that are read.
  unfoldable pub worker_round : Text → Text → Session × Text × T → Outcome (Session × Text × T)
  unfolding read_lines read_data
  worker_round current_time chunk (c, buffer, table) = elim c.stage [
    | mail_data ↦ read_data services current_time chunk (c, table) >>= λ (d, u). ok (d, buffer, u)
    | _ ↦ read_lines chunk (c, buffer) >>= λ (d, rest). ok (d, rest, table)
  ]

  -- The rounds until the client ends the connection or `QUIT` closes it.
  unfoldable pub worker_loop :
      List (Text × Text) → Session × Text × T → Outcome (Session × Text × T)
  unfolding worker_round
  worker_loop [] r = ok r
  worker_loop ((current_time, chunk) ∷ reads) (c, buffer, table) =
      if c.close_connection
      then ok (c, buffer, table)
      else (worker_round current_time chunk (c, buffer, table) >>= worker_loop reads)

  unfoldable pub worker : List (Text × Text) → T → Outcome (Session × Text × T)
  unfolding worker_loop start_session
  worker reads table = worker_loop reads (start_session, [], table)
