-- ===== src/Examples/Mails.antt =====
-- A mail client's connection, with a table that is a map.
use penn_mail_and_penn_drive.Base.{
  ℕ, ◌+◌, ◌<◌, ◌≡◌, refl, ap, ◌∙◌, Bool, true, false, ◌&&◌, Option, none, some, List, [], ◌∷◌, ◌++◌,
  arith, if◌then◌else◌, ◌=?◌, nat_eq, list_eq, pair_eq, length, get_elem?, Outcome, ok, blocked,
  stopped, ◌>>=◌,
}
use penn_mail_and_penn_drive.Base.Text.{Text, codes, is_space, has_text, before, find}
use penn_mail_and_penn_drive.Base.Maps.{Map, lookup, insert, lookup-insert}
use penn_mail_and_penn_drive.Coordinator.Requests.{frontend_message}
use penn_mail_and_penn_drive.Smtp.{
  Session, ready, transaction, live, start_session, handle_instruction, verify_domain,
}
use penn_mail_and_penn_drive.Smtp.Recipients.{IsWellFormed}
use penn_mail_and_penn_drive.Smtp.Delivery.{
  Services, Letter, no_such_cell, helo_line, deliver_all, more_eids, deliver_one, finish_mail,
  read_data,
}
use penn_mail_and_penn_drive.Smtp.Worker.{read_lines, worker_loop, worker}
use penn_mail_and_penn_drive.Smtp.Splits.{worker_loop-append}
use penn_mail_and_penn_drive.Smtp.Reads.{read_lines-append, read_data_late}
use penn_mail_and_penn_drive.Smtp.Resets.{rset_twice}
use penn_mail_and_penn_drive.Smtp.Mails.{IsTable, IsStored, deliver_all-IsStored}
use penn_mail_and_penn_drive.Smtp.Names.{finish_mail-stops}
use penn_mail_and_penn_drive.Smtp.Sessions.{worker-IsWellFormed}
use penn_mail_and_penn_drive.Examples.Messages.{coordinator}

abbrev pub Cells : Type 0
Cells = Map (Text × Text) Text

abbrev pub cell_of : Cells → Text → Text → Text
cell_of t row col = elim (lookup (row, col) t) [ none ↦ no_such_cell | some v ↦ v ]

abbrev services : Services Cells
services = record {
  reach = λ line t. ok t;
  bend_get = λ row col t. (cell_of t row col, t);
  bend_put = λ row col val t. (codes "+OK", insert (row, col) val t);
  compute_hash_16 = λ s. codes "0f";
}

cells-IsTable : IsTable services
cells-IsTable = record {
  cell = cell_of;
  get_cell = λ row col t key. refl;
  put_cell = λ row col val row' col' t taken.
      ap (λ o. elim o [ none ↦ no_such_cell | some v ↦ v ])
        (lookup-insert (row, col) (row', col') val t)
      ∙ either ((row =? row') && (col =? col')) val (lookup (row', col') t);
}
  where
    either :
        (b : Bool) (v : Text) (o : Option Text)
        → (elim (if b then some v else o) [ none ↦ no_such_cell | some v ↦ v ])
          ≡ (if b then v else (elim o [ none ↦ no_such_cell | some v ↦ v ]))
    either true v o = refl
    either false v o = refl

abbrev pub hello : Session
hello = record start_session { stage = ready; my_name = codes "ada@penn" }

abbrev pub sending : Session
sending = record hello {
  stage = transaction;
  sender = codes "ada@penn";
  slots = live (codes "bob@penn") ∷ [];
  rcpt_to_buffer_idx = 1;
}

abbrev pub mail : Letter
mail = record { hash = codes "0f"; email_string = codes "hi"; external = false }

abbrev lines : Outcome (Session × Text) → List Text
lines (ok (c, rest)) = c.replies
lines blocked = []
lines stopped = []

-- The first instructions of a client, in one read.
first_replies :
    lines (
      read_lines
        (codes "NOOP\r\nHELO ada@penn\r\nMAIL FROM:<ada>\r\nrset\r\nQUI")
        (start_session, []))
    ≡ codes "220 localhost Simple Mail Transfer Service Ready\r\n"
      ∷ codes "503 Bad sequence of commands\r\n"
      ∷ codes "250 localhost\r\n"
      ∷ codes "500 Syntax error, domain must follow the format *@*\r\n"
      ∷ codes "250 OK\r\n"
      ∷ []
unfolding read_lines find start_session before
first_replies = refl

two_reads :
    read_lines (codes "HELO ada\r\n" ++ codes "NOOP\r\n") (start_session, [])
    ≡ (read_lines (codes "HELO ada\r\n") (start_session, []) >>= read_lines (codes "NOOP\r\n"))
two_reads =
    read_lines-append (codes "HELO ada\r\n") (codes "NOOP\r\n") [] start_session (omega arith)

abbrev session_of_lines : Outcome (Session × Text) → Session
session_of_lines (ok (c, rest)) = c
session_of_lines blocked = start_session
session_of_lines stopped = start_session

-- The loop with `HELO` and half a line behind it in the first of two reads.
worker_loop-append_example :
    worker_loop services
      (([], codes "HELO ada\r\nNO" ++ codes "OP\r\n") ∷ [])
      (start_session, [], [])
    ≡ worker_loop services
        (([], codes "HELO ada\r\nNO") ∷ ([], codes "OP\r\n") ∷ [])
        (start_session, [], [])
unfolding read_lines find start_session before
worker_loop-append_example =
    worker_loop-append services [] [] [] (codes "HELO ada\r\nNO") (codes "OP\r\n") [] (codes "NO")
      [] start_session (session_of_lines (read_lines (codes "HELO ada\r\nNO") (start_session, [])))
      [] (omega arith) (λ e. cc) refl refl (λ e. cc) refl

late_dot :
    read_data services []
      (codes "\n")
      (record sending { data_buffer = codes "hi" ++ codes "\r\n.\r" }, [])
    ≡ ok (record sending { data_buffer = (codes "hi" ++ codes "\r\n.\r") ++ codes "\n" }, [])
late_dot = read_data_late services [] (codes "hi") sending [] (omega arith)

abbrev session_of : Outcome Session → Session
session_of (ok c) = c
session_of blocked = start_session
session_of stopped = start_session

second_rset :
    handle_instruction (codes "RSET") (session_of (handle_instruction (codes "RSET") sending))
    ≡ stopped
unfolding handle_instruction
second_rset =
    rset_twice sending (session_of (handle_instruction (codes "RSET") sending)) refl (λ e. cc) refl

delivered_to_bob :
    (d : Session) × (u : Cells) × (deliver_all services 1
        (live (codes "bob@penn") ∷ [])
        mail
        (sending, [])
      ≡ ok (d, u))
    × (length d.replies ≡ length sending.replies + 1)
    × ((i : ℕ) (a : Text)
        → i < 1
        → get_elem? (live (codes "bob@penn") ∷ []) i ≡ some (live a)
        → IsStored services cells-IsTable mail u a)
unfolding verify_domain has_text find is_space lookup more_eids deliver_one cells-IsTable
delivered_to_bob =
    deliver_all-IsStored services cells-IsTable mail 1 (live (codes "bob@penn") ∷ []) sending []
      (λ e. cc) refl ((refl, refl), tt)

abbrev after_mail : Outcome (Session × Cells) → Session × Cells
after_mail (ok r) = r
after_mail blocked = (start_session, [])
after_mail stopped = (start_session, [])

stopped_mail :
    frontend_message 2 [] 7
      (helo_line (after_mail (finish_mail services mail (sending, []))).0)
      coordinator
    ≡ stopped
unfolding finish_mail
stopped_mail =
    finish_mail-stops services mail sending (after_mail (finish_mail services mail (sending, []))).0
      [] (after_mail (finish_mail services mail (sending, []))).1 2 [] 7 coordinator refl

abbrev at_end : Outcome (Session × Text × Cells) → Session × Text × Cells
at_end (ok r) = r
at_end blocked = (start_session, [], [])
at_end stopped = (start_session, [], [])

abbrev typed : List (Text × Text)
typed =
    ([], codes "HELO ada@penn\r\nMAIL FROM:<ada@penn>\r\n")
    ∷ ([], codes "RCPT TO:<bob@penn>\r\nDATA\r\n")
    ∷ []

worker-IsWellFormed_example : IsWellFormed (at_end (worker services typed [])).0
unfolding worker find before
worker-IsWellFormed_example =
    worker-IsWellFormed services typed [] (at_end (worker services typed [])).2
      (at_end (worker services typed [])).0 (at_end (worker services typed [])).1 refl
