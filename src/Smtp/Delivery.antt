-- ===== src/Smtp/Delivery.antt =====
-- frontend/smtp_server.cc: a mail that is complete is put into the table, once for each recipient.
use penn_mail_and_penn_drive.Base.{
  ℕ, zero, suc, ◌-◌, Bool, true, false, not, ◌&&◌, none, some, List, [], ◌∷◌, ◌++◌, ltb, leb,
  if◌then◌else◌, ◌=?◌, nat_eq, list_eq, pair_eq, length, take, drop, Outcome, ok, stopped, ◌>>=◌,
}
use penn_mail_and_penn_drive.Base.Text.{Text, codes, before, after?, starts_with, find, has_text}
use penn_mail_and_penn_drive.Base.Maps.{Map}
use penn_mail_and_penn_drive.Frontend.Bytes.{stobs}
use penn_mail_and_penn_drive.Frontend.Json.{map_to_json}
use penn_mail_and_penn_drive.Smtp.{Session, Slot, live, freed, c_string, answer, reply_ok, reset}

-- What `worker` calls: the storage servers behind their sockets, and the digest of OpenSSL.
-- `reach` stands for the coordinator's answer to the `HELO` and the connection to the server that
-- it names.
pub record Services (T : Type 0) : Type 0 where
  pub reach : Text → T → Outcome T
  pub bend_get : Text → Text → T → Text × T
  pub bend_put : Text → Text → Text → T → Text × T
  pub compute_hash_16 : Text → Text

-- What is written into the table for one mail.
pub record Letter : Type 0 where
  pub hash : Text
  pub email_string : Text
  pub external : Bool

abbrev pub eid_vector : Text
eid_vector = codes "eid_vector"

abbrev pub no_such_cell : Text
no_such_cell = codes "-ERR 204 specific row and column does not exist."

-- The identifiers of a recipient's mails, with one more.
unfoldable pub more_eids : Text → Text → Text
more_eids eids hash = if eids =? no_such_cell then hash else eids ++ b',' ∷ hash

-- `status.rfind("+OK") == 0`: the last one stands at the start.
unfoldable pub is_ok : Text → Bool
is_ok status = starts_with (codes "+OK") status && not (has_text (codes "+OK") (drop 1 status))

unfoldable pub delivery_reply : Bool → Bool → Text → Text
delivery_reply true true recipient = reply_ok
delivery_reply true false recipient =
    codes "550 Requested action not taken: mailbox unavailable\r\n"
delivery_reply false true recipient = codes "+OK " ++ (recipient ++ codes "\r\n")
delivery_reply false false recipient = codes "-ERR " ++ (recipient ++ codes "\r\n")

-- `substr(find("\r\n\r\n") + 4)`; `npos + 4` is 3.
unfoldable pub behind_blank_line : Text → Text
behind_blank_line text = elim (find (codes "\r\n\r\n") text) [
  | none ↦ drop 3 text
  | some (_, b) ↦ b
]

-- The text of a mail from a mail client: what stands behind the first blank line, without the
-- last line. Where fewer than 5 bytes are left, `pop_back` meets an empty text.
unfoldable pub external_message : Text → Outcome Text
unfolding behind_blank_line
external_message text =
    let rest = behind_blank_line text in
    if ltb (length rest) 5 then stopped else ok (take (length rest - 5) rest)

unfoldable pub message_of : Bool → Text → Outcome Text
unfolding external_message
message_of true text = external_message text
message_of false text = ok (take (length text - 5) text)

-- The subject of a mail from a mail client. Without the header or the line's end the search runs
-- out of the buffer.
unfoldable pub subject_of : Text → Outcome Text
subject_of text = elim (find (codes "Subject: ") text) [
  | none ↦ stopped
  | some (_, b) ↦ elim (after? b'\r' b) [ none ↦ stopped | some _ ↦ ok (before b'\r' b) ]
]

-- The title that was given, or that of the mail itself, and whether it is the mail's.
unfoldable pub title_of : Text → Text → Outcome (Text × Bool)
unfolding subject_of
title_of [] text = subject_of text >>= λ title. ok (title, true)
title_of (x ∷ title) text = ok (x ∷ title, false)

-- `current_time` is the text of `ctime`, with a line end, which is cut off.
unfoldable pub digest_text : Text → Text → Text → Text
digest_text sender title current_time =
    sender ++ b'|' ∷ (title ++ b'|' ∷ take (length current_time - 1) current_time)

-- The entries of the mail. The source's `unordered_map` leaves their order open.
unfoldable pub email_map : Text → Text → Text → Text → Map Text Text
email_map sender title current_time message =
    (codes "sender", sender)
    ∷ (codes "subject", title)
    ∷ (codes "timestamp", take (length current_time - 1) current_time)
    ∷ (codes "message", message)
    ∷ []

-- What the coordinator is asked, without the line end.
unfoldable pub helo_line : Session → Text
helo_line c = codes "HELO passwd " ++ c.my_name

-- The terminator is sought from two bytes in front of what was read last, which begins at `idx`.
unfoldable pub received_dot : ℕ → Text → Bool
received_dot idx text = has_text (codes "\r\n.\r\n") (drop (idx - 2) text)

module _ {T : Type 0} (services : Services T) where
  -- The identifier is added first, then the mail is stored under it.
  unfoldable pub deliver_one : Letter → Text → T → Text × T
  unfolding more_eids is_ok delivery_reply
  deliver_one letter recipient table =
      let (eids, t) = services.bend_get recipient eid_vector table in
      let (_, u) = services.bend_put recipient eid_vector (more_eids eids letter.hash) t in
      let (status, v) = services.bend_put recipient letter.hash letter.email_string u in
      (delivery_reply letter.external (is_ok status) recipient, v)

  -- The entries of `rcpt_to_buffer` up to the index; a freed or null one is read after its end.
  unfoldable pub deliver_all : ℕ → List Slot → Letter → Session × T → Outcome (Session × T)
  unfolding deliver_one answer
  deliver_all zero slots letter r = ok r
  deliver_all (suc n) [] letter r = stopped
  deliver_all (suc n) (freed ∷ slots) letter r = stopped
  deliver_all (suc n) (live recipient ∷ slots) letter (c, table) =
      let (reply, t) = deliver_one letter recipient table in
      deliver_all n slots letter (answer reply c, t)

  -- Every recipient gets the mail; then the session starts anew.
  unfoldable pub finish_mail : Letter → Session × T → Outcome (Session × T)
  unfolding deliver_all reset answer
  finish_mail letter (c, table) = do
    (r, u) ← deliver_all c.rcpt_to_buffer_idx c.slots letter (c, table)
    z ← reset r
    ok (answer reply_ok z, u)

  -- The mail's data is complete.
  unfoldable pub send_mail : Text → Session × T → Outcome (Session × T)
  unfolding title_of digest_text message_of email_map stobs map_to_json helo_line finish_mail
  send_mail current_time (c, table) = do
    (title, external) ← title_of c.title (c_string c.data_buffer)
    t ← services.reach (helo_line c ++ codes "\r\n") table
    message ← message_of external (c_string c.data_buffer)
    finish_mail
        (record {
          hash = services.compute_hash_16 (digest_text c.sender title current_time);
          email_string = stobs (map_to_json (email_map c.sender title current_time message));
          external = external;
        })
        (record c { title = title }, t)

  -- `read` of the bytes `chunk` in the stage `DATA`. The buffer has 2000 bytes, one for a zero.
  unfoldable pub read_data : Text → Text → Session × T → Outcome (Session × T)
  unfolding send_mail received_dot
  read_data current_time chunk (c, table) =
      let r = record c { data_buffer = c.data_buffer ++ chunk } in
      if leb 2000 (length r.data_buffer)
      then stopped
      else if received_dot (length c.data_buffer) r.data_buffer
      then send_mail current_time (r, table)
      else ok (r, table)
