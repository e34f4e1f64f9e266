-- ===== src/Smtp.antt =====
-- frontend/smtp_server.cc: the state of a mail client's connection and the handling of its
-- instructions.
pub mod Delivery
pub mod Worker
pub mod Addresses
pub mod Recipients
pub mod Instructions
pub mod Reads
pub mod Mails
pub mod Resets
pub mod Sessions
pub mod Splits
pub mod Names
use penn_mail_and_penn_drive.Base.{
  ℕ, zero, suc, ◌+◌, ◌-◌, ◌*◌, ◌/◌, ◌%◌, ◌≤◌, ◌<◌, ◌≡◌, refl, sym, ap, ◌∙◌, subst, ◌≢◌, ◌↔◌, ◌⊎◌,
  inl, inr, Bool, true, false, not, ◌&&◌, ◌||◌, Option, none, some, List, [], ◌∷◌, ◌++◌, map,
  append_assoc, append-nil, arith, ltb, leb, ◌==◌, if◌then◌else◌, ==_iff, Bool-cases, Option-cases,
  Eq, ◌=?◌, nat_eq, list_eq, pair_eq, beq_refl, length, get_elem?, take, drop, length-append,
  drop-append, drop-length, take-append, All, All-append, Outcome, ok, blocked, stopped, ◌>>=◌,
  ◌>>◌, >>=-result, ok-injective, blocked-ne-ok,
}
use penn_mail_and_penn_drive.Base.Text.{
  Text, codes, Lacks, before, after?, after, before_last?, before_last, after_last, starts_with,
  find, has_text, tokens, split, is_digit, is_space, trim_end, to_string, value, atoi, stoi,
}

pub data Stage : Type 0 where
  new ready transaction mail_data : Stage

pub data Instruction : Type 0 where
  helo mail_from rcpt_to data_start quit rset noop title_line unknown : Instruction

-- An entry of `rcpt_to_buffer`. The entries behind those of the list are null.
pub data Slot : Type 0 where
  live : Text → Slot
  freed : Slot

-- The variables of `worker`. A character array is the text in it, without the zeros behind it;
-- `data_buffer_idx` is the length of `data_buffer`. The read buffer stands beside the session.
pub record Session : Type 0 where
  pub stage : Stage
  pub my_name : Text
  pub sender : Text
  pub slots : List Slot
  pub rcpt_to_buffer_idx : ℕ
  pub data_buffer : Text
  pub title : Text
  pub close_connection : Bool
  pub replies : List Text

abbrev pub greeting : Text
greeting = codes "220 localhost Simple Mail Transfer Service Ready\r\n"

unfoldable pub start_session : Session
start_session = record {
  stage = new;
  my_name = [];
  sender = [];
  slots = [];
  rcpt_to_buffer_idx = 0;
  data_buffer = [];
  title = [];
  close_connection = false;
  replies = greeting ∷ [];
}

-- A character array as a C string.
abbrev pub c_string : Text → Text
c_string = before 0

unfoldable pub answer : Text → Session → Session
answer reply s = record s { replies = s.replies ++ reply ∷ [] }

abbrev pub reply_ok : Text
reply_ok = codes "250 OK\r\n"

-- Something stands in front of the first `@`, and something behind it.
unfoldable pub verify_domain : Text → Bool
unfolding after?
verify_domain address = elim (after? b'@' address) [
  | none ↦ false
  | some rest ↦ not (address =? b'@' ∷ rest) && not (rest =? [])
]

abbrev upper : ℕ → ℕ
upper c = if leb b'a' c && leb c b'z' then c - 32 else c

-- `strncasecmp(instruction, p, n) == 0`, with `n` the length of `p`, which is in upper case
unfoldable pub starts_case : Text → Text → Bool
starts_case [] s = true
starts_case (y ∷ p) [] = false
starts_case (y ∷ p) (x ∷ s) = upper x == y && starts_case p s

four_letters : Text → Instruction
unfolding starts_case
four_letters s =
    if starts_case (codes "QUIT") s
    then quit
    else if starts_case (codes "DATA") s
    then data_start
    else if starts_case (codes "RSET") s
    then rset
    else if starts_case (codes "NOOP") s
    then noop
    else unknown

unfoldable pub identify_instruction : Text → Instruction
unfolding four_letters starts_case
identify_instruction s =
    if length s == 4
    then four_letters s
    else if ltb 5 (length s) && starts_case (codes "HELO ") s
    then helo
    else if ltb 5 (length s) && starts_case (codes "TITLE ") s
    then title_line
    else if ltb 8 (length s) && starts_case (codes "RCPT TO:") s
    then rcpt_to
    else if ltb 10 (length s) && starts_case (codes "MAIL FROM:") s
    then mail_from
    else unknown

-- An instruction that the stage does not take.
unfoldable pub refuse : Instruction → Session → Session
unfolding answer
refuse unknown s = answer (codes "500 Syntax error, command unrecognized\r\n") s
refuse _ s = answer (codes "503 Bad sequence of commands\r\n") s

-- `free` on every entry that is not null. The entries stay, so that a second time frees them
-- again.
unfoldable pub free_slots : List Slot → Outcome (List Slot)
free_slots [] = ok []
free_slots (live recipient ∷ slots) = free_slots slots >>= λ rest. ok (freed ∷ rest)
free_slots (freed ∷ slots) = stopped

-- The state `READY` with cleared counters and buffers: after `RSET` and after a mail.
unfoldable pub reset : Session → Outcome Session
unfolding free_slots
reset s = free_slots s.slots >>= λ slots. ok (record s {
  stage = ready;
  rcpt_to_buffer_idx = 0;
  my_name = [];
  sender = [];
  data_buffer = [];
  slots = slots;
})

abbrev closing_reply : Text
closing_reply = codes "221 <localhost> Service closing transmission channel\r\n"

-- The name and a zero at the index `instruction_size + 1` have to fit into 129 bytes.
unfoldable pub handle_new : Instruction → Text → Session → Outcome Session
unfolding answer refuse
handle_new helo s c =
    if ltb 126 (length s)
    then stopped
    else ok (
        answer (codes "250 localhost\r\n")
          (record c { my_name = c_string (drop 5 s); stage = ready }))
handle_new code s c = ok (refuse code c)

-- What both states do with `RSET`, `QUIT`, `NOOP` and instructions they do not take.
unfoldable pub handle_common : Instruction → Session → Outcome Session
unfolding answer refuse reset
handle_common rset c = reset c >>= λ r. ok (answer reply_ok r)
handle_common quit c = ok (answer closing_reply (record c { close_connection = true }))
handle_common noop c = ok (answer reply_ok c)
handle_common code c = ok (refuse code c)

abbrev not_bound : Text
not_bound = codes "500 Syntax error, spaces between : and < or domain not bound in <>\r\n"

-- `instruction[n] == '<'`
abbrev pub is_bound : ℕ → Text → Bool
is_bound n s = elim (get_elem? s n) [ none ↦ false | some x ↦ x == b'<' ]

-- The address in `<>` behind the first `n` bytes. `temp_buffer` has 129 bytes, one for the zero.
unfoldable pub bound_address : ℕ → Text → Outcome Text
bound_address n s =
    let address = before b'>' (drop (n + 1) s) in
    if ltb 128 (length address) then stopped else ok (c_string address)

unfoldable pub handle_mail_from : Text → Session → Outcome Session
unfolding answer bound_address verify_domain
handle_mail_from s c =
    if is_bound 10 s
    then (bound_address 10 s >>= λ address.
        if verify_domain address
        then ok (answer reply_ok (record c { sender = address; stage = transaction }))
        else ok (answer (codes "500 Syntax error, domain must follow the format *@*\r\n") c))
    else ok (answer not_bound c)

unfoldable pub handle_ready : Instruction → Text → Session → Outcome Session
unfolding handle_mail_from handle_common
handle_ready mail_from s c = handle_mail_from s c
handle_ready code s c = handle_common code c

-- `rcpt_to_buffer[i] = …`
unfoldable pub set_slot : ℕ → Slot → List Slot → List Slot
set_slot i slot [] = slot ∷ []
set_slot zero slot (x ∷ slots) = slot ∷ slots
set_slot (suc i) slot (x ∷ slots) = x ∷ set_slot i slot slots

-- There is room for 100 recipients, which nothing tests: the code writes on, and the list here
-- grows. Each address is written with its zero into a block one byte too short.
unfoldable pub add_recipient : Text → Session → Session
unfolding set_slot
add_recipient address c = record c {
  slots = set_slot c.rcpt_to_buffer_idx (live address) c.slots;
  rcpt_to_buffer_idx = suc c.rcpt_to_buffer_idx;
}

unfoldable pub handle_rcpt_to : Text → Session → Outcome Session
unfolding answer bound_address verify_domain add_recipient
handle_rcpt_to s c =
    if is_bound 8 s
    then (bound_address 8 s >>= λ address.
        if verify_domain address
        then ok (answer reply_ok (add_recipient address c))
        else ok (answer (codes "550 Requested action not taken: domain syntax incorrect\r\n") c))
    else ok (answer not_bound c)

unfoldable pub handle_data_start : Session → Session
unfolding answer
handle_data_start c =
    if ltb c.rcpt_to_buffer_idx 1
    then answer (codes "503 Bad sequence of commands, please specify at least 1 recipient\r\n") c
    else answer (codes "354 Start mail input, end with <CRLF>.<CRLF>\r\n")
        (record c { stage = mail_data })

unfoldable pub handle_transaction : Instruction → Text → Session → Outcome Session
unfolding handle_rcpt_to handle_data_start handle_common answer
handle_transaction rcpt_to s c = handle_rcpt_to s c
handle_transaction title_line s c = ok (answer reply_ok (record c { title = drop 6 (c_string s) }))
handle_transaction data_start s c = ok (handle_data_start c)
handle_transaction code s c = handle_common code c

-- In the stage `DATA` an instruction that stands in the buffer is dropped.
unfoldable pub handle_instruction : Text → Session → Outcome Session
unfolding handle_new handle_ready handle_transaction identify_instruction
handle_instruction s c = elim c.stage [
  | new ↦ handle_new (identify_instruction s) s c
  | ready ↦ handle_ready (identify_instruction s) s c
  | transaction ↦ handle_transaction (identify_instruction s) s c
  | mail_data ↦ ok c
]
