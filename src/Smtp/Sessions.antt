-- ===== src/Smtp/Sessions.antt =====
-- Every session that `worker` reaches has its recipients in order.
use penn_mail_and_penn_drive.Base.{
  ℕ, zero, suc, ◌+◌, ◌≡◌, refl, subst, inl, inr, Bool, true, false, List, [], ◌∷◌, ◌++◌, ltb, leb,
  if◌then◌else◌, Option-cases, nat_eq, list_eq, pair_eq, length, Outcome, ok, blocked, stopped,
  ◌>>=◌, ok-injective,
}
use penn_mail_and_penn_drive.Base.Text.{Text, codes, find}
use penn_mail_and_penn_drive.Smtp.{
  Session, Stage, new, ready, transaction, mail_data, start_session, answer, reply_ok, c_string,
  reset, handle_instruction,
}
use penn_mail_and_penn_drive.Smtp.Delivery.{
  Services, Letter, helo_line, title_of, message_of, deliver_all, finish_mail, received_dot,
  send_mail, read_data,
}
use penn_mail_and_penn_drive.Smtp.Worker.{
  handle_lines, read_lines, worker_round, worker_loop, worker,
}
use penn_mail_and_penn_drive.Smtp.Recipients.{IsWellFormed, reset-Keeps}
use penn_mail_and_penn_drive.Smtp.Instructions.{
  handle_instruction-Keeps, start_session-IsWellFormed,
}

abbrev itself : Session → Session
itself c = c

abbrev of_pair : {A : Type 0} → Session × A → Session
of_pair (c, a) = c

abbrev of_three : {A B : Type 0} → Session × A × B → Session
of_three (c, a, b) = c

-- Every result has a well-formed session.
abbrev KeepsBy : {A : Type 0} → (A → Session) → Outcome A → Type 0
KeepsBy {A} session m = (r : A) → m ≡ ok r → IsWellFormed (session r)

keeps_result : {A : Type 0} (f : A → Session) (a : A) → IsWellFormed (f a) → KeepsBy f (ok a)
keeps_result f a h r e = subst (λ q. IsWellFormed (f q)) (ok-injective e) h

keeps_then :
    {A B : Type 0} (f : A → Session) (g : B → Session) (m : Outcome A) (k : A → Outcome B)
    → KeepsBy f m
    → ((r : A) → IsWellFormed (f r) → KeepsBy g (k r))
    → KeepsBy g (m >>= k)
keeps_then f g (ok r) k h n = n r (h r refl)
keeps_then f g blocked k h n = λ r e. cc
keeps_then f g stopped k h n = λ r e. cc

keeps_any :
    {A B : Type 0} (g : B → Session) (m : Outcome A) (k : A → Outcome B)
    → ((r : A) → KeepsBy g (k r))
    → KeepsBy g (m >>= k)
keeps_any g (ok r) k n = n r
keeps_any g blocked k n = λ r e. cc
keeps_any g stopped k n = λ r e. cc

handle_lines-Keeps :
    (n : ℕ) (text : Text) (c : Session) → IsWellFormed c → KeepsBy of_pair (handle_lines n text c)
unfolding handle_lines
handle_lines-Keeps zero text c h = λ r e. cc
handle_lines-Keeps (suc n) text c h = elim (Option-cases (find (codes "\r\n") text)) [
  | inl e ↦ rw (handle_lines, e) (keeps_result of_pair (c, text) h)
  | inr (p, e) ↦
      rw (handle_lines, e)
        (keeps_then itself of_pair (handle_instruction (p.0) c) (handle_lines n (p.1))
          (handle_instruction-Keeps (p.0) c h) (λ d w. handle_lines-Keeps n (p.1) d w))
]

keeps_if_first :
    {A : Type 0} (g : A → Session) (b : Bool) (m n : Outcome A)
    → KeepsBy g m
    → KeepsBy g n
    → KeepsBy g (if b then m else n)
keeps_if_first g true m n h k = h
keeps_if_first g false m n h k = k

read_lines-Keeps :
    (chunk buffer : Text) (c : Session)
    → IsWellFormed c
    → KeepsBy of_pair (read_lines chunk (c, buffer))
unfolding read_lines
read_lines-Keeps chunk buffer c h =
    keeps_if_first of_pair (ltb 2000 (length (buffer ++ chunk))) stopped _ (λ r e. cc)
      (handle_lines-Keeps (length (buffer ++ chunk) + 1) (buffer ++ chunk) c h)

module _ {T : Type 0} (services : Services T) where
  finish_mail-Keeps :
      (letter : Letter) (c : Session) (t : T) → KeepsBy of_pair (finish_mail services letter (c, t))
  unfolding finish_mail answer
  finish_mail-Keeps letter c t =
      keeps_any of_pair (deliver_all services c.rcpt_to_buffer_idx c.slots letter (c, t)) _
        (λ (q, u).
          keeps_then itself of_pair (reset q) _ (reset-Keeps q)
            (λ z w. keeps_result of_pair (answer reply_ok z, u) w))

  -- A mail that is sent leaves no recipient behind.
  send_mail-Keeps :
      (current_time : Text) (c : Session) (t : T)
      → KeepsBy of_pair (send_mail services current_time (c, t))
  unfolding send_mail
  send_mail-Keeps current_time c t =
      keeps_any of_pair (title_of c.title (c_string c.data_buffer)) _ (λ (title, external).
        keeps_any of_pair (services.reach (helo_line c ++ codes "\r\n") t) _ (λ u.
          keeps_any of_pair (message_of external (c_string c.data_buffer)) _
            (λ message. finish_mail-Keeps _ (record c { title = title }) u)))

  read_data-Keeps :
      (current_time chunk : Text) (c : Session) (t : T)
      → IsWellFormed c
      → KeepsBy of_pair (read_data services current_time chunk (c, t))
  unfolding read_data
  read_data-Keeps current_time chunk c t h =
      keeps_if_first of_pair (leb 2000 (length (c.data_buffer ++ chunk))) stopped _ (λ r e. cc)
        (keeps_if_first of_pair (received_dot (length c.data_buffer) (c.data_buffer ++ chunk)) _ _
          (send_mail-Keeps current_time (record c { data_buffer = c.data_buffer ++ chunk }) t)
          (keeps_result of_pair (record c { data_buffer = c.data_buffer ++ chunk }, t) h))

  lines_Keeps :
      (chunk buffer : Text) (c : Session) (t : T)
      → IsWellFormed c
      → KeepsBy of_three (read_lines chunk (c, buffer) >>= λ (d, rest). ok (d, rest, t))
  lines_Keeps chunk buffer c t h =
      keeps_then of_pair of_three (read_lines chunk (c, buffer)) _
        (read_lines-Keeps chunk buffer c h) (λ (d, rest) w. keeps_result of_three (d, rest, t) w)

  round_at_stage :
      (current_time chunk buffer : Text) (c : Session) (t : T) (g : Stage)
      → IsWellFormed c
      → KeepsBy of_three (elim g as (λ _. Outcome (Session × Text × T)) [
        | mail_data ↦ read_data services current_time chunk (c, t) >>= λ (d, u). ok (d, buffer, u)
        | _ ↦ read_lines chunk (c, buffer) >>= λ (d, rest). ok (d, rest, t)
      ])
  round_at_stage current_time chunk buffer c t new h = lines_Keeps chunk buffer c t h
  round_at_stage current_time chunk buffer c t ready h = lines_Keeps chunk buffer c t h
  round_at_stage current_time chunk buffer c t transaction h = lines_Keeps chunk buffer c t h
  round_at_stage current_time chunk buffer c t mail_data h =
      keeps_then of_pair of_three (read_data services current_time chunk (c, t)) _
        (read_data-Keeps current_time chunk c t h)
        (λ (d, u) w. keeps_result of_three (d, buffer, u) w)

  worker_round-Keeps :
      (current_time chunk buffer : Text) (c : Session) (t : T)
      → IsWellFormed c
      → KeepsBy of_three (worker_round services current_time chunk (c, buffer, t))
  unfolding worker_round
  worker_round-Keeps current_time chunk buffer c t h =
      round_at_stage current_time chunk buffer c t c.stage h

  worker_loop-Keeps :
      (reads : List (Text × Text)) (c : Session) (buffer : Text) (t : T)
      → IsWellFormed c
      → KeepsBy of_three (worker_loop services reads (c, buffer, t))
  unfolding worker_loop
  worker_loop-Keeps [] c buffer t h = keeps_result of_three (c, buffer, t) h
  worker_loop-Keeps ((current_time, chunk) ∷ reads) c buffer t h =
      keeps_if_first of_three c.close_connection _ _ (keeps_result of_three (c, buffer, t) h) (
        keeps_then of_three of_three (worker_round services current_time chunk (c, buffer, t))
          (worker_loop services reads) (worker_round-Keeps current_time chunk buffer c t h)
          (λ (d, rest, u) w. worker_loop-Keeps reads d rest u w))

  -- Whatever a client sends, the recipients that the index counts are live entries with addresses
  -- that `verify_domain` takes, as the sender's is while a mail is on its way; there is at least one
  -- of them where the data is read, and none before a mail. Nothing bounds their number, as the code
  -- does not test it; what lies behind the array of 100 is taken as harmless here.
  pub worker-IsWellFormed :
      (reads : List (Text × Text)) (table u : T) (c : Session) (buffer : Text)
      → worker services reads table ≡ ok (c, buffer, u)
      → IsWellFormed c
  unfolding worker
  worker-IsWellFormed reads table u c buffer e =
      worker_loop-Keeps reads start_session [] table start_session-IsWellFormed (c, buffer, u) e
