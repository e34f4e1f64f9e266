-- ===== src/Smtp/Reads.antt =====
-- How a client's bytes are split over reads.
use penn_mail_and_penn_drive.Base.{
  ℕ, zero, suc, ◌+◌, ◌-◌, ◌≤◌, ◌<◌, ◌≡◌, refl, sym, ap, ◌∙◌, subst, true, false, some, [], ◌∷◌,
  ◌++◌, append_assoc, arith, leb, ltb, if◌then◌else◌, Option, none, nat_eq, list_eq, pair_eq,
  length, drop, length-append, drop-append, Outcome, ok, stopped, bind_eq, ◌>>=◌,
}
use penn_mail_and_penn_drive.Base.Text.{Text, codes, starts_with, find, has_text}
use penn_mail_and_penn_drive.Base.Reads.{each_line, receive, receive-append, receive_rest}
use penn_mail_and_penn_drive.Smtp.{Session, handle_instruction}
use penn_mail_and_penn_drive.Smtp.Delivery.{Services, received_dot, read_data}
use penn_mail_and_penn_drive.Smtp.Worker.{handle_lines, read_lines}

handle_lines-each_line :
    (n : ℕ) (text : Text) (c : Session)
    → handle_lines n text c ≡ each_line handle_instruction n text c
unfolding handle_lines each_line
handle_lines-each_line zero text c = refl
handle_lines-each_line (suc n) text c = go (find (codes "\r\n") text) (handle_lines-each_line n)
  where
    go :
        (o : Option (Text × Text))
        → ((rest : Text) (d : Session)
            → handle_lines n rest d ≡ each_line handle_instruction n rest d)
        → (elim o as (λ _. Outcome (Session × Text)) [
          | none ↦ ok (c, text)
          | some (s, rest) ↦ handle_instruction s c >>= handle_lines n rest
        ])
          ≡ (elim o as (λ _. Outcome (Session × Text)) [
            | none ↦ ok (c, text)
            | some (s, rest) ↦ handle_instruction s c >>= each_line handle_instruction n rest
          ])
    go none h = refl
    go (some (s, rest)) h =
        bind_eq (handle_instruction s c) (handle_lines n rest) (each_line handle_instruction n rest)
          (λ d _. h rest d)

read_lines-receive :
    (chunk buffer : Text) (c : Session)
    → length (buffer ++ chunk) ≤ 2000
    → read_lines chunk (c, buffer) ≡ receive handle_instruction chunk (c, buffer)
unfolding read_lines receive
read_lines-receive chunk buffer c h =
    fits (length (buffer ++ chunk)) h
    ∙ handle_lines-each_line (length (buffer ++ chunk) + 1) (buffer ++ chunk) c
  where
    fits :
        (n : ℕ)
        → n ≤ 2000
        → (if ltb 2000 n
            then stopped
            else handle_lines (length (buffer ++ chunk) + 1) (buffer ++ chunk) c)
          ≡ handle_lines (length (buffer ++ chunk) + 1) (buffer ++ chunk) c
    fits n h = ground (arith, h)

-- The lines of two parts, handled one part after the other, give the same session, replies and rest
-- as those of both at once, or stop where they do, if the buffer has room for all of it. Between two
-- reads `worker` looks at the connection and the stage, which this does not.
pub read_lines-append :
    (a b buffer : Text) (c : Session)
    → length buffer + length a + length b ≤ 2000
    → read_lines (a ++ b) (c, buffer) ≡ (read_lines a (c, buffer) >>= read_lines b)
read_lines-append a b buffer c h =
    let one = length-append buffer a in
    read_lines-receive (a ++ b) buffer c
      (omega (arith, length-append buffer (a ++ b), length-append a b))
    ∙ receive-append handle_instruction a b buffer c
    ∙ bind_eq (receive handle_instruction a (c, buffer)) (receive handle_instruction b)
        (read_lines b)
        (λ (d, rest) e.
          let less = receive_rest handle_instruction a buffer c d rest e in
          sym (read_lines-receive b rest d (omega (arith, less, one, length-append rest b))))
    ∙ sym (ap (λ m. m >>= read_lines b) (read_lines-receive a buffer c (omega (arith, one))))

pub has_text-append : (p a b : Text) → has_text p b ≡ true → has_text p (a ++ b) ≡ true
unfolding has_text find
has_text-append p [] b h = h
has_text-append p (x ∷ a) b h = ground (arith, has_text-append p a b h)

drop-suffix : (n : ℕ) (a b : Text) → n ≤ length a → drop n (a ++ b) ≡ drop n a ++ b
drop-suffix zero a b h = refl
drop-suffix (suc n) [] b h = absurd (omega arith)
drop-suffix (suc n) (x ∷ a) b h = drop-suffix n a b (omega arith)

abbrev pub terminator : Text
terminator = codes "\r\n.\r\n"

-- A terminator that comes in one read is seen, whatever stood before it.
pub received_dot-chunk :
    (text chunk : Text)
    → has_text terminator chunk ≡ true
    → received_dot (length text) (text ++ chunk) ≡ true
unfolding received_dot
received_dot-chunk text chunk h =
    subst (λ t. has_text terminator t ≡ true)
      (sym (drop-suffix (length text - 2) text chunk (omega arith)))
      (has_text-append terminator (drop (length text - 2) text) chunk h)

late_drop :
    (a : Text)
    → drop (length (a ++ codes "\r\n.\r") - 2) ((a ++ codes "\r\n.\r") ++ codes "\n")
      ≡ codes ".\r\n"
late_drop a =
    subst (λ n. drop n ((a ++ codes "\r\n.\r") ++ codes "\n") ≡ codes ".\r\n")
      (omega (arith, length-append a (codes "\r\n.\r"), length-append a (codes "\r\n")))
      (subst (λ t. drop (length (a ++ codes "\r\n")) t ≡ codes ".\r\n")
        (append_assoc a (codes "\r\n") (codes ".\r\n")
          ∙ sym (append_assoc a (codes "\r\n.\r") (codes "\n")))
        (drop-append (a ++ codes "\r\n") (codes ".\r\n")))

late_dot :
    (a : Text)
    → received_dot (length (a ++ codes "\r\n.\r")) ((a ++ codes "\r\n.\r") ++ codes "\n") ≡ false
unfolding received_dot
late_dot a =
    subst (λ t. has_text terminator t ≡ false) (sym (late_drop a))
      (unfold has_text find starts_with in refl)

-- A terminator whose last byte comes in a read of its own is not seen: the mail is not sent, and
-- the client gets no answer. The data has to fit into the buffer.
pub read_data_late :
    {T : Type 0} (services : Services T) (current_time a : Text) (c : Session) (table : T)
    → length a + 5 < 2000
    → read_data services current_time
        (codes "\n")
        (record c { data_buffer = a ++ codes "\r\n.\r" }, table)
      ≡ ok (record c { data_buffer = (a ++ codes "\r\n.\r") ++ codes "\n" }, table)
unfolding read_data
read_data_late services current_time a c table h =
    let size = length-append (a ++ codes "\r\n.\r") (codes "\n") in
    let part = length-append a (codes "\r\n.\r") in
    rw
      (late_dot a, fits (length ((a ++ codes "\r\n.\r") ++ codes "\n")) (omega (arith, size, part)))
      refl
  where
    fits : (n : ℕ) → n < 2000 → leb 2000 n ≡ false
    fits n l = ground arith
