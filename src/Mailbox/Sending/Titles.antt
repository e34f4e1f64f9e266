-- ===== src/Mailbox/Sending/Titles.antt =====
-- A long subject at the mail server (frontend/src/http.cc, frontend/smtp_server.cc).
use penn_mail_and_penn_drive.Base.{
  ℕ, zero, suc, ◌≤◌, ◌≡◌, refl, ap, sym, ◌∙◌, subst, false, none, [], ◌∷◌, ◌++◌, append-nil, arith,
  ltb, length, take, ok,
}
use native.Mathlib.Numerals.{add-one}
use penn_mail_and_penn_drive.Base.Text.{Text, codes, Lacks, find}
use penn_mail_and_penn_drive.Base.Text.Search.{find_skip}
use penn_mail_and_penn_drive.Smtp.{Session, c_string}
use penn_mail_and_penn_drive.Smtp.Worker.{handle_lines, read_lines}
use penn_mail_and_penn_drive.Mailbox.Sending.{snprintf, title_line}

take_shorter : (n : ℕ) (a b : Text) → n ≤ length a → take n (a ++ b) ≡ take n a
take_shorter zero a b h = refl
take_shorter (suc n) [] b h = absurd (omega (arith, h))
take_shorter (suc n) (x ∷ a) b h = ap (λ l. x ∷ l) (take_shorter n a b (omega (arith, h)))

take-Lacks : (c n : ℕ) (a : Text) → Lacks c a → Lacks c (take n a)
take-Lacks c zero a h = tt
take-Lacks c (suc n) [] h = tt
take-Lacks c (suc n) (x ∷ a) h = (h.0, take-Lacks c n a h.1)

length-take-le : (n : ℕ) (a : Text) → length (take n a) ≤ n
length-take-le zero a = omega arith
length-take-le (suc n) [] = omega arith
length-take-le (suc n) (x ∷ a) = omega (arith, length-take-le n a)

no_line : (a : Text) → Lacks 13 a → find (codes "\r\n") a ≡ none
unfolding find
no_line a h = ap (find (codes "\r\n")) (sym (append-nil a)) ∙ find_skip 13 (10 ∷ []) a [] h

waits :
    (text : Text) (c : Session)
    → Lacks 13 text
    → length text ≤ 127
    → read_lines text (c, []) ≡ ok (c, text)
unfolding read_lines handle_lines
waits text c h k =
    rw (too_short (length text) k, add-one (length text), handle_lines, no_line text h) refl
  where
    too_short : (n : ℕ) → n ≤ 127 → ltb 2000 n ≡ false
    too_short n k = ground (arith, k)

-- A subject of more than 120 bytes, up to its first zero and without a carriage return, cuts the
-- line end off the line `TITLE` that /send-email writes: a mail server that reads it with an empty
-- buffer takes no instruction from it, sends nothing, and keeps the line as the start of the next.
pub title_line-waits :
    (subject : Text) (c : Session)
    → Lacks 13 (c_string subject)
    → 121 ≤ length (c_string subject)
    → read_lines (title_line subject) (c, []) ≡ ok (c, title_line subject)
unfolding title_line snprintf
title_line-waits subject c h k =
    let whole = codes "TITLE " ++ c_string subject in
    let cut : take 127 (codes "TITLE " ++ (c_string subject ++ codes "\r\n")) ≡ take 127 whole =
      take_shorter 127 whole (codes "\r\n") (omega (arith, k)) in
    subst (λ t. read_lines t (c, []) ≡ ok (c, t)) (sym cut)
      (waits (take 127 whole) c (take-Lacks 13 127 whole (title-Lacks (c_string subject) h))
        (length-take-le 127 whole))
  where
    title-Lacks : (s : Text) → Lacks 13 s → Lacks 13 (codes "TITLE " ++ s)
    title-Lacks s h = (
      λ e. omega (arith, e),
      (
        λ e. omega (arith, e),
        (
          λ e. omega (arith, e),
          (λ e. omega (arith, e), (λ e. omega (arith, e), (λ e. omega (arith, e), h))),
        ),
      ),
    )
