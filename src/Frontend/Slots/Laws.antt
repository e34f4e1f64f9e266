-- ===== src/Frontend/Slots/Laws.antt =====
-- Places that are found, taken and given back (frontend/src/ioutils.cc, frontend/smtp_server.cc).
use penn_mail_and_penn_drive.Base.{
  ℕ, zero, suc, ◌+◌, ◌≡◌, refl, ap, ◌∙◌, none, some, Option, List, [], ◌∷◌, arith, ltb, ok, false,
}
use penn_mail_and_penn_drive.Frontend.Slots.{
  find_open_fd_idx, put_fd, record_fd, accept_mail_client,
}

-- The place that is found is free, so taking it and giving it back changes nothing.
pub find_open-put_fd :
    (fds : List (Option ℕ)) (i fd : ℕ)
    → find_open_fd_idx fds ≡ some i
    → put_fd i none (put_fd i (some fd) fds) ≡ fds
unfolding find_open_fd_idx put_fd
find_open-put_fd [] i fd h = cc
find_open-put_fd (none ∷ fds) zero fd h = refl
find_open-put_fd (none ∷ fds) (suc i) fd h = ground (arith, h)
find_open-put_fd (some g ∷ fds) i fd h =
    cases (find_open_fd_idx fds) i refl h (λ j e. find_open-put_fd fds j fd e)
  where
    cases :
        (o : Option ℕ) (k : ℕ)
        → find_open_fd_idx fds ≡ o
        → elim o [ none ↦ none | some j ↦ some (suc j) ] ≡ some k
        → ((j : ℕ) → find_open_fd_idx fds ≡ some j → put_fd j none (put_fd j (some fd) fds) ≡ fds)
        → put_fd k none (put_fd k (some fd) (some g ∷ fds)) ≡ some g ∷ fds
    cases none k e q r = cc
    cases (some j) zero e q r = ground (arith, q)
    cases (some j) (suc k) e q r =
        ap (λ l. some g ∷ l) (r k (e ∙ ap (λ z. some z) (ground (arith, q))))

-- With a client in every place the mail server takes one more, that has none.
pub accept_mail_client-full :
    (max_connections fd : ℕ) (open_fds : List (Option ℕ))
    → find_open_fd_idx open_fds ≡ none
    → accept_mail_client max_connections fd (open_fds, max_connections)
      ≡ ok (open_fds, max_connections + 1)
unfolding accept_mail_client record_fd
accept_mail_client-full max_connections fd open_fds h =
    rw (not_less max_connections, accept_mail_client, record_fd, h) refl
  where
    not_less : (n : ℕ) → ltb n n ≡ false
    not_less n = ground arith
