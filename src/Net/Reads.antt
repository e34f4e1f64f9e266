-- ===== src/Net/Reads.antt =====
-- `do_read_backend` of backend/src/utils.cpp, which the coordinator and the front end read with.
use penn_mail_and_penn_drive.Base.{
  ◌≡◌, refl, ap, ◌∙◌, none, some, List, [], ◌∷◌, ◌++◌, append_assoc, append-nil, Outcome, ok,
  blocked,
}
use penn_mail_and_penn_drive.Base.Text.{Text, codes, Lacks, find}
use penn_mail_and_penn_drive.Base.Text.Laws.{find_at_start}
use penn_mail_and_penn_drive.Base.Text.Search.{in_front, find_skip}

-- What one call of `read` gives.
pub data Read : Type 0 where
  read_failed peer_closed : Read
  got : Text → Read

-- The text in front of the delimiter. What stands behind it in the same read is lost.
unfoldable pub do_read_backend : Text → List Read → Text → Outcome Text
unfolding find
do_read_backend delim [] message = blocked
do_read_backend delim (read_failed ∷ reads) message = ok (codes "ERROR")
do_read_backend delim (peer_closed ∷ reads) message = ok (codes "CLOSED")
do_read_backend delim (got bytes ∷ reads) message = elim (find delim (message ++ bytes)) [
  | none ↦ do_read_backend delim reads (message ++ bytes)
  | some (complete_message, _) ↦ ok complete_message
]

found :
    (m rest : Text)
    → Lacks 13 m
    → find (codes "\r\n") (m ++ (codes "\r\n" ++ rest)) ≡ some (m, rest)
found m rest h =
    find_skip 13 (10 ∷ []) m (codes "\r\n" ++ rest) h
    ∙ ap (in_front m) (find_at_start (codes "\r\n") rest)
    ∙ ap (λ z. some (z, rest)) (append-nil m)

-- Of two messages that come in one read the second is lost, whatever it is.
pub do_read_backend-first :
    (m rest : Text) (reads : List Read)
    → Lacks 13 m
    → do_read_backend (codes "\r\n") (got (m ++ (codes "\r\n" ++ rest)) ∷ reads) [] ≡ ok m
unfolding do_read_backend
do_read_backend-first m rest reads h = rw (do_read_backend, found m rest h) refl

-- A message that comes in two reads is put together, if the first part holds no delimiter.
pub do_read_backend-parts :
    (delim a b message : Text) (reads : List Read)
    → find delim (message ++ a) ≡ none
    → do_read_backend delim (got a ∷ got b ∷ reads) message
      ≡ do_read_backend delim (got (a ++ b) ∷ reads) message
unfolding do_read_backend
do_read_backend-parts delim a b message reads h =
    ap
      (λ o. elim o as (λ _. Outcome Text) [
        | none ↦ do_read_backend delim (got b ∷ reads) (message ++ a)
        | some (complete_message, _) ↦ ok complete_message
      ])
      h
    ∙ ap
        (λ t. elim (find delim t) as (λ _. Outcome Text) [
          | none ↦ do_read_backend delim reads t
          | some (complete_message, _) ↦ ok complete_message
        ])
        (append_assoc message a b)
