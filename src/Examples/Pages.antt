-- ===== src/Examples/Pages.antt =====
-- A client that sends a form in three reads, and the administrator's list of two servers.
use penn_mail_and_penn_drive.Base.{
  ℕ, ◌+◌, ◌≡◌, refl, false, [], ◌∷◌, ◌++◌, arith, nat_eq, list_eq, ok, ◌>>=◌,
}
use penn_mail_and_penn_drive.Base.Text.{Text, codes, find, stoi, before}
use penn_mail_and_penn_drive.Base.Maps.{lookup}
use penn_mail_and_penn_drive.Drive.{entry}
use penn_mail_and_penn_drive.Accounts.{get_client_params}
use penn_mail_and_penn_drive.Coordinator.Requests.{status_request}
use penn_mail_and_penn_drive.Frontend.Messages.{cut_at}
use penn_mail_and_penn_drive.Web.{Handlers, finish_request, serve_reads}
use penn_mail_and_penn_drive.Web.Parts.{holding, post_in_parts}
use penn_mail_and_penn_drive.Web.Admin.{servers_of}
use penn_mail_and_penn_drive.Web.Admin.Status.{
  quote_all, shown, full_name, state, servers_of-status_request,
}
use penn_mail_and_penn_drive.Examples.Messages.{coordinator}

-- The handlers count the requests.
abbrev counting : Handlers ℕ
counting = record {
  handle_get = λ head params flag t. ok (codes "page", flag, t + 1);
  handle_post = λ buf params flag t. ok (codes "done", flag, t + 1);
  handle_delete = λ buf params flag t. ok (codes "gone", flag, t + 1);
}

abbrev header : Text
header = codes "/login HTTP/1.1\r\nContent-Length: 6\r\n\r\n"

post_in_parts_example :
    serve_reads counting
      ((codes "POST " ++ (header ++ codes "ab")) ∷ (codes "cd" ∷ []) ++ codes "ef" ∷ [])
      (holding [] [] false [])
      0
    ≡ (ok (
          finish_request
            (holding
              (codes "POST " ++ ((header ++ codes "ab") ++ codes "cdef"))
              (get_client_params (codes "POST " ++ (header ++ codes "ab")))
              false
              [])
            (codes "done", false, 1))
        >>= λ (d, u). serve_reads counting [] d u)
unfolding get_client_params find stoi entry lookup before
post_in_parts_example =
    post_in_parts counting 6 (codes "POST /login HTTP/1.1\r\nContent-Length: 6") false []
      (codes "cd" ∷ []) (header ++ codes "ab") (codes "ef") [] 0 (refl, refl, codes "ab", refl)
      (omega arith) (omega arith)

servers_of-status_request_example :
    (m : Text) × ((status_request 3 coordinator).sent ≡ coordinator.sent ++ (3, m) ∷ [])
    × (servers_of (cut_at (codes "\r\n") m) ≡ (
      quote_all (shown full_name coordinator.partition_info),
      quote_all (shown (state coordinator) coordinator.partition_info),
    ))
servers_of-status_request_example =
    servers_of-status_request 3 coordinator
      ((ground arith, ground arith), ((ground arith, ground arith), tt))
