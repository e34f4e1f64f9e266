-- ===== src/Examples/Accounts.antt =====
-- Requests about accounts, with a table that is a map.
use penn_mail_and_penn_drive.Base.{◌≡◌, refl, true, some, [], ◌∷◌, nat_eq, list_eq, pair_eq, ok}
use penn_mail_and_penn_drive.Base.Text.{Text, codes}
use penn_mail_and_penn_drive.Base.Maps.{insert}
use penn_mail_and_penn_drive.Accounts.{
  Backend, get_client_params, is_full_body, auth_user, signup, post_redirect,
}
use penn_mail_and_penn_drive.Examples.Mails.{Cells, cell_of}

abbrev pub backend : Backend Cells
backend = record {
  bend_connect = λ user t. ok (some t);
  bend_get = λ row col t. (cell_of t row col, t);
  bend_put = λ row col val t. (codes "+OK", insert (row, col) val t);
  hash = λ s. codes "0f";
}

abbrev request : Text
request = codes "POST /login HTTP/1.1\r\nContent-Length: 2\r\n\r\nhi"

-- The body is read like a line of the header.
request_read :
    get_client_params request
    ≡ (codes "Content-Length", codes "2")
      ∷ (codes "hi", [])
      ∷ (codes "method", codes "POST")
      ∷ (codes "path", codes "/login")
      ∷ (codes "vno", codes "HTTP/1.1")
      ∷ []
unfolding get_client_params
request_read = refl

request_full : is_full_body request (get_client_params request) ≡ ok true
unfolding is_full_body get_client_params
request_full = refl

abbrev cells : Cells
cells = ((codes "ada", codes "cookie"), codes "xyz") ∷ []

logged_in :
    auth_user backend ((codes "Cookie", codes "cookie=xyz; uuid=ada") ∷ []) cells
    ≡ ok (codes "ada", cells)
unfolding auth_user
logged_in = refl

other_cookie :
    auth_user backend ((codes "Cookie", codes "cookie=xy; uuid=ada") ∷ []) cells ≡ ok ([], cells)
unfolding auth_user
other_cookie = refl

signed_up :
    signup backend (codes "email=bob&password=pw") cells
    ≡ ok (
      (codes "success", codes "0") ∷ [],
      ((codes "ada", codes "cookie"), codes "xyz")
          ∷ ((codes "bob", codes "password"), codes "0f")
          ∷ [],
    )
unfolding signup insert
signed_up = refl

sent_home :
    post_redirect (codes "/login") ((codes "success", codes "0") ∷ [])
    ≡ ok (codes "/home?success=0")
unfolding post_redirect
sent_home = refl
