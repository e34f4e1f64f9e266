-- ===== src/Examples/Logins.antt =====
-- A browser logs in, with a table that is a map.
use penn_mail_and_penn_drive.Base.{
  ◌≡◌, refl, ap, ◌∙◌, none, some, [], ◌∷◌, arith, nat_eq, list_eq, pair_eq, beq_refl, ok,
}
use penn_mail_and_penn_drive.Base.Text.{Text, codes, find, has_text, is_space}
use penn_mail_and_penn_drive.Base.Maps.{lookup, insert, lookup-insert}
use penn_mail_and_penn_drive.Frontend.Url.{url_decode, params_from_url}
use penn_mail_and_penn_drive.Smtp.Delivery.{no_such_cell}
use penn_mail_and_penn_drive.Accounts.{auth_user, hash_at, success}
use penn_mail_and_penn_drive.Drive.{entry}
use penn_mail_and_penn_drive.Accounts.Login.{
  cookie_char, generate_cookie, set_cookies, post_response, login,
}
use penn_mail_and_penn_drive.Accounts.Cookies.{cookie_header}
use penn_mail_and_penn_drive.Accounts.Sessions.{IsBackend, login-auth_user}
use penn_mail_and_penn_drive.Examples.Mails.{Cells, cell_of}
use penn_mail_and_penn_drive.Examples.Accounts.{backend}

read_back : (row col val : Text) (t : Cells) → cell_of (insert (row, col) val t) row col ≡ val
read_back row col val t =
    ap (λ o. elim o [ none ↦ no_such_cell | some v ↦ v ])
      (lookup-insert (row, col) (row, col) val t)
    ∙ rw (beq_refl {A = Text × Text} (row, col)) refl

abbrev backend-IsBackend : IsBackend backend
backend-IsBackend = record {
  cell = cell_of;
  get_cell = λ row col t key. refl;
  put_cell = λ row col val t taken. read_back row col val t;
}

-- The table of one user; the digest of every password is `0f`.
abbrev pub users : Cells
users =
    ((codes "ada", codes "password"), codes "0f")
    ∷ ((codes "ada", codes "name"), codes "Ada L")
    ∷ []

abbrev after_login : Cells
after_login = insert (codes "ada", codes "cookie") (generate_cookie (7 ∷ 40 ∷ [])) users

logged_in_again :
    (u : Cells) × (login backend
        (generate_cookie (7 ∷ 40 ∷ []))
        (codes "email=ada&password=pw")
        users
      ≡ ok (
        (
          codes "Set-Cookie",
          set_cookies (generate_cookie (7 ∷ 40 ∷ [])) (codes "ada") (codes "Ada L"),
        )
            ∷ success (codes "0"),
        u,
      ))
    × (auth_user backend
          ((
            codes "Cookie",
            cookie_header (generate_cookie (7 ∷ 40 ∷ [])) (codes "ada") (codes "Ada L"),
          )
            ∷ [])
          u
        ≡ ok (codes "ada", after_login))
unfolding lookup params_from_url url_decode entry hash_at is_space has_text find insert cookie_char
logged_in_again =
    login-auth_user backend backend-IsBackend (codes "email=ada&password=pw") (codes "ada") 7
      (40 ∷ []) ((codes "email", codes "ada") ∷ (codes "password", codes "pw") ∷ []) users users
      after_login refl refl refl refl refl refl refl refl refl
      (
        (omega arith, omega arith, refl),
        ((omega arith, omega arith, refl), ((omega arith, omega arith, refl), tt)),
      )
      (omega arith)

sent_back :
    post_response
      (codes "HTTP/1.1")
      []
      (codes "/login")
      ((codes "Set-Cookie", codes "a=b") ∷ (codes "success", codes "0") ∷ [])
    ≡ ok (
        codes
          "HTTP/1.1 303 See Other\r\nSet-Cookie: a=b\r\nLocation: /home?success=0\r\nContent-Type: text/html; charset=UTF-8\r\nContent-Length: 0\r\nAccess-Control-Allow-Credentials: true")
unfolding post_response
sent_back = refl
