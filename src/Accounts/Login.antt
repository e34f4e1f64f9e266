-- ===== src/Accounts/Login.antt =====
-- `/login` of `frontend/src/http.cc`, the response to a form, and `frontend/src/cookie.cc`.
use penn_mail_and_penn_drive.Base.{
  ℕ, ◌+◌, ◌-◌, ◌%◌, none, some, List, [], ◌++◌, map, ltb, if◌then◌else◌, ◌=?◌, nat_eq, list_eq,
  pair_eq, Outcome, ok, stopped, ◌>>=◌,
}
use penn_mail_and_penn_drive.Base.Text.{Text, codes, has_text}
use penn_mail_and_penn_drive.Base.Maps.{Map, lookup, erase}
use penn_mail_and_penn_drive.Frontend.Ordered.{store}
use penn_mail_and_penn_drive.Frontend.Url.{url_decode, params_from_url}
use penn_mail_and_penn_drive.Drive.{entry}
use penn_mail_and_penn_drive.Accounts.{Backend, hash_at, success, post_redirect}

-- One character of a cookie, for a number of the generator.
unfoldable pub cookie_char : ℕ → ℕ
cookie_char n =
    let c = n % 62 in if ltb c 10 then 48 + c else if ltb c 36 then 65 + (c - 10) else 97 + (c - 36)

-- The numbers are those that `mt19937` gives.
abbrev pub generate_cookie : List ℕ → Text
generate_cookie = map cookie_char

-- The value behind `Set-Cookie: `, with the headers for the other two cookies.
unfoldable pub set_cookies : Text → Text → Text → Text
set_cookies cke email name =
    codes "cookie="
    ++ (cke
        ++ (codes "; SameSite=None; Secure;\r\nSet-Cookie: uuid="
            ++ (email
                ++ (codes "; SameSite=None; Secure;\r\nSet-Cookie: name="
                    ++ (name ++ codes "; SameSite=None; Secure;")))))

-- The response to a form: where it leads to, and the cookies.
unfoldable pub post_response : Text → Map Text Text → Text → Map Text Text → Outcome Text
unfolding lookup erase post_redirect
post_response vno headers path params =
    post_redirect path (erase (codes "Set-Cookie") params) >>= λ redirect. ok (
      vno
      ++ (codes " 303 See Other\r\n"
          ++ ((elim (lookup (codes "Set-Cookie") params) [
            | none ↦ []
            | some val ↦ codes "Set-Cookie: " ++ (val ++ codes "\r\n")
          ])
              ++ (codes "Location: "
                  ++ (redirect
                      ++ (codes
                            "\r\nContent-Type: text/html; charset=UTF-8\r\nContent-Length: 0\r\n"
                          ++ ((elim (lookup (codes "Host") headers) [
                            | none ↦ []
                            | some host ↦
                                codes "Access-Control-Allow-Origin: " ++ (host ++ codes "\r\n")
                          ])
                              ++ codes "Access-Control-Allow-Credentials: true")))))))

module _ {T : Type 0} (backend : Backend T) where
  -- The password is right: the name is read and the cookie is stored.
  unfoldable pub give_cookie : Text → Text → T → Map Text Text × T
  unfolding has_text set_cookies store
  give_cookie cke email t =
      let (name, u) = backend.bend_get email (codes "name") t in
      let (reply, v) = backend.bend_put email (codes "cookie") cke u in
      if has_text (codes "OK") reply
      then (store (codes "Set-Cookie") (set_cookies cke email name) (success (codes "0")), v)
      else (success (codes "0"), v)

  unfoldable pub check_password : Text → Map Text Text → T → Map Text Text × T
  unfolding entry give_cookie
  check_password cke params t =
      let email = entry (codes "email") params in
      let (password, u) = backend.bend_get email (codes "password") t in
      if entry (codes "password") params =? password
      then give_cookie cke email u
      else (success (codes "1"), u)

  -- `/login`: the parameters of the response. Where the coordinator names no server, a descriptor
  -- that is negative is read from.
  unfoldable pub login : Text → Text → T → Outcome (Map Text Text × T)
  unfolding params_from_url url_decode hash_at entry check_password
  login cke body t = do
    given ← params_from_url (url_decode body)
    r ← backend.bend_connect (entry (codes "email") given) t
    elim r [
      | none ↦ stopped
      | some u ↦ ok (check_password cke (hash_at backend.hash (codes "password") given) u)
    ]
