-- ===== src/Accounts/Sessions.antt =====
-- `/login` and `auth_user` of `frontend/src/http.cc`: a session of a browser.
use penn_mail_and_penn_drive.Base.{
  ℕ, ◌≡◌, refl, ◌∙◌, inl, inr, true, false, some, List, [], ◌∷◌, arith, Option-cases, if◌then◌else◌,
  ◌=?◌, nat_eq, list_eq, pair_eq, beq_refl, All, ok,
}
use penn_mail_and_penn_drive.Base.Text.{Text, codes, Lacks, is_space, has_text}
use penn_mail_and_penn_drive.Base.Maps.{Map, lookup}
use penn_mail_and_penn_drive.Frontend.Ordered.{store, lookup-store}
use penn_mail_and_penn_drive.Frontend.Cells.{is_key, put_taken}
use penn_mail_and_penn_drive.Frontend.Url.{url_decode, params_from_url}
use penn_mail_and_penn_drive.Drive.{entry}
use penn_mail_and_penn_drive.Accounts.{
  Backend, check_cookie, user_of, user_in, auth_user, hash_at, success,
}
use penn_mail_and_penn_drive.Accounts.Login.{
  cookie_char, generate_cookie, set_cookies, give_cookie, check_password, login,
}
use penn_mail_and_penn_drive.Accounts.Cookies.{
  InCookie, IsCookie, cookie_header, cookies, lookup-cookie, lookup-uuid,
}

entry-hash_at :
    (hash : Text → Text) (key j : Text) (params : Map Text Text)
    → (key =? j) ≡ false
    → entry j (hash_at hash key params) ≡ entry j params
unfolding entry hash_at
entry-hash_at hash key j params other = elim (Option-cases (lookup key params)) [
  | inl e ↦ rw (entry, hash_at, e) refl
  | inr (v, e) ↦ rw (entry, hash_at, e, lookup-store key j (hash v) params, other) refl
]

cookie_char-InCookie : (n : ℕ) → InCookie (cookie_char n)
unfolding cookie_char is_space
cookie_char-InCookie n = ground arith

generate_cookie-InCookie : (numbers : List ℕ) → All InCookie (generate_cookie numbers)
generate_cookie-InCookie [] = tt
generate_cookie-InCookie (n ∷ numbers) = (cookie_char-InCookie n, generate_cookie-InCookie numbers)

-- What the front end relies on in a storage server: with keys and values that a command can carry, a
-- value whose PUT was answered +OK is read where it was put. `cell` is what is stored at a row and a
-- column, with the answer to the `GET` of a missing one.
pub record IsBackend {T : Type 0} (backend : Backend T) : Type 0 where
  pub cell : T → Text → Text → Text
  pub get_cell :
      (row col : Text) (t : T)
      → is_key row col ≡ true
      → backend.bend_get row col t ≡ (cell t row col, t)
  pub put_cell :
      (row col val : Text) (t : T)
      → put_taken row col val (backend.bend_put row col val t).0 ≡ true
      → cell ((backend.bend_put row col val t).1) row col ≡ val

module _ {T : Type 0} (backend : Backend T) (server : IsBackend backend) where
  user_in-named :
      (jar : Map Text Text) (cke uuid : Text) (s t : T)
      → lookup (codes "cookie") jar ≡ some cke
      → lookup (codes "uuid") jar ≡ some uuid
      → backend.bend_connect uuid s ≡ ok (some t)
      → is_key uuid (codes "cookie") ≡ true
      → user_in backend jar s
        ≡ ok (if cke =? server.cell t uuid (codes "cookie") then uuid else [], t)
  unfolding user_in user_of check_cookie
  user_in-named jar cke uuid s t e g reached key =
      rw (user_in, e, g, reached, server.get_cell uuid (codes "cookie") t key) refl

  -- The cookies of a browser name their user if the cookie is that of the user's row, and nobody
  -- otherwise. The coordinator names a server that is reached, and a command can carry the name.
  pub auth_user-cookies :
      (cke uuid name : Text) (s t : T)
      → IsCookie cke
      → IsCookie uuid
      → Lacks b';' name
      → backend.bend_connect uuid s ≡ ok (some t)
      → is_key uuid (codes "cookie") ≡ true
      → auth_user backend ((codes "Cookie", cookie_header cke uuid name) ∷ []) s
        ≡ ok (if cke =? server.cell t uuid (codes "cookie") then uuid else [], t)
  unfolding auth_user lookup
  auth_user-cookies cke uuid name s t cke_plain uuid_plain name_plain reached key =
      user_in-named (cookies cke uuid name cke_plain uuid_plain name_plain) cke uuid s t
        (lookup-cookie cke uuid name cke_plain uuid_plain name_plain)
        (lookup-uuid cke uuid name cke_plain uuid_plain name_plain) reached key

  give_cookie-runs :
      (cke email : Text) (t : T)
      → is_key email (codes "name") ≡ true
      → has_text (codes "OK") (backend.bend_put email (codes "cookie") cke t).0 ≡ true
      → give_cookie backend cke email t ≡ (
        (codes "Set-Cookie", set_cookies cke email (server.cell t email (codes "name")))
            ∷ success (codes "0"),
        (backend.bend_put email (codes "cookie") cke t).1,
      )
  unfolding give_cookie store
  give_cookie-runs cke email t key accepted =
      rw (give_cookie, server.get_cell email (codes "name") t key, accepted) refl

  check_password-runs :
      (cke email : Text) (params : Map Text Text) (t : T)
      → is_key email (codes "password") ≡ true
      → entry (codes "email") params ≡ email
      → entry (codes "password") params ≡ server.cell t email (codes "password")
      → check_password backend cke params t ≡ give_cookie backend cke email t
  unfolding check_password
  check_password-runs cke email params t key named right =
      rw
        (
          check_password,
          named,
          server.get_cell email (codes "password") t key,
          right,
          beq_refl (server.cell t email (codes "password")),
        )
        refl

  -- A user who logs in with the right password gets a new cookie, and a browser that sends it back
  -- is taken for that user. The form names the user, whose name holds neither blanks, semicolons
  -- nor equals signs and whose displayed name holds no semicolon; the digest of the password is
  -- that of the user's row, and the generator gives at least one number. The coordinator names a
  -- server that is reached, both times, and the second one has the cookie that the first one has
  -- then. The PUT of the cookie is answered +OK, and a command can carry its key and value, and name
  -- the password and the name in the user's row: the user is not empty, holds no white space and is
  -- not `passwd`.
  pub login-auth_user :
      (body email : Text) (n : ℕ) (numbers : List ℕ) (given : Map Text Text) (s t v : T)
      → backend.bend_connect email s ≡ ok (some t)
      → put_taken email
          (codes "cookie")
          (generate_cookie (n ∷ numbers))
          (backend.bend_put email (codes "cookie") (generate_cookie (n ∷ numbers)) t).0
        ≡ true
      → is_key email (codes "password") ≡ true
      → is_key email (codes "name") ≡ true
      → backend.bend_connect email
          (backend.bend_put email (codes "cookie") (generate_cookie (n ∷ numbers)) t).1
        ≡ ok (some v)
      → server.cell v email (codes "cookie")
        ≡ server.cell
            (backend.bend_put email (codes "cookie") (generate_cookie (n ∷ numbers)) t).1
            email
            (codes "cookie")
      → params_from_url (url_decode body) ≡ ok given
      → entry (codes "email") given ≡ email
      → entry (codes "password") (hash_at backend.hash (codes "password") given)
        ≡ server.cell t email (codes "password")
      → IsCookie email
      → Lacks b';' (server.cell t email (codes "name"))
      → (u : T) × (login backend (generate_cookie (n ∷ numbers)) body s
          ≡ ok (
            (
              codes "Set-Cookie",
              set_cookies
                  (generate_cookie (n ∷ numbers))
                  email
                  (server.cell t email (codes "name")),
            )
                ∷ success (codes "0"),
            u,
          ))
        × (auth_user backend
              ((
                codes "Cookie",
                cookie_header
                    (generate_cookie (n ∷ numbers))
                    email
                    (server.cell t email (codes "name")),
              )
                ∷ [])
              u
            ≡ ok (email, v))
  unfolding login
  login-auth_user body email n numbers given s t v reached taken at_password at_name again kept
        parsed named right email_plain name_plain =
      let at_cookie : is_key email (codes "cookie") ≡ true = ground (arith, taken) in
      let accepted : has_text (codes "OK")
            (backend.bend_put email (codes "cookie") (generate_cookie (n ∷ numbers)) t).0
          ≡ true =
        ground (arith, taken) in
      let cke = generate_cookie (n ∷ numbers) in
      let u = (backend.bend_put email (codes "cookie") cke t).1 in
      (
        u,
        rw
            (
              login,
              parsed,
              named,
              reached,
              check_password-runs cke email (hash_at backend.hash (codes "password") given) t
                  at_password
                  (entry-hash_at backend.hash (codes "password") (codes "email") given refl ∙ named)
                  right,
              give_cookie-runs cke email t at_name accepted,
            )
            refl,
        auth_user-cookies cke email (server.cell t email (codes "name")) u v
              (generate_cookie-InCookie (n ∷ numbers)) email_plain name_plain again at_cookie
            ∙ rw (kept, server.put_cell email (codes "cookie") cke t taken, beq_refl cke) refl,
      )
