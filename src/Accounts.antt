-- ===== src/Accounts.antt =====
-- Requests and accounts: what `frontend/src/http.cc` reads in a request, whom a cookie names, and
-- the requests for a new account and a new password.
pub mod Login
pub mod Cookies
pub mod Sessions
use penn_mail_and_penn_drive.Base.{
  ℕ, ◌+◌, Bool, true, false, Option, none, some, List, [], ◌∷◌, ◌++◌, leb, if◌then◌else◌, ◌=?◌,
  nat_eq, list_eq, pair_eq, length, Outcome, ok, stopped, ◌>>=◌,
}
use penn_mail_and_penn_drive.Base.Text.{
  Text, codes, before, after?, starts_with, find, has_text, split, stoi,
}
use penn_mail_and_penn_drive.Base.Maps.{Map, lookup}
use penn_mail_and_penn_drive.Frontend.Strings.{strip}
use penn_mail_and_penn_drive.Frontend.Ordered.{store}
use penn_mail_and_penn_drive.Frontend.Url.{url_decode, params_from_url, params_to_url}
use penn_mail_and_penn_drive.Drive.{entry}

-- The storage servers behind their sockets, and the digest of OpenSSL. `bend_connect` stands for
-- the connection to a user's server with its greeting; `none` where the coordinator names none.
pub record Backend (T : Type 0) : Type 0 where
  pub bend_connect : Text → T → Outcome (Option T)
  pub bend_get : Text → Text → T → Text × T
  pub bend_put : Text → Text → Text → T → Text × T
  pub hash : Text → Text

-- What `getline` leaves of a stream.
unfoldable pub behind : ℕ → Text → Text
unfolding after?
behind c s = elim (after? c s) [ none ↦ [] | some r ↦ r ]

-- A line of the header. A line without a key is passed over.
unfoldable pub store_header : Text → Map Text Text → Map Text Text
unfolding strip before behind store
store_header line params =
    let key = strip (before b':' line) in
    if key =? [] then params else store key (strip (behind b':' line)) params

unfoldable pub store_headers : List Text → Map Text Text → Map Text Text
unfolding store_header
store_headers [] params = params
store_headers (line ∷ lines) params = store_headers lines (store_header line params)

unfoldable pub get_client_params : Text → Map Text Text
unfolding strip before behind split store store_headers
get_client_params request =
    let path = behind b' ' request in
    let vno = behind b' ' path in
    store_headers (split b'\n' (behind b'\n' vno)) (
      store (codes "vno") (strip (before b'\n' vno)) (
        store (codes "path") (strip (before b' ' path))
          (store (codes "method") (strip (before b' ' request)) [])))

-- Where the body begins; `npos + 4` is 3.
unfoldable pub body_sidx : Text → ℕ
unfolding find
body_sidx buf = elim (find (codes "\r\n\r\n") buf) [ none ↦ 3 | some (a, _) ↦ length a + 4 ]

-- `stoi` throws where the length is missing.
unfoldable pub is_full_body : Text → Map Text Text → Outcome Bool
unfolding stoi entry body_sidx
is_full_body buf params = elim (stoi (entry (codes "Content-Length") params)) [
  | none ↦ stopped
  | some payload_size ↦ ok (leb (payload_size + body_sidx buf) (length buf))
]

-- What stands between two semicolons counts if it has one equals sign.
unfoldable pub store_pair : List Text → Map Text Text → Map Text Text
unfolding strip store
store_pair [] params = params
store_pair (k ∷ []) params = params
store_pair (k ∷ v ∷ []) params = store (strip k) (strip v) params
store_pair (k ∷ v ∷ w ∷ kv) params = params

unfoldable pub store_cookies : List Text → Map Text Text → Map Text Text
unfolding split store_pair
store_cookies [] params = params
store_cookies (item ∷ items) params = store_cookies items (store_pair (split b'=' item) params)

unfoldable pub logout : Text → Text
logout vno =
    vno
    ++ codes
        " 303 See Other\r\nLocation: /\r\nSet-Cookie: uuid=uuid; Max-Age=-1\r\nSet-Cookie: cookie=cookie; Max-Age=-1\r\nSet-Cookie: name=User; Max-Age=-1\r\nContent-Type: text/html; charset=UTF-8\r\nContent-Length: 0"

unfoldable pub redirect_admin : Text → Text
redirect_admin vno =
    vno
    ++ codes
        " 303 See Other\r\nLocation: /admin?password=cis5050\r\nContent-Type: text/html; charset=UTF-8\r\nContent-Length: 0"

-- Where a form leads to, in front of the parameters.
unfoldable pub redirect_path : Text → Text → Text
redirect_path path success =
    if path =? codes "/signup"
    then codes "/"
    else if path =? codes "/"
    then codes "/home"
    else if path =? codes "/login"
    then (if success =? codes "0"
        then codes "/home"
        else if success =? codes "1"
        then codes "/"
        else [])
    else if path =? codes "/changepassword"
    then (if success =? codes "3" then codes "/" else codes "/changepassword")
    else []

-- Reading `params["success"]` stores an empty one where there is none.
unfoldable pub looked_up : Text → Map Text Text → Map Text Text
unfolding entry store
looked_up path params =
    if path =? codes "/login"
    then store (codes "success") (entry (codes "success") params) params
    else if path =? codes "/changepassword"
    then store (codes "success") (entry (codes "success") params) params
    else params

unfoldable pub post_redirect : Text → Map Text Text → Outcome Text
unfolding entry redirect_path looked_up params_to_url
post_redirect path params =
    let success = entry (codes "success") params in
    if entry (codes "login_failure") params =? codes "true"
    then ok (codes "/?success=2")
    else params_to_url (looked_up path params) >>= λ url. ok (redirect_path path success ++ url)

-- The parameters of a form, with the digest in the place of a password.
unfoldable pub hash_at : (Text → Text) → Text → Map Text Text → Map Text Text
unfolding lookup store
hash_at hash key params = elim (lookup key params) [
  | none ↦ params
  | some v ↦ store key (hash v) params
]

abbrev pub failure : Map Text Text
failure = (codes "login_failure", codes "true") ∷ (codes "success", codes "2") ∷ []

abbrev pub success : Text → Map Text Text
success s = (codes "success", s) ∷ []

module _ {T : Type 0} (backend : Backend T) where
  unfoldable pub check_cookie : Text → Text → T → Outcome (Text × T)
  check_cookie uuid cookie t = backend.bend_connect uuid t >>= λ r. elim r [
    | none ↦ ok ([], t)
    | some u ↦
        let (stored, v) = backend.bend_get uuid (codes "cookie") u in
        ok (if cookie =? stored then uuid else [], v)
  ]

  -- The two cookies that count.
  unfoldable pub user_of : Option Text → Option Text → T → Outcome (Text × T)
  unfolding check_cookie
  user_of none uuid t = ok ([], t)
  user_of (some cookie) none t = ok ([], t)
  user_of (some cookie) (some uuid) t = check_cookie uuid cookie t

  unfoldable pub user_in : Map Text Text → T → Outcome (Text × T)
  unfolding lookup user_of
  user_in cookies t = user_of (lookup (codes "cookie") cookies) (lookup (codes "uuid") cookies) t

  -- An empty name where nobody is logged in.
  unfoldable pub auth_user : Map Text Text → T → Outcome (Text × T)
  unfolding lookup split store_cookies user_in
  auth_user params t = elim (lookup (codes "Cookie") params) [
    | none ↦ ok ([], t)
    | some text ↦ user_in (store_cookies (split b';' text) []) t
  ]

  -- The loop over the parameters of a new account: whether it came to its end.
  unfoldable pub put_params : Text → Map Text Text → T → Bool × T
  unfolding has_text
  put_params email [] t = (true, t)
  put_params email ((k, v) ∷ params) t =
      let (reply, u) = backend.bend_put email k v t in
      if k =? codes "email"
      then put_params email params t
      else if has_text (codes "OK") reply
      then put_params email params u
      else (false, u)

  unfoldable pub new_account : Text → Map Text Text → T → Map Text Text × T
  unfolding starts_with put_params
  new_account email params t =
      let (existing, u) = backend.bend_get email (codes "password") t in
      if starts_with (codes "-ERR") existing
      then (let (done, v) = put_params email params u in
          (success (if done then codes "0" else codes "2"), v))
      else (failure, u)

  -- `/signup`: the parameters of the response.
  unfoldable pub signup : Text → T → Outcome (Map Text Text × T)
  unfolding params_from_url url_decode hash_at entry new_account
  signup body t = do
    given ← params_from_url (url_decode body)
    r ← backend.bend_connect (entry (codes "email") given) t
    elim r [
      | none ↦ ok (failure, t)
      | some u ↦ ok (
          new_account (entry (codes "email") given) (hash_at backend.hash (codes "password") given)
            u)
    ]

  unfoldable pub new_password : Text → Map Text Text → T → Text × T
  unfolding entry has_text
  new_password user params t =
      let (stored, u) = backend.bend_get user (codes "password") t in
      let (reply, v) =
        backend.bend_put user (codes "password") (backend.hash (entry (codes "password") params))
          u in
      if has_text (backend.hash (entry (codes "old-password") params)) stored
      then (if has_text (codes "OK") reply then codes "3" else codes "1", v)
      else (codes "2", u)

  -- `/changepassword` for a user that is logged in, where the form has a password: the value of
  -- `success` in the response.
  unfoldable pub change_password : Text → Map Text Text → T → Outcome (Text × T)
  unfolding new_password
  change_password user params t = backend.bend_connect user t >>= λ r. elim r [
    | none ↦ ok (codes "1", t)
    | some u ↦ ok (new_password user params u)
  ]
