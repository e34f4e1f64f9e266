-- ===== src/Mailbox.antt =====
-- A user's mails: `/email-list` and `/username` of `handle_GET` and `/delete-email` of
-- `handle_DELETE`, in `frontend/src/http.cc`.
pub mod Lists
pub mod Sending
use penn_mail_and_penn_drive.Base.{
  ℕ, zero, suc, ◌+◌, Bool, true, false, ◌||◌, Option, none, some, List, [], ◌∷◌, ◌++◌, ltb, leb,
  if◌then◌else◌, ◌=?◌, nat_eq, list_eq, pair_eq, length, take, drop, Outcome, ok, stopped, ◌>>=◌,
}
use penn_mail_and_penn_drive.Base.Text.{Text, codes, after, split, stoi, stol}
use penn_mail_and_penn_drive.Base.Maps.{Map}
use penn_mail_and_penn_drive.Frontend.Bytes.{bstoby}
use penn_mail_and_penn_drive.Frontend.Json.{parse_json_string}
use penn_mail_and_penn_drive.Frontend.Strings.{drop_last}
use penn_mail_and_penn_drive.Frontend.Url.{params_from_url}
use penn_mail_and_penn_drive.Smtp.{c_string}
use penn_mail_and_penn_drive.Smtp.Delivery.{eid_vector, no_such_cell}
use penn_mail_and_penn_drive.Drive.{
  Storage, entry, create_http_response, login_failure, remove_file,
}

-- `std::reverse`
unfoldable pub reverse_onto {ℓ} : {A : Type ℓ} → List A → List A → List A
reverse_onto [] out = out
reverse_onto (x ∷ xs) out = reverse_onto xs (x ∷ out)

-- The identifiers of a page, the newest first: the loop runs from `offset` to
-- `min(size, offset + limit)`.
unfoldable pub page_of : ℕ → ℕ → List Text → List Text
unfolding reverse_onto
page_of offset limit eids = take limit (drop offset (reverse_onto eids []))

-- A mail in front of the others. Bits that are not 0 or 1 throw.
unfoldable pub with_mail :
    {T : Type 0} → Option (List ℕ) → Outcome (Option Text × T) → Outcome (Option Text × T)
with_mail none rest = stopped
with_mail (some bytes) rest = rest >>= λ r. elim r.0 [
  | none ↦ ok (none, r.1)
  | some mails ↦ ok (some (bytes ++ b',' ∷ mails), r.1)
]

-- `pop_back` takes the last comma, or the bracket where there is no mail.
unfoldable pub page_response : Text → Option Text → Outcome Text
unfolding drop_last create_http_response
page_response host none = create_http_response 500 [] host
page_response host (some mails) =
    create_http_response 200 (drop_last (b'[' ∷ mails) ++ codes "]") host

module _ {T : Type 0} (storage : Storage T) where
  -- The mails of a page, each with a comma behind it; `none` where one is not there.
  unfoldable pub page_mails : Text → List Text → T → Outcome (Option Text × T)
  unfolding with_mail
  page_mails user [] t = ok (some [], t)
  page_mails user (eid ∷ eids) t =
      let r = storage.bend_get user eid t in
      let rest = page_mails user eids r.1 in
      if r.0 =? no_such_cell then ok (none, r.1) else with_mail (bstoby r.0) rest

  -- A page of a list of mails, for the texts of `offset` and `limit`.
  unfoldable pub list_page : Text → Text → Text → Text → Text → T → Outcome (Text × T)
  unfolding stol stoi split page_of page_mails page_response create_http_response
  list_page host user eids offset_text limit_text t =
      let eid_list = split b',' eids in
      elim (stol offset_text) [
        | none ↦ stopped
        | some offset ↦ elim (stoi limit_text) [
          | none ↦ stopped
          | some limit ↦
              if ltb (length eid_list) offset
              then (create_http_response 400 [] host >>= λ response. ok (response, t))
              else (page_mails user (page_of offset limit eid_list) t >>= λ r.
                  page_response host r.0 >>= λ response. ok (response, r.1))
        ]
      ]

  -- `/email-list`. Nobody has to be logged in.
  unfoldable pub email_list : Text → Text → Text → T → Outcome (Text × T)
  unfolding after params_from_url entry list_page create_http_response
  email_list host user path t = do
    u ← storage.reach user t
    let r = storage.bend_get user eid_vector u
    if r.0 =? no_such_cell || r.0 =? []
        then (create_http_response 404 [] host >>= λ response. ok (response, r.1))
        else (params_from_url (after b'?' path) >>= λ params.
            list_page host user r.0 (entry (codes "offset") params) (entry (codes "limit") params)
              r.1)

  -- `/username`
  unfoldable pub username : Text → Text → T → Outcome (Text × T)
  unfolding create_http_response
  username host [] t = create_http_response 404 [] host >>= λ response. ok (response, t)
  username host (x ∷ user) t = do
    u ← storage.reach (x ∷ user) t
    let r = storage.bend_get (x ∷ user) (codes "name") u
    response ←
        (if r.0 =? [] || r.0 =? no_such_cell
          then create_http_response 500 [] host
          else create_http_response 200 (codes "{\"username\":\"" ++ (r.0 ++ codes "\"}")) host)
    ok (response, r.1)

  -- `/delete-email`. `email_data` has room for the three texts and two bars, and a zero is written
  -- behind what `strcat` puts there; where that is out of room the array is overrun.
  unfoldable pub delete_email : (Text → Text) → Text → Text → Text → Text → T → Outcome (Text × T)
  unfolding login_failure parse_json_string entry remove_file
  delete_email compute_hash_16 vno host [] body t = ok (login_failure vno, t)
  delete_email compute_hash_16 vno host (x ∷ user) body t = do
    u ← storage.reach (x ∷ user) t
    params ← parse_json_string body
    let sender = entry (codes "sender") params
    let subject = entry (codes "subject") params
    let timestamp = entry (codes "timestamp") params
    let email_data = c_string sender ++ b'|' ∷ (c_string subject ++ b'|' ∷ c_string timestamp)
    if leb (length sender + length timestamp + length subject + 2) (length email_data)
        then stopped
        else remove_file storage host (x ∷ user) eid_vector (compute_hash_16 email_data) u
