-- ===== src/Mailbox/Lists.antt =====
-- The list of mails of a user after a delivery by the mail server.
use penn_mail_and_penn_drive.Base.{
  ℕ, ◌≡◌, refl, ap, sym, ◌∙◌, subst, ◌≢◌, inl, inr, Bool, true, false, ◌||◌, ◌&&◌, some, List, [],
  ◌∷◌, ◌++◌, arith, ltb, ◌==◌, Bool-cases, if◌then◌else◌, ◌=?◌, nat_eq, list_eq, pair_eq, beq_refl,
  length, take, All, Outcome, ok, ◌>>=◌,
}
use penn_mail_and_penn_drive.Base.Text.{Text, codes, Lacks, after, split, tokens, stoi, stol}
use penn_mail_and_penn_drive.Base.Text.Laws.{tokens_at_separator, tokens_at_other, split-Lacks}
use penn_mail_and_penn_drive.Base.Maps.{Map}
use penn_mail_and_penn_drive.Frontend.Bytes.{stobs}
use penn_mail_and_penn_drive.Frontend.Bytes.Laws.{Byte, bstoby-stobs}
use penn_mail_and_penn_drive.Frontend.Strings.Laws.{drop_last-slash}
use penn_mail_and_penn_drive.Frontend.Cells.{is_key, put_taken}
use penn_mail_and_penn_drive.Frontend.Url.{params_from_url}
use penn_mail_and_penn_drive.Smtp.Delivery.{
  Services, Letter, eid_vector, no_such_cell, more_eids, deliver_one,
}
use penn_mail_and_penn_drive.Smtp.Mails.{deliver_one-cell}
use penn_mail_and_penn_drive.Drive.{Storage, entry, create_http_response}
use penn_mail_and_penn_drive.Drive.Lists.{IsTable, unlike, stobs-ne-no_such_cell}
use penn_mail_and_penn_drive.Mailbox.{
  reverse_onto, page_of, with_mail, page_mails, page_response, list_page, email_list,
}

-- What stands behind the last separator is the last token.
tokens-last :
    (c : ℕ) (a token : Text) (x : ℕ) (h : Text)
    → Lacks c (x ∷ h)
    → (l : List Text) × (tokens c (a ++ c ∷ x ∷ h) token ≡ l ++ (x ∷ h) ∷ [])
unfolding split
tokens-last c [] token x h lacks =
    let here : (c == c) ≡ true = ground arith in
    (
      token ∷ [],
      tokens_at_separator c c (x ∷ h) token here ∙ ap (λ z. token ∷ z) (split-Lacks c x h lacks),
    )
tokens-last c (y ∷ a) token x h lacks = elim (Bool-cases (y == c)) [
  | inl q ↦
      let (l, e) = tokens-last c a [] x h lacks in
      (token ∷ l, tokens_at_separator c y (a ++ c ∷ x ∷ h) token q ∙ ap (λ z. token ∷ z) e)
  | inr q ↦
      let (l, e) = tokens-last c a (token ++ y ∷ []) x h lacks in
      (l, tokens_at_other c y (a ++ c ∷ x ∷ h) token q ∙ e)
]

reverse_onto-last :
    (l : List Text) (x : Text) (out : List Text)
    → reverse_onto (l ++ x ∷ []) out ≡ x ∷ reverse_onto l out
unfolding reverse_onto
reverse_onto-last [] x out = refl
reverse_onto-last (y ∷ l) x out = reverse_onto-last l x (y ∷ out)

page_of-last : (l : List Text) (x : Text) → page_of 0 1 (l ++ x ∷ []) ≡ x ∷ []
unfolding page_of
page_of-last l x = ap (take 1) (reverse_onto-last l x [])

-- A list of identifiers to which one was added ends in that one.
more_eids-last :
    (eids : Text) (x : ℕ) (h : Text)
    → Lacks b',' (x ∷ h)
    → (l : List Text) × (split b',' (more_eids eids (x ∷ h)) ≡ l ++ (x ∷ h) ∷ [])
unfolding split
more_eids-last eids x h lacks = elim (Bool-cases (eids =? no_such_cell)) [
  | inl e ↦ ([], unfold more_eids in rw e (split-Lacks b',' x h lacks))
  | inr e ↦ let (l, g) = tokens-last b',' eids [] x h lacks in (l, unfold more_eids in rw e g)
]

Lacks-comma : (a b : Text) → Lacks b',' (a ++ b',' ∷ b) → ⊥
Lacks-comma [] b l = l.0 refl
Lacks-comma (x ∷ a) b l = Lacks-comma a b l.1

append_cons-ne-nil : (a : Text) (x : ℕ) (b : Text) → a ++ x ∷ b ≢ []
append_cons-ne-nil [] x b e = cc
append_cons-ne-nil (y ∷ a) x b e = cc

no_such_cell-Lacks : Lacks b',' no_such_cell
no_such_cell-Lacks = omega arith

named_apart : (s : Text) → s ≢ no_such_cell → s ≢ [] → ((s =? no_such_cell) || (s =? [])) ≡ false
named_apart s p q = rw (unlike s no_such_cell p, unlike s [] q) refl

more_eids-ne :
    (eids : Text) (x : ℕ) (h : Text)
    → Lacks b' ' (x ∷ h)
    → ((more_eids eids (x ∷ h) =? no_such_cell) || (more_eids eids (x ∷ h) =? [])) ≡ false
unfolding more_eids
more_eids-ne eids x h lacks = elim (Bool-cases (eids =? no_such_cell)) [
  | inl e ↦
      rw (more_eids, e)
        (named_apart (x ∷ h) (λ q. (subst (Lacks b' ') q lacks).1.1.1.1.0 refl) (λ q. cc))
  | inr e ↦
      rw (more_eids, e)
        (named_apart (eids ++ b',' ∷ x ∷ h)
          (λ q. Lacks-comma eids (x ∷ h) (subst (Lacks b',') (sym q) no_such_cell-Lacks))
          (append_cons-ne-nil eids b',' (x ∷ h)))
]

-- A page of one mail.
page_mails-one :
    {T : Type 0} (storage : Storage T) (user eid mail : Text) (t u : T)
    → storage.bend_get user eid t ≡ (stobs mail, u)
    → stobs mail ≢ no_such_cell
    → All Byte mail
    → page_mails storage user (eid ∷ []) t ≡ ok (some (mail ++ b',' ∷ []), u)
unfolding page_mails with_mail
page_mails-one storage user eid mail t u e apart bytes =
    rw (page_mails, e, unlike (stobs mail) no_such_cell apart, bstoby-stobs mail bytes) refl

page_response-one :
    (host mail : Text)
    → page_response host (some (mail ++ b',' ∷ []))
      ≡ create_http_response 200 (b'[' ∷ (mail ++ codes "]")) host
unfolding page_response
page_response-one host mail =
    ap (λ body. create_http_response 200 (body ++ codes "]") host)
      (drop_last-slash (b'[' ∷ mail) b',')

not_behind : (n : ℕ) → ltb n 0 ≡ false
not_behind n = ground arith

module _ {T : Type 0} (storage : Storage T) (host user mail : Text) where
  -- What is answered: the mail alone.
  abbrev pub answered : T → Outcome (Text × T)
  answered t =
      create_http_response 200 (b'[' ∷ (mail ++ codes "]")) host >>= λ response. ok (response, t)

  list_page-newest :
      (eids offset limit eid : Text) (l : List Text) (t u : T)
      → split b',' eids ≡ l ++ eid ∷ []
      → stol offset ≡ some 0
      → stoi limit ≡ some 1
      → storage.bend_get user eid t ≡ (stobs mail, u)
      → stobs mail ≢ no_such_cell
      → All Byte mail
      → list_page storage host user eids offset limit t ≡ answered u
  unfolding list_page
  list_page-newest eids offset limit eid l t u parts from one e apart bytes =
      rw
        (
          list_page,
          from,
          one,
          parts,
          page_of-last l eid,
          page_mails-one storage user eid mail t u e apart bytes,
          page_response-one host mail,
          not_behind (length (l ++ eid ∷ [])),
        )
        refl

  email_list-page :
      (path : Text) (eids : Text) (params : Map Text Text) (s t : T)
      → storage.reach user s ≡ ok t
      → storage.bend_get user eid_vector t ≡ (eids, t)
      → ((eids =? no_such_cell) || (eids =? [])) ≡ false
      → params_from_url (after b'?' path) ≡ ok params
      → email_list storage host user path s
        ≡ list_page storage host user eids
            (entry (codes "offset") params)
            (entry (codes "limit") params)
            t
  unfolding email_list
  email_list-page path eids params s t reached e other parsed =
      rw (email_list, reached, e, other, parsed) refl

-- The mail server's view of the storage server that it has connected to.
abbrev pub services_of : {T : Type 0} → Storage T → (Text → Text) → Services T
services_of storage compute_hash_16 = record {
  reach = storage.reach;
  bend_get = storage.bend_get;
  bend_put = storage.bend_put;
  compute_hash_16 = compute_hash_16;
}

abbrev pub letter_of : Text → Text → Bool → Letter
letter_of hash mail external = record {
  hash = hash;
  email_string = stobs mail;
  external = external;
}

module _ {T : Type 0} (storage : Storage T) (table : IsTable storage)
    (compute_hash_16 : Text → Text) where
  -- The table after a mail was delivered to `user`.
  abbrev pub delivered : Letter → Text → T → T
  delivered letter user t = (deliver_one (services_of storage compute_hash_16) letter user t).1

  -- The two PUTs of the delivery can be carried and are answered +OK.
  abbrev pub IsDeliveryTaken : Letter → Text → T → Type 0
  IsDeliveryTaken letter user t =
      let eids = more_eids (table.cell t user eid_vector) letter.hash in
      let (status, u) = storage.bend_put user eid_vector eids t in
      (put_taken user eid_vector eids status ≡ true)
      × (put_taken user letter.hash letter.email_string
            (storage.bend_put user letter.hash letter.email_string u).0
          ≡ true)

  delivered-cell :
      (letter : Letter) (user row col : Text) (t : T)
      → IsDeliveryTaken letter user t
      → table.cell (delivered letter user t) row col ≡ (
          if (user =? row) && (letter.hash =? col)
          then letter.email_string
          else if (user =? row) && (eid_vector =? col)
          then more_eids (table.cell t user eid_vector) letter.hash
          else table.cell t row col)
  delivered-cell letter user row col t taken =
      deliver_one-cell (services_of storage compute_hash_16)
        (record { cell = table.cell; get_cell = table.get_cell; put_cell = table.put_cell }) letter
        user row col t taken

  -- A mail that the mail server delivers is the newest in the list of its recipient: a page of one
  -- mail from the start holds it alone. The mail is made of bytes, and its identifier is a text
  -- without commas and blanks other than `eid_vector`. The two PUTs of the delivery are answered +OK,
  -- and a command can carry their keys and values: the recipient and the identifier are not empty and
  -- hold no white space, the recipient is not `passwd`, and the mail's value and the list are not
  -- empty, hold no line end and do not end in white space. The recipient reaches a storage server,
  -- and its row is there as the delivery left it where the mail server had connected: the two may be
  -- servers of different partitions, and then it need not be.
  pub email_list-deliver_one :
      (host user path mail : Text) (external : Bool) (x : ℕ) (h : Text) (params : Map Text Text)
      (t v : T)
      → All Byte mail
      → Lacks b',' (x ∷ h)
      → Lacks b' ' (x ∷ h)
      → x ∷ h ≢ eid_vector
      → IsDeliveryTaken (letter_of (x ∷ h) mail external) user t
      → storage.reach user (delivered (letter_of (x ∷ h) mail external) user t) ≡ ok v
      → ((col : Text)
          → table.cell v user col
            ≡ table.cell (delivered (letter_of (x ∷ h) mail external) user t) user col)
      → params_from_url (after b'?' path) ≡ ok params
      → stol (entry (codes "offset") params) ≡ some 0
      → stoi (entry (codes "limit") params) ≡ some 1
      → email_list storage host user path (delivered (letter_of (x ∷ h) mail external) user t)
        ≡ answered storage host user mail v
  email_list-deliver_one host user path mail external x h params t v bytes no_comma no_blank apart
        taken reached same parsed from one =
      let letter = letter_of (x ∷ h) mail external in
      let u = delivered letter user t in
      let eids = more_eids (table.cell t user eid_vector) (x ∷ h) in
      let at_list : is_key user eid_vector ≡ true = ground (arith, taken.0) in
      let at_mail : is_key user (x ∷ h) ≡ true = ground (arith, taken.1) in
      let (l, parts) = more_eids-last (table.cell t user eid_vector) x h no_comma in
      email_list-page storage host user mail path eids params u v reached
        (table.get_cell user eid_vector v at_list
          ∙ ap (λ w. (w, v))
              (same eid_vector
                ∙ delivered-cell letter user user eid_vector t taken
                ∙ rw (beq_refl user, unlike (x ∷ h) eid_vector apart) refl))
        (more_eids-ne (table.cell t user eid_vector) x h no_blank) parsed
      ∙ list_page-newest storage host user mail eids (entry (codes "offset") params)
          (entry (codes "limit") params) (x ∷ h) l v v parts from one
          (table.get_cell user (x ∷ h) v at_mail
            ∙ ap (λ w. (w, v))
                (same (x ∷ h)
                  ∙ delivered-cell letter user user (x ∷ h) t taken
                  ∙ rw (beq_refl user, beq_refl (x ∷ h)) refl))
          (stobs-ne-no_such_cell mail) bytes
