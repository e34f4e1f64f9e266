-- ===== src/Smtp/Mails.antt =====
-- What a complete mail does: it is stored for every recipient, and the session starts anew.
use penn_mail_and_penn_drive.Base.{
  ℕ, zero, suc, ◌+◌, ◌<◌, ◌≡◌, refl, sym, subst, ◌≢◌, inl, inr, true, false, ◌&&◌, some, List, [],
  ◌∷◌, append-nil, arith, if◌then◌else◌, Bool-cases, ◌=?◌, nat_eq, list_eq, pair_eq, beq_refl,
  list_beq_iff, length, get_elem?, length-append, ok,
}
use penn_mail_and_penn_drive.Base.Text.{Text, has_text}
use penn_mail_and_penn_drive.Smtp.{Session, Slot, live, freed, answer}
use penn_mail_and_penn_drive.Smtp.Delivery.{
  Services, Letter, eid_vector, no_such_cell, more_eids, deliver_one, deliver_all,
}
use penn_mail_and_penn_drive.Frontend.Cells.{is_key, put_taken}
use penn_mail_and_penn_drive.Base.Text.Laws.{find_at_start}
use penn_mail_and_penn_drive.Smtp.Reads.{has_text-append}
use penn_mail_and_penn_drive.Smtp.Recipients.{deliverable}

-- What the server relies on in a table: with keys and values that a command can carry, a value
-- whose PUT was answered +OK is read where it was put, and putting it changes no other cell. `cell`
-- is what is stored at a row and a column, with the answer to the `GET` of a missing one.
pub record IsTable {T : Type 0} (services : Services T) : Type 0 where
  pub cell : T → Text → Text → Text
  pub get_cell :
      (row col : Text) (t : T)
      → is_key row col ≡ true
      → services.bend_get row col t ≡ (cell t row col, t)
  pub put_cell :
      (row col val row' col' : Text) (t : T)
      → put_taken row col val (services.bend_put row col val t).0 ≡ true
      → cell ((services.bend_put row col val t).1) row' col'
        ≡ (if (row =? row') && (col =? col') then val else cell t row' col')

different : (a b : Text) → a ≢ b → (a =? b) ≡ false
different a b h = elim (Bool-cases (a =? b)) [
  | inl e ↦ absurd (h ((list_beq_iff a b).0 e))
  | inr e ↦ e
]

has_text_self : (p : Text) → has_text p p ≡ true
unfolding has_text
has_text_self p =
    subst (λ t. has_text p t ≡ true) (append-nil p) (rw (has_text, find_at_start p []) refl)

module _ {T : Type 0} (services : Services T) (table : IsTable services) (letter : Letter) where
  -- The mail is in the recipient's row, and its identifier in the recipient's list.
  abbrev pub IsStored : T → Text → Type 0
  IsStored t recipient =
      (table.cell t recipient letter.hash ≡ letter.email_string)
      × (has_text letter.hash (table.cell t recipient eid_vector) ≡ true)

  more_eids-hash : (eids : Text) → has_text letter.hash (more_eids eids letter.hash) ≡ true
  unfolding more_eids
  more_eids-hash eids = elim (Bool-cases (eids =? no_such_cell)) [
    | inl e ↦ rw (more_eids, e) (has_text_self letter.hash)
    | inr e ↦
        rw (more_eids, e)
          (has_text-append letter.hash eids (b',' ∷ letter.hash)
            (has_text-append letter.hash (b',' ∷ []) letter.hash (has_text_self letter.hash)))
  ]

  -- The two PUTs for a recipient can be carried and are answered +OK.
  abbrev pub IsOneTaken : Text → T → Type 0
  IsOneTaken recipient t =
      let eids = more_eids (table.cell t recipient eid_vector) letter.hash in
      let (status, u) = services.bend_put recipient eid_vector eids t in
      (put_taken recipient eid_vector eids status ≡ true)
      × (put_taken recipient letter.hash letter.email_string
            (services.bend_put recipient letter.hash letter.email_string u).0
          ≡ true)

  -- The PUTs for all recipients are.
  abbrev pub IsAllTaken : ℕ → List Slot → T → Type 0
  IsAllTaken zero slots t = Unit
  IsAllTaken (suc n) [] t = Unit
  IsAllTaken (suc n) (freed ∷ slots) t = Unit
  IsAllTaken (suc n) (live recipient ∷ slots) t =
      IsOneTaken recipient t × IsAllTaken n slots (deliver_one services letter recipient t).1

  pub deliver_one-cell :
      (recipient row col : Text) (t : T)
      → IsOneTaken recipient t
      → table.cell ((deliver_one services letter recipient t).1) row col ≡ (
          if (recipient =? row) && (letter.hash =? col)
          then letter.email_string
          else if (recipient =? row) && (eid_vector =? col)
          then more_eids (table.cell t recipient eid_vector) letter.hash
          else table.cell t row col)
  unfolding deliver_one
  deliver_one-cell recipient row col t taken =
      let key : is_key recipient eid_vector ≡ true = ground (arith, taken.0) in
      let eids = more_eids (table.cell t recipient eid_vector) letter.hash in
      rw
        (
          table.get_cell recipient eid_vector t key,
          table.put_cell recipient letter.hash letter.email_string row col
              (services.bend_put recipient eid_vector eids t).1 (taken.1),
          table.put_cell recipient eid_vector eids row col t (taken.0),
        )
        refl

  -- One delivery stores the mail for its recipient.
  deliver_one-IsStored :
      (recipient : Text) (t : T)
      → IsOneTaken recipient t
      → (letter.hash =? eid_vector) ≡ false
      → (eid_vector =? letter.hash) ≡ false
      → IsStored ((deliver_one services letter recipient t).1) recipient
  deliver_one-IsStored recipient t taken h k = (
    rw
        (
          deliver_one-cell recipient recipient letter.hash t taken,
          beq_refl recipient,
          beq_refl letter.hash,
        )
        refl,
    rw (deliver_one-cell recipient recipient eid_vector t taken, beq_refl recipient, h)
        (more_eids-hash (table.cell t recipient eid_vector)),
  )

  -- It takes nothing away from the others.
  deliver_one-keeps :
      (recipient a : Text) (t : T)
      → IsOneTaken recipient t
      → (letter.hash =? eid_vector) ≡ false
      → (eid_vector =? letter.hash) ≡ false
      → IsStored t a
      → IsStored ((deliver_one services letter recipient t).1) a
  deliver_one-keeps recipient a t taken h k s = elim (Bool-cases (recipient =? a)) [
    | inl e ↦
        subst (IsStored ((deliver_one services letter recipient t).1))
          ((list_beq_iff recipient a).0 e) (deliver_one-IsStored recipient t taken h k)
    | inr e ↦ (
      rw (deliver_one-cell recipient a letter.hash t taken, e) (s.0),
      rw (deliver_one-cell recipient a eid_vector t taken, e) (s.1),
    )
  ]

  every_slot :
      (n : ℕ) (x : Text) (slots : List Slot) (u : T)
      → IsStored u x
      → ((i : ℕ) (a : Text) → i < n → get_elem? slots i ≡ some (live a) → IsStored u a)
      → (i : ℕ) (a : Text) → i < suc n
      → get_elem? (live x ∷ slots) i ≡ some (live a)
      → IsStored u a
  every_slot n x slots u s stored zero a l q = subst (IsStored u) (live_injective q) s
    where
      live_injective : {x y : Text} → some (live x) ≡ some (live y) → x ≡ y
      live_injective e = cc
  every_slot n x slots u s stored (suc i) a l q = stored i a (omega arith) q

  abbrev IsDelivered : ℕ → List Slot → Session × T → Type 0
  IsDelivered n slots (c, t) =
      (d : Session) × (u : T) × (deliver_all services n slots letter (c, t) ≡ ok (d, u))
      × (length d.replies ≡ length c.replies + n)
      × ((i : ℕ) (a : Text) → i < n → get_elem? slots i ≡ some (live a) → IsStored u a)
      × ((a : Text) → IsStored t a → IsStored u a)

  delivered :
      (n : ℕ) (slots : List Slot) (c : Session) (t : T)
      → (letter.hash =? eid_vector) ≡ false
      → (eid_vector =? letter.hash) ≡ false
      → deliverable n slots ≡ true
      → IsAllTaken n slots t
      → IsDelivered n slots (c, t)
  unfolding deliver_all answer
  delivered zero slots c t h k e all =
      (c, t, refl, omega arith, (λ i a l. absurd (omega arith)), λ a s. s)
  delivered (suc n) [] c t h k e all = cc
  delivered (suc n) (freed ∷ slots) c t h k e all = cc
  delivered (suc n) (live x ∷ slots) c t h k e (one, all) =
      let (reply, v) = deliver_one services letter x t in
      let (d, u, run, count, stored, kept) =
        delivered n slots (answer reply c) v h k (ground arith) all in
      (
        d,
        u,
        run,
        omega (arith, count, length-append c.replies (reply ∷ [])),
        (λ i a l q.
            every_slot n x slots u (kept x (deliver_one-IsStored x t one h k)) stored i a l q),
        λ a s. kept a (deliver_one-keeps x a t one h k s),
      )

  -- A mail to deliverable recipients is delivered: the run ends, one reply is sent for each of
  -- them, and the mail is in each one's row under its identifier, which the recipient's list holds.
  -- The table is one that `IsTable` describes, and the identifier is not the name of the list. All
  -- PUTs are answered +OK, and a command can carry their keys and values: the recipients and the
  -- identifier are not empty and hold no white space, no recipient is `passwd`, and the mail and the
  -- lists are not empty, hold no line end and do not end in white space.
  pub deliver_all-IsStored :
      (n : ℕ) (slots : List Slot) (c : Session) (t : T)
      → letter.hash ≢ eid_vector
      → deliverable n slots ≡ true
      → IsAllTaken n slots t
      → (d : Session) × (u : T) × (deliver_all services n slots letter (c, t) ≡ ok (d, u))
        × (length d.replies ≡ length c.replies + n)
        × ((i : ℕ) (a : Text) → i < n → get_elem? slots i ≡ some (live a) → IsStored u a)
  deliver_all-IsStored n slots c t h e all =
      let (d, u, run, count, stored, _) =
        delivered n slots c t (different letter.hash eid_vector h)
          (different eid_vector letter.hash (λ q. h (sym q))) e all in
      (d, u, run, count, stored)
