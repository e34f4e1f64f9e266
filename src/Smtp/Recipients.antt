-- ===== src/Smtp/Recipients.antt =====
-- What holds of a session's recipients between two instructions: those that the index counts are
-- live, and their addresses are of the form that the server asks for.
use penn_mail_and_penn_drive.Base.{
  ℕ, zero, suc, ◌≤◌, ◌≡◌, refl, subst, Bool, true, false, ◌&&◌, List, [], ◌∷◌, arith, if◌then◌else◌,
  nat_eq, list_eq, pair_eq, Outcome, ok, blocked, stopped, ◌>>=◌, >>=-result, ok-injective,
}
use penn_mail_and_penn_drive.Base.Text.{Text}
use penn_mail_and_penn_drive.Smtp.{
  Session, Stage, new, ready, transaction, mail_data, Slot, live, freed, Instruction, helo,
  mail_from, rcpt_to, data_start, quit, rset, noop, title_line, unknown, answer, refuse, reset,
  free_slots, verify_domain, set_slot, handle_common,
}

-- The first `n` entries hold addresses that `verify_domain` takes.
abbrev pub deliverable : ℕ → List Slot → Bool
deliverable zero slots = true
deliverable (suc n) [] = false
deliverable (suc n) (freed ∷ slots) = false
deliverable (suc n) (live address ∷ slots) = verify_domain address && deliverable n slots

-- A sender of the right form and deliverable recipients, at least `least` of them.
abbrev pub CanMail : ℕ → Text → ℕ → List Slot → Type 0
CanMail least sender n slots =
    (verify_domain sender ≡ true) × (deliverable n slots ≡ true) × (least ≤ n)

abbrev pub HoldsIn : Stage → Text → ℕ → List Slot → Type 0
HoldsIn new sender n slots = n ≡ 0
HoldsIn ready sender n slots = n ≡ 0
HoldsIn transaction sender n slots = CanMail 0 sender n slots
HoldsIn mail_data sender n slots = CanMail 1 sender n slots

abbrev pub IsWellFormed : Session → Type 0
IsWellFormed c = HoldsIn c.stage c.sender c.rcpt_to_buffer_idx c.slots

-- Every result of a step is well formed.
abbrev pub Keeps : Outcome Session → Type 0
Keeps m = (d : Session) → m ≡ ok d → IsWellFormed d

pub ok-Keeps : (c : Session) → IsWellFormed c → Keeps (ok c)
ok-Keeps c h d e = subst IsWellFormed (ok-injective e) h

pub bind-Keeps :
    (m : Outcome Session) (f : Session → Outcome Session)
    → Keeps m
    → ((r : Session) → IsWellFormed r → Keeps (f r))
    → Keeps (m >>= f)
bind-Keeps (ok r) f h k = k r (h r refl)
bind-Keeps blocked f h k = λ d e. cc
bind-Keeps stopped f h k = λ d e. cc

-- A choice keeps the invariant if both sides do.
pub if-Keeps :
    (b : Bool) (m n : Outcome Session)
    → (b ≡ true → Keeps m)
    → (b ≡ false → Keeps n)
    → Keeps (if b then m else n)
if-Keeps true m n h k = h refl
if-Keeps false m n h k = k refl

answer-IsWellFormed : (t : Text) (c : Session) → IsWellFormed c → IsWellFormed (answer t c)
unfolding answer
answer-IsWellFormed t c h = h

pub refuse-IsWellFormed :
    (i : Instruction) (c : Session) → IsWellFormed c → IsWellFormed (refuse i c)
unfolding refuse answer
refuse-IsWellFormed helo c h = h
refuse-IsWellFormed mail_from c h = h
refuse-IsWellFormed rcpt_to c h = h
refuse-IsWellFormed data_start c h = h
refuse-IsWellFormed quit c h = h
refuse-IsWellFormed rset c h = h
refuse-IsWellFormed noop c h = h
refuse-IsWellFormed title_line c h = h
refuse-IsWellFormed unknown c h = h

pub reset-Keeps : (c : Session) → Keeps (reset c)
unfolding reset
reset-Keeps c =
    >>=-result IsWellFormed (free_slots c.slots) _
      (λ slots d e. subst IsWellFormed (ok-injective e) refl)

pub handle_common-Keeps :
    (i : Instruction) (c : Session) → IsWellFormed c → Keeps (handle_common i c)
unfolding handle_common answer
handle_common-Keeps rset c h =
    bind-Keeps (reset c) _ (reset-Keeps c) (λ r w d e. subst IsWellFormed (ok-injective e) w)
handle_common-Keeps quit c h = λ d e. subst IsWellFormed (ok-injective e) h
handle_common-Keeps noop c h = ok-Keeps _ h
handle_common-Keeps helo c h = ok-Keeps _ (refuse-IsWellFormed helo c h)
handle_common-Keeps mail_from c h = ok-Keeps _ (refuse-IsWellFormed mail_from c h)
handle_common-Keeps rcpt_to c h = ok-Keeps _ (refuse-IsWellFormed rcpt_to c h)
handle_common-Keeps data_start c h = ok-Keeps _ (refuse-IsWellFormed data_start c h)
handle_common-Keeps title_line c h = ok-Keeps _ (refuse-IsWellFormed title_line c h)
handle_common-Keeps unknown c h = ok-Keeps _ (refuse-IsWellFormed unknown c h)

pub deliverable-set_slot :
    (n : ℕ) (address : Text) (slots : List Slot)
    → verify_domain address ≡ true
    → deliverable n slots ≡ true
    → deliverable (suc n) (set_slot n (live address) slots) ≡ true
unfolding set_slot
deliverable-set_slot zero address [] v h = ground arith
deliverable-set_slot zero address (x ∷ slots) v h = ground arith
deliverable-set_slot (suc n) address [] v h = cc
deliverable-set_slot (suc n) address (freed ∷ slots) v h = cc
deliverable-set_slot (suc n) address (live x ∷ slots) v h =
    ground (arith, deliverable-set_slot n address slots v)

-- An address changes nothing by itself.
pub address-Keeps :
    (m : Outcome Text) (f : Text → Outcome Session)
    → ((address : Text) → Keeps (f address))
    → Keeps (m >>= f)
address-Keeps m f h = >>=-result IsWellFormed m f h
