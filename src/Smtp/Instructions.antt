-- ===== src/Smtp/Instructions.antt =====
-- Every instruction keeps the recipients of a session in order.
use penn_mail_and_penn_drive.Base.{
  ℕ, zero, suc, ◌≡◌, refl, sym, subst, Bool, true, false, List, arith, ltb, if◌then◌else◌, nat_eq,
  list_eq, pair_eq, length, ok, stopped, ok-injective,
}
use penn_mail_and_penn_drive.Base.Text.{Text}
use penn_mail_and_penn_drive.Smtp.{
  Session, Stage, new, ready, transaction, mail_data, Slot, live, Instruction, helo, mail_from,
  rcpt_to, data_start, quit, rset, noop, title_line, unknown, answer, bound_address, is_bound,
  verify_domain, set_slot, add_recipient, reply_ok, handle_new, handle_mail_from, handle_ready,
  handle_rcpt_to, handle_data_start, handle_transaction, handle_instruction, identify_instruction,
  start_session,
}
use penn_mail_and_penn_drive.Smtp.Recipients.{
  CanMail, HoldsIn, IsWellFormed, Keeps, ok-Keeps, if-Keeps, refuse-IsWellFormed,
  handle_common-Keeps, deliverable-set_slot, address-Keeps,
}

handle_new-Keeps :
    (i : Instruction) (s : Text) (c : Session)
    → c.stage ≡ new
    → IsWellFormed c
    → Keeps (handle_new i s c)
unfolding handle_new answer
handle_new-Keeps helo s c e h =
    if-Keeps (ltb 126 (length s)) stopped (ok _) (λ b d q. cc)
      (λ b d q.
        subst IsWellFormed (ok-injective q)
          (subst (λ g. HoldsIn g c.sender c.rcpt_to_buffer_idx c.slots) e h))
handle_new-Keeps mail_from s c e h = ok-Keeps _ (refuse-IsWellFormed mail_from c h)
handle_new-Keeps rcpt_to s c e h = ok-Keeps _ (refuse-IsWellFormed rcpt_to c h)
handle_new-Keeps data_start s c e h = ok-Keeps _ (refuse-IsWellFormed data_start c h)
handle_new-Keeps quit s c e h = ok-Keeps _ (refuse-IsWellFormed quit c h)
handle_new-Keeps rset s c e h = ok-Keeps _ (refuse-IsWellFormed rset c h)
handle_new-Keeps noop s c e h = ok-Keeps _ (refuse-IsWellFormed noop c h)
handle_new-Keeps title_line s c e h = ok-Keeps _ (refuse-IsWellFormed title_line c h)
handle_new-Keeps unknown s c e h = ok-Keeps _ (refuse-IsWellFormed unknown c h)

no_recipients :
    (sender : Text) (n : ℕ) (slots : List Slot)
    → n ≡ 0
    → verify_domain sender ≡ true
    → CanMail 0 sender n slots
no_recipients sender zero slots e v = (v, refl, omega arith)
no_recipients sender (suc n) slots e v = absurd (omega arith)

handle_mail_from-Keeps :
    (s : Text) (c : Session)
    → c.rcpt_to_buffer_idx ≡ 0
    → IsWellFormed c
    → Keeps (handle_mail_from s c)
unfolding handle_mail_from answer
handle_mail_from-Keeps s c z h =
    if-Keeps (is_bound 10 s) _ _
      (λ _. address-Keeps (bound_address 10 s) _ (λ address.
        if-Keeps (verify_domain address) _ _
          (λ v d e.
            subst IsWellFormed (ok-injective e)
              (no_recipients address c.rcpt_to_buffer_idx c.slots z v))
          (λ _ d e. subst IsWellFormed (ok-injective e) h)))
      (λ _ d e. subst IsWellFormed (ok-injective e) h)

handle_ready-Keeps :
    (i : Instruction) (s : Text) (c : Session)
    → c.rcpt_to_buffer_idx ≡ 0
    → IsWellFormed c
    → Keeps (handle_ready i s c)
unfolding handle_ready
handle_ready-Keeps mail_from s c z h = handle_mail_from-Keeps s c z h
handle_ready-Keeps helo s c z h = handle_common-Keeps helo c h
handle_ready-Keeps rcpt_to s c z h = handle_common-Keeps rcpt_to c h
handle_ready-Keeps data_start s c z h = handle_common-Keeps data_start c h
handle_ready-Keeps quit s c z h = handle_common-Keeps quit c h
handle_ready-Keeps rset s c z h = handle_common-Keeps rset c h
handle_ready-Keeps noop s c z h = handle_common-Keeps noop c h
handle_ready-Keeps title_line s c z h = handle_common-Keeps title_line c h
handle_ready-Keeps unknown s c z h = handle_common-Keeps unknown c h

-- The index counts one recipient more.
one_more :
    (address sender : Text) (n : ℕ) (slots : List Slot)
    → verify_domain address ≡ true
    → CanMail 0 sender n slots
    → CanMail 0 sender (suc n) (set_slot n (live address) slots)
one_more address sender n slots v (w, h, _) =
    (w, deliverable-set_slot n address slots v h, omega arith)

handle_rcpt_to-Keeps :
    (s : Text) (c : Session) → c.stage ≡ transaction → IsWellFormed c → Keeps (handle_rcpt_to s c)
unfolding handle_rcpt_to answer add_recipient
handle_rcpt_to-Keeps s c g h =
    if-Keeps (is_bound 8 s) _ _
      (λ _. address-Keeps (bound_address 8 s) _ (λ address.
        if-Keeps (verify_domain address) _ _
          (λ v. ok-Keeps (answer reply_ok (add_recipient address c)) (
            subst
              (λ t.
                HoldsIn t c.sender (suc c.rcpt_to_buffer_idx)
                  (set_slot c.rcpt_to_buffer_idx (live address) c.slots))
              (sym g)
              (one_more address c.sender c.rcpt_to_buffer_idx c.slots v
                (subst (λ t. HoldsIn t c.sender c.rcpt_to_buffer_idx c.slots) g h))))
          (λ _ d e. subst IsWellFormed (ok-injective e) h)))
      (λ _ d e. subst IsWellFormed (ok-injective e) h)

-- The data may start if there is a recipient.
data_start-IsWellFormed :
    (c : Session) → c.stage ≡ transaction → IsWellFormed c → IsWellFormed (handle_data_start c)
unfolding handle_data_start answer
data_start-IsWellFormed c g h =
    well_formed_if (ltb c.rcpt_to_buffer_idx 1) _ _ (λ _. h)
      (λ l.
        counted c.sender c.rcpt_to_buffer_idx c.slots l
          (subst (λ t. HoldsIn t c.sender c.rcpt_to_buffer_idx c.slots) g h))
  where
    well_formed_if :
        (b : Bool) (m n : Session)
        → (b ≡ true → IsWellFormed m)
        → (b ≡ false → IsWellFormed n)
        → IsWellFormed (if b then m else n)
    well_formed_if true m n h k = h refl
    well_formed_if false m n h k = k refl

    counted :
        (sender : Text) (n : ℕ) (slots : List Slot)
        → ltb n 1 ≡ false
        → CanMail 0 sender n slots
        → CanMail 1 sender n slots
    counted sender n slots l (w, d, _) = (w, d, ground arith)

handle_transaction-Keeps :
    (i : Instruction) (s : Text) (c : Session)
    → c.stage ≡ transaction
    → IsWellFormed c
    → Keeps (handle_transaction i s c)
unfolding handle_transaction answer
handle_transaction-Keeps rcpt_to s c g h = handle_rcpt_to-Keeps s c g h
handle_transaction-Keeps title_line s c g h = λ d e. subst IsWellFormed (ok-injective e) h
handle_transaction-Keeps data_start s c g h = ok-Keeps _ (data_start-IsWellFormed c g h)
handle_transaction-Keeps mail_from s c g h = handle_common-Keeps mail_from c h
handle_transaction-Keeps helo s c g h = handle_common-Keeps helo c h
handle_transaction-Keeps quit s c g h = handle_common-Keeps quit c h
handle_transaction-Keeps rset s c g h = handle_common-Keeps rset c h
handle_transaction-Keeps noop s c g h = handle_common-Keeps noop c h
handle_transaction-Keeps unknown s c g h = handle_common-Keeps unknown c h

staged_Keeps :
    (i : Instruction) (s : Text) (c : Session) (g : Stage)
    → c.stage ≡ g
    → IsWellFormed c
    → Keeps (elim g [
      | new ↦ handle_new i s c
      | ready ↦ handle_ready i s c
      | transaction ↦ handle_transaction i s c
      | mail_data ↦ ok c
    ])
staged_Keeps i s c new e h = handle_new-Keeps i s c e h
staged_Keeps i s c ready e h =
    handle_ready-Keeps i s c (subst (λ t. HoldsIn t c.sender c.rcpt_to_buffer_idx c.slots) e h) h
staged_Keeps i s c transaction e h = handle_transaction-Keeps i s c e h
staged_Keeps i s c mail_data e h = ok-Keeps c h

-- Every instruction keeps the invariant.
pub handle_instruction-Keeps :
    (s : Text) (c : Session) → IsWellFormed c → Keeps (handle_instruction s c)
unfolding handle_instruction
handle_instruction-Keeps s c h = staged_Keeps (identify_instruction s) s c c.stage refl h

pub start_session-IsWellFormed : IsWellFormed start_session
unfolding start_session
start_session-IsWellFormed = refl
