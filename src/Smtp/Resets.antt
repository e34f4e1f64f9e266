-- ===== src/Smtp/Resets.antt =====
-- The recipients' memory, which is freed but not forgotten.
use penn_mail_and_penn_drive.Base.{
  ◌≡◌, refl, sym, ap, ◌∙◌, subst, ◌≢◌, List, [], ◌∷◌, nat_eq, list_eq, pair_eq, Outcome, ok,
  blocked, stopped, ◌>>=◌, bind_assoc, ok-injective,
}
use penn_mail_and_penn_drive.Base.Text.{codes}
use penn_mail_and_penn_drive.Smtp.{
  Session, ready, transaction, Slot, live, freed, answer, reply_ok, free_slots, reset,
  handle_instruction, handle_common, identify_instruction, four_letters, starts_case, handle_ready,
  handle_transaction,
}

IsFreed : Outcome (List Slot) → Type 0
IsFreed m = (rest : List Slot) → (m >>= λ r. ok (freed ∷ r)) ≡ ok rest → free_slots rest ≡ stopped

first-IsFreed : (m : Outcome (List Slot)) → IsFreed m
unfolding IsFreed
first-IsFreed (ok r) rest h =
    subst (λ t. free_slots t ≡ stopped) (ok-injective h) (unfold free_slots in refl)
first-IsFreed blocked rest h = cc
first-IsFreed stopped rest h = cc

free_twice :
    (slots rest : List Slot) → slots ≢ [] → free_slots slots ≡ ok rest → free_slots rest ≡ stopped
unfolding free_slots IsFreed
free_twice [] rest n h = absurd (n refl)
free_twice (live a ∷ slots) rest n h = first-IsFreed (free_slots slots) rest h
free_twice (freed ∷ slots) rest n h = cc

abbrev reset_of : Session → List Slot → Session
reset_of c slots = record c {
  stage = ready;
  rcpt_to_buffer_idx = 0;
  my_name = [];
  sender = [];
  data_buffer = [];
  slots = slots;
}

reset_slots :
    (c : Session) (m : Outcome (List Slot)) (d : Session)
    → (m >>= λ slots. ok (answer reply_ok (reset_of c slots))) ≡ ok d
    → (m ≡ ok d.slots) × (d.stage ≡ ready)
unfolding answer
reset_slots c (ok slots) d h = (
  ap ok (ap (λ (s : Session). s.slots) (ok-injective h)),
  sym (ap (λ (s : Session). s.stage) (ok-injective h)),
)
reset_slots c blocked d h = cc
reset_slots c stopped d h = cc

rset_when_ready :
    (c : Session)
    → c.stage ≡ ready
    → handle_instruction (codes "RSET") c
      ≡ (free_slots c.slots >>= λ slots. ok (answer reply_ok (reset_of c slots)))
unfolding handle_instruction handle_ready handle_common reset identify_instruction four_letters
    starts_case
rset_when_ready c e = rw (handle_instruction, e) (bind_assoc (free_slots c.slots) _ _)

rset_in_transaction :
    (c : Session)
    → c.stage ≡ transaction
    → handle_instruction (codes "RSET") c
      ≡ (free_slots c.slots >>= λ slots. ok (answer reply_ok (reset_of c slots)))
unfolding handle_instruction handle_transaction handle_common reset identify_instruction
    four_letters starts_case
rset_in_transaction c e = rw (handle_instruction, e) (bind_assoc (free_slots c.slots) _ _)

-- `RSET` in a transaction frees the recipients' entries and leaves them in the array: if there is
-- one, the next `RSET` frees it again.
pub rset_twice :
    (c d : Session)
    → c.stage ≡ transaction
    → c.slots ≢ []
    → handle_instruction (codes "RSET") c ≡ ok d
    → handle_instruction (codes "RSET") d ≡ stopped
rset_twice c d e n h =
    let (slots, again) = reset_slots c (free_slots c.slots) d (sym (rset_in_transaction c e) ∙ h) in
    rset_when_ready d again
    ∙ ap (λ m. m >>= λ slots. ok (answer reply_ok (reset_of d slots)))
        (free_twice c.slots d.slots n slots)
