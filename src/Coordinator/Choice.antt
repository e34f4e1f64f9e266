-- ===== src/Coordinator/Choice.antt =====
-- `choose_random_server` of backend/coordinator.cpp.
use penn_mail_and_penn_drive.Base.{
  ℕ, zero, suc, ◌%◌, ◌≡◌, refl, ap, sym, ◌∙◌, subst, Bool, true, false, List, [], ◌∷◌, Option, none,
  some, arith, ◌||◌, ◌==◌, length, get_elem?, if◌then◌else◌, ◌=?◌, beq_refl, nat_eq, list_eq, ok,
  blocked, ok-injective,
}
use penn_mail_and_penn_drive.Base.Maps.{lookup, contains}
use penn_mail_and_penn_drive.Coordinator.{Name, Coordinator, set_at, pick, choose_random_server}

-- A server that is alive and not paused.
abbrev pub Available : ℕ → Coordinator → Name → Type 0
Available partition c s =
    (contains s (set_at partition c.alive_servers) ≡ true)
    × (contains s (set_at partition c.paused_servers) ≡ false)

or_true : (a b : Bool) → b ≡ true → (a || b) ≡ true
or_true a b h = ground (arith, h)

some-injective : {x s : Name} → some x ≡ some s → x ≡ s
some-injective h = cc

contains-get_elem :
    (l : List Name) (i : ℕ) (s : Name) → get_elem? l i ≡ some s → contains s l ≡ true
unfolding contains
contains-get_elem [] i s h = cc
contains-get_elem (x ∷ l) zero s h =
    subst (λ z. ((x =? z) || contains z l) ≡ true) (some-injective h)
      (ap (λ b. b || contains x l) (beq_refl x))
contains-get_elem (x ∷ l) (suc i) s h = or_true (x =? s) (contains s l) (contains-get_elem l i s h)

module _ (servers paused : List Name) (s : Name) where
  Fits : Type 0
  Fits = (contains s servers ≡ true) × (contains s paused ≡ false)

  taken :
      (i : ℕ) (x : Name) (b : Bool) (rest : Option Name)
      → (rest ≡ some s → Fits)
      → get_elem? servers i ≡ some x
      → contains x paused ≡ b
      → (if b then rest else some x) ≡ some s
      → Fits
  unfolding Fits
  taken i x true rest q e p g = q g
  taken i x false rest q e p g = (
    contains-get_elem servers i s (e ∙ g),
    subst (λ z. contains z paused ≡ false) (some-injective g) p,
  )

  tried :
      (i : ℕ) (o rest : Option Name)
      → (rest ≡ some s → Fits)
      → get_elem? servers i ≡ o
      → elim o [ none ↦ rest | some x ↦ (if contains x paused then rest else some x) ] ≡ some s
      → Fits
  tried i none rest q e g = q g
  tried i (some x) rest q e g = taken i x (contains x paused) rest q e refl g

  pick-Fits : (rand : List ℕ) → pick rand servers paused ≡ some s → Fits
  unfolding pick
  pick-Fits [] h = cc
  pick-Fits (r ∷ rand) h =
      tried (r % length servers) (get_elem? servers (r % length servers)) (pick rand servers paused)
        (pick-Fits rand) refl h

none-ne-some : {s : Name} {B : Type 0} → ok none ≡ ok (some s) → B
none-ne-some h = absurd_option (ok-injective h)
  where
    absurd_option : {s : Name} {B : Type 0} → none ≡ some s → B
    absurd_option e = cc

-- A server that `choose_random_server` names is alive in the partition and not paused.
pub choose_random_server-Available :
    (rand : List ℕ) (partition : ℕ) (c : Coordinator) (s : Name)
    → choose_random_server rand partition c ≡ ok (some s)
    → Available partition c s
unfolding choose_random_server Fits
choose_random_server-Available rand partition c s h = go (lookup partition c.alive_servers) refl h
  where
    paused : List Name
    paused = set_at partition c.paused_servers

    picked :
        (l : List Name) (o : Option Name)
        → pick rand l paused ≡ o
        → elim o [ none ↦ blocked | some x ↦ ok (some x) ] ≡ ok (some s)
        → Fits l paused s
    picked l none e g = cc
    picked l (some x) e g = pick-Fits l paused s rand (e ∙ ok-injective g)

    chosen :
        (a b : Bool) (l : List Name)
        → (if a
            then ok none
            else if b
            then ok none
            else elim (pick rand l paused) [ none ↦ blocked | some x ↦ ok (some x) ])
          ≡ ok (some s)
        → Fits l paused s
    chosen true b l g = none-ne-some g
    chosen false true l g = none-ne-some g
    chosen false false l g = picked l (pick rand l paused) refl g

    go :
        (o : Option (List Name))
        → lookup partition c.alive_servers ≡ o
        → elim o [
          | none ↦ ok none
          | some l ↦
              (if length l == 0
                then ok none
                else if length l == length paused
                then ok none
                else elim (pick rand l paused) [ none ↦ blocked | some x ↦ ok (some x) ])
        ]
          ≡ ok (some s)
        → Available partition c s
    go none e g = none-ne-some g
    go (some l) e g =
        subst
          (λ o.
            (contains s (elim o [ none ↦ [] | some k ↦ k ]) ≡ true) × (contains s paused ≡ false))
          (sym e) (chosen (length l == 0) (length l == length paused) l g)
