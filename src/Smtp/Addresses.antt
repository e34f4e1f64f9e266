-- ===== src/Smtp/Addresses.antt =====
-- The addresses that `verify_domain` takes.
use penn_mail_and_penn_drive.Base.{
  ℕ, ◌≡◌, refl, sym, ap, subst, ◌≢◌, ◌↔◌, inl, inr, true, false, not, ◌&&◌, some, [], ◌∷◌, ◌++◌,
  arith, ◌==◌, Bool-cases, Option-cases, ◌=?◌, nat_eq, list_eq, pair_eq, beq_refl, list_beq_iff,
  length, length-append,
}
use penn_mail_and_penn_drive.Base.Text.{Text, Lacks, before, after?}
use penn_mail_and_penn_drive.Base.Text.Laws.{after?-append}
use penn_mail_and_penn_drive.Smtp.{verify_domain}

-- Something before the first at sign, and something behind it.
abbrev pub IsAddress : Text → Type 0
IsAddress address =
    (user : Text) × (host : Text) × (address ≡ user ++ b'@' ∷ host)
    × Lacks b'@' user
    × (user ≢ [])
    × (host ≢ [])

after?_sound :
    (c : ℕ) (s r : Text) → after? c s ≡ some r → (s ≡ before c s ++ c ∷ r) × Lacks c (before c s)
unfolding after? before
after?_sound c [] r h = cc
after?_sound c (x ∷ s) r h = elim (Bool-cases (x == c)) [
  | inl e ↦ (ground arith, rw e tt)
  | inr e ↦
      let (a, l) = after?_sound c s r (ground arith) in (ground (arith, a), rw e (ground arith, l))
]

longer-ne : (user rest : Text) → user ≢ [] → (user ++ rest =? rest) ≡ false
longer-ne user rest h = elim (Bool-cases (user ++ rest =? rest)) [
  | inl e ↦ absurd (
      h (
        nil user (
          omega
            (arith, ap length ((list_beq_iff (user ++ rest) rest).0 e), length-append user rest))))
  | inr e ↦ e
]
  where
    nil : (s : Text) → length s ≡ 0 → s ≡ []
    nil [] e = refl
    nil (x ∷ s) e = absurd (omega arith)

nil_test : (s : Text) → s ≢ [] → (s =? []) ≡ false
nil_test [] h = absurd (h refl)
nil_test (x ∷ s) h = refl

nil_test_sound : (s : Text) → (s =? []) ≡ false → s ≢ []
nil_test_sound [] h e = cc
nil_test_sound (x ∷ s) h e = cc

at_start : (user rest : Text) → (user ++ rest =? rest) ≡ false → user ≢ []
at_start user rest h e = ground (arith, subst (λ u. (u ++ rest =? rest) ≡ false) e h, beq_refl rest)

verified :
    (address host : Text)
    → after? b'@' address ≡ some host
    → (not (address =? b'@' ∷ host) && not (host =? [])) ≡ true
    → IsAddress address
verified address host e h =
    let (whole, lacks) = after?_sound b'@' address host e in
    (
      before b'@' address,
      host,
      whole,
      lacks,
      at_start (before b'@' address) (b'@' ∷ host)
          (subst (λ t. (t =? b'@' ∷ host) ≡ false) whole (ground arith)),
      nil_test_sound host (ground arith),
    )

verify_domain_sound : (address : Text) → verify_domain address ≡ true → IsAddress address
unfolding verify_domain
verify_domain_sound address h = elim (Option-cases (after? b'@' address)) [
  | inl e ↦ absurd (ground arith)
  | inr (host, e) ↦ verified address host e (ground arith)
]

verify_domain_complete : (address : Text) → IsAddress address → verify_domain address ≡ true
unfolding verify_domain
verify_domain_complete address (user, host, whole, lacks, some_user, some_host) =
    subst (λ t. verify_domain t ≡ true) (sym whole)
      (rw
        (
          verify_domain,
          after?-append b'@' user host lacks,
          longer-ne user (b'@' ∷ host) some_user,
          nil_test host some_host,
        )
        refl)

-- An address is taken just if something stands before its first at sign and something behind it.
pub verify_domain_iff : (address : Text) → (verify_domain address ≡ true) ↔ IsAddress address
verify_domain_iff address = (verify_domain_sound address, verify_domain_complete address)
