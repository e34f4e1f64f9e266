-- ===== src/Base/Maps/Distinct.antt =====
-- Maps whose keys differ.
use mathlib.Core.List.{[], ◌∷◌}
use mathlib.Core.Option.{none, some}
use mathlib.Core.Path.{◌≡◌, refl, subst}
use mathlib.Core.Logic.{inl, inr}
use native.Mathlib.Omega.{arith}
use penn_mail_and_penn_drive.Base.Tests.{Eq, ◌=?◌, Bool-cases}
use penn_mail_and_penn_drive.Base.Maps.{Map, lookup, insert, erase, lookup-insert, lookup-erase}

module _ {ℓ κ} {K : Type ℓ} {V : Type κ} ⦃e : Eq K⦄ where
  abbrev pub Distinct : Map K V → Type κ
  Distinct [] = Unit
  Distinct ((k, v) ∷ m) = (lookup k m ≡ none) × Distinct m

  -- Entries are put in from the first to the last.
  abbrev pub insert_all : Map K V → Map K V → Map K V
  insert_all [] acc = acc
  insert_all ((k, v) ∷ m) acc = insert_all m (insert k v acc)

  -- The entries of a map whose keys differ take the place of what is there.
  pub lookup-insert_all :
      (k : K) (m acc : Map K V)
      → Distinct m
      → lookup k (insert_all m acc) ≡ (elim (lookup k m) [ none ↦ lookup k acc | some v ↦ some v ])
  unfolding lookup
  lookup-insert_all k [] acc h = refl
  lookup-insert_all k ((j, v) ∷ m) acc h = ground (
    arith,
    h.1,
    h.0,
    e.beq_iff j k,
    lookup-insert j k v acc,
    lookup-insert_all k m (insert j v acc) h.1,
  )

  pub insert-Distinct : (k : K) (v : V) (m : Map K V) → Distinct m → Distinct (insert k v m)
  unfolding lookup insert
  insert-Distinct k v [] h = (refl, tt)
  insert-Distinct k v ((j, w) ∷ m) h = elim (Bool-cases (j =? k)) [
    | inl q ↦ rw q (subst (λ i. lookup i m ≡ none) ((e.beq_iff j k).0 q) h.0, h.1)
    | inr q ↦ rw q (
      ground (arith, lookup-insert k j v m, e.beq_iff k j, e.beq_iff j k, h.0),
      insert-Distinct k v m h.1,
    )
  ]

  pub erase-Distinct : (k : K) (m : Map K V) → Distinct m → Distinct (erase k m)
  unfolding erase
  erase-Distinct k [] h = tt
  erase-Distinct k ((j, w) ∷ m) h = elim (Bool-cases (j =? k)) [
    | inl q ↦ rw q (erase-Distinct k m h.1)
    | inr q ↦ rw q (ground (arith, lookup-erase k j m, e.beq_iff k j, h.0), erase-Distinct k m h.1)
  ]
