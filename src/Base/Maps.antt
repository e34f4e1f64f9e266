-- ===== src/Base/Maps.antt =====
-- `std::map`, `std::unordered_map` and `std::unordered_set` as lists of entries. A map keyed by
-- numbers is kept in the order of its keys, as `std::map<int, …>` is; the hashed containers keep
-- the order of insertion, which stands for an order that the source leaves open.
pub mod Distinct
use mathlib.Core.List.{List, [], ◌∷◌}
use mathlib.Core.Path.{◌≡◌, refl}
use mathlib.Core.Bool.{Bool, true, false, ◌||◌}
use mathlib.Core.Option.{Option, none, some}
use native.Mathlib.Omega.{arith}
use Prim.Native.Nat.{ℕ}
use penn_mail_and_penn_drive.Base.Tests.{Eq, ◌=?◌, ◌==◌, ltb, if◌then◌else◌, nat_eq}

abbrev pub Map {ℓ κ} : Type ℓ → Type κ → Type (ℓ ⊔ κ)
Map K V = List (K × V)

module _ {ℓ κ} {K : Type ℓ} {V : Type κ} ⦃e : Eq K⦄ where
  unfoldable pub lookup : K → Map K V → Option V
  lookup k [] = none
  lookup k ((j, v) ∷ m) = if j =? k then some v else lookup k m

  -- `m[k] = v`
  unfoldable pub insert : K → V → Map K V → Map K V
  insert k v [] = (k, v) ∷ []
  insert k v ((j, w) ∷ m) = if j =? k then (k, v) ∷ m else (j, w) ∷ insert k v m

  -- `m.erase(k)`
  unfoldable pub erase : K → Map K V → Map K V
  erase k [] = []
  erase k ((j, v) ∷ m) = let rest = erase k m in if j =? k then rest else (j, v) ∷ rest

  -- `m.find(k) != m.end()`
  abbrev pub has : K → Map K V → Bool
  has k m = elim (lookup k m) [ none ↦ false | some _ ↦ true ]

  pub lookup-insert :
      (k j : K) (v : V) (m : Map K V)
      → lookup j (insert k v m) ≡ (if k =? j then some v else lookup j m)
  unfolding lookup insert
  lookup-insert k j v [] = refl
  lookup-insert k j v ((i, w) ∷ m) =
      ground (arith, e.beq_iff k j, e.beq_iff i k, e.beq_iff i j, lookup-insert k j v m)

  pub lookup-erase :
      (k j : K) (m : Map K V) → lookup j (erase k m) ≡ (if k =? j then none else lookup j m)
  unfolding lookup erase
  lookup-erase k j [] = ground arith
  lookup-erase k j ((i, v) ∷ m) =
      ground (arith, lookup-erase k j m, e.beq_iff i k, e.beq_iff i j, e.beq_iff k j)

-- `std::map<int, V>`
module _ {κ} {V : Type κ} where
  unfoldable pub insert_ordered : ℕ → V → Map ℕ V → Map ℕ V
  insert_ordered k v [] = (k, v) ∷ []
  insert_ordered k v ((j, w) ∷ m) =
      if k == j
      then (k, v) ∷ m
      else if ltb k j
      then (k, v) ∷ (j, w) ∷ m
      else (j, w) ∷ insert_ordered k v m

  pub lookup-insert_ordered :
      (k j : ℕ) (v : V) (m : Map ℕ V)
      → lookup j (insert_ordered k v m) ≡ (if k == j then some v else lookup j m)
  unfolding lookup insert_ordered
  lookup-insert_ordered k j v [] = refl
  lookup-insert_ordered k j v ((i, w) ∷ m) = ground (arith, lookup-insert_ordered k j v m)

pub ruleset map_laws = (lookup-insert, lookup-erase, lookup-insert_ordered)

-- `std::unordered_set`
module _ {ℓ} {A : Type ℓ} ⦃e : Eq A⦄ where
  unfoldable pub contains : A → List A → Bool
  contains a [] = false
  contains a (x ∷ xs) = (x =? a) || contains a xs

  unfoldable pub add : A → List A → List A
  unfolding contains
  add a xs = if contains a xs then xs else a ∷ xs

  unfoldable pub remove : A → List A → List A
  remove a [] = []
  remove a (x ∷ xs) = let rest = remove a xs in if x =? a then rest else x ∷ rest

  pub contains-add : (a b : A) (xs : List A) → contains b (add a xs) ≡ ((a =? b) || contains b xs)
  unfolding add contains
  contains-add a b [] = refl
  contains-add a b (x ∷ xs) =
      ground (arith, e.beq_iff a b, e.beq_iff x a, e.beq_iff x b, contains-add a b xs)

  pub contains-remove :
      (a b : A) (xs : List A) → contains b (remove a xs) ≡ (if a =? b then false else contains b xs)
  unfolding remove contains
  contains-remove a b [] = ground arith
  contains-remove a b (x ∷ xs) =
      ground (arith, e.beq_iff a b, e.beq_iff x a, e.beq_iff x b, contains-remove a b xs)

pub ruleset set_laws = (contains-add, contains-remove)

-- An array `T a[5]`, and a write to one of its places.
unfoldable pub update {ℓ} : {A : Type ℓ} → (ℕ → A) → ℕ → A → ℕ → A
update f i v j = if i == j then v else f j

pub update_self {ℓ} : {A : Type ℓ} (f : ℕ → A) (i : ℕ) (v : A) → update f i v i ≡ v
unfolding update
update_self f i v = ground arith

pub update_same {ℓ} : {A : Type ℓ} (f : ℕ → A) (i j : ℕ) → update f i (f i) j ≡ f j
unfolding update
update_same f i j = ground arith
