-- ===== src/Base/Text/Search.antt =====
-- Where a text is first found, if bytes that it lacks stand around.
use mathlib.Core.Bool.{false}
use mathlib.Core.List.{[], ◌∷◌, ◌++◌}
use mathlib.Core.Logic.{◌≢◌, inl, inr}
use mathlib.Core.Option.{Option, none, some}
use mathlib.Core.Path.{◌≡◌, refl, ap, ◌∙◌}
use native.Mathlib.Omega.{arith}
use Prim.Native.Nat.{ℕ}
use penn_mail_and_penn_drive.Base.Tests.{Option-cases}
use penn_mail_and_penn_drive.Base.Text.{Text, Lacks, starts_with, find}
use penn_mail_and_penn_drive.Base.Text.Laws.{find_longer}

-- The same match, with `a` in front.
abbrev pub in_front : Text → Option (Text × Text) → Option (Text × Text)
in_front a none = none
in_front a (some (c, d)) = some (a ++ c, d)

starts_with_barrier :
    (x : ℕ) (p a b : Text) → Lacks x p → starts_with p (a ++ x ∷ b) ≡ starts_with p a
unfolding starts_with
starts_with_barrier x [] a b h = refl
starts_with_barrier x (y ∷ p) [] b h = ground arith
starts_with_barrier x (y ∷ p) (z ∷ a) b h = ground (arith, starts_with_barrier x p a b h.1)

find_cons_none :
    (p : Text) (x : ℕ) (s : Text)
    → find p (x ∷ s) ≡ none
    → (starts_with p (x ∷ s) ≡ false) × (find p s ≡ none)
unfolding find
find_cons_none p x s h = ground arith

find_step :
    (p : Text) (x : ℕ) (s : Text)
    → starts_with p (x ∷ s) ≡ false
    → find p (x ∷ s) ≡ in_front (x ∷ []) (find p s)
unfolding find
find_step p x s h = ground arith

in_front-cons :
    (x : ℕ) (a : Text) (o : Option (Text × Text))
    → in_front (x ∷ []) (in_front a o) ≡ in_front (x ∷ a) o
in_front-cons x a none = refl
in_front-cons x a (some r) = refl

-- No match reaches over a byte that the pattern lacks.
pub find_barrier :
    (x : ℕ) (p a b : Text)
    → Lacks x p
    → p ≢ []
    → find p a ≡ none
    → find p (a ++ x ∷ b) ≡ in_front (a ++ x ∷ []) (find p b)
find_barrier x [] a b l h e = absurd (h refl)
find_barrier x (y ∷ p) [] b l h e = find_step (y ∷ p) x b (unfold starts_with in ground arith)
find_barrier x (y ∷ p) (z ∷ a) b l h e =
    let (miss, rest) = find_cons_none (y ∷ p) z a e in
    find_step (y ∷ p) z (a ++ x ∷ b) (starts_with_barrier x (y ∷ p) (z ∷ a) b l ∙ miss)
    ∙ ap (in_front (z ∷ [])) (find_barrier x (y ∷ p) a b l h rest)
    ∙ in_front-cons z (a ++ x ∷ []) (find (y ∷ p) b)

-- A text without the first byte of the pattern is passed over.
pub find_skip :
    (y : ℕ) (p a b : Text) → Lacks y a → find (y ∷ p) (a ++ b) ≡ in_front a (find (y ∷ p) b)
find_skip y p [] b l = nothing (find (y ∷ p) b)
  where
    nothing : (o : Option (Text × Text)) → o ≡ in_front [] o
    nothing none = refl
    nothing (some r) = refl
find_skip y p (z ∷ a) b l =
    find_step (y ∷ p) z (a ++ b) (unfold starts_with in ground arith)
    ∙ ap (in_front (z ∷ [])) (find_skip y p a b l.1)
    ∙ in_front-cons z a (find (y ∷ p) b)

append_cons-ne-nil : (c : Text) (x : ℕ) (b : Text) → c ++ x ∷ b ≢ []
append_cons-ne-nil [] x b e = cc
append_cons-ne-nil (y ∷ c) x b e = cc

-- Where the first match ends the text, a shorter part of it holds none.
pub find_prefix-none :
    (p a b w : Text) (x : ℕ) → find p (a ++ x ∷ b) ≡ some (w, []) → find p a ≡ none
find_prefix-none p a b w x h = elim (Option-cases (find p a)) [
  | inl e ↦ e
  | inr (r, e) ↦
      absurd (ground (arith, find_longer p a (x ∷ b) r.0 r.1 e, append_cons-ne-nil r.1 x b))
]
