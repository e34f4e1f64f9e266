-- ===== src/Base/Text/Laws.antt =====
-- Cutting and searching texts.
use Prim.Native.Nat.{ℕ, ◌≤◌}
use mathlib.Core.Bool.{true, false}
use mathlib.Core.List.{[], ◌∷◌, ◌++◌, append_assoc, append-nil}
use mathlib.Core.Logic.{◌≢◌, inl, inr}
use mathlib.Core.Option.{none, some}
use mathlib.Core.Path.{◌≡◌, refl, ap}
use native.Mathlib.Omega.{arith}
use penn_mail_and_penn_drive.Base.Tests.{◌==◌, if◌then◌else◌, Bool-cases, Option-cases}
use penn_mail_and_penn_drive.Base.Lists.{length, drop, drop-append, length-append}
use penn_mail_and_penn_drive.Base.Text.{
  Text, Lacks, before, after, after?, before_last, before_last?, starts_with, find, split, tokens,
  last_token, later_suffix, after_last,
}

module _ (c : ℕ) where
  pub before-append : (a b : Text) → Lacks c a → before c (a ++ c ∷ b) ≡ a
  unfolding before
  before-append [] b h = ground arith
  before-append (x ∷ a) b h = ground (arith, before-append a b h.1)

  pub before-Lacks : (a : Text) → Lacks c a → before c a ≡ a
  unfolding before
  before-Lacks [] h = refl
  before-Lacks (x ∷ a) h = ground (arith, before-Lacks a h.1)

  pub after?-append : (a b : Text) → Lacks c a → after? c (a ++ c ∷ b) ≡ some b
  unfolding after?
  after?-append [] b h = ground arith
  after?-append (x ∷ a) b h = ground (arith, after?-append a b h.1)

  pub after?-Lacks : (a : Text) → Lacks c a → after? c a ≡ none
  unfolding after?
  after?-Lacks [] h = refl
  after?-Lacks (x ∷ a) h = ground (arith, after?-Lacks a h.1)

  pub after-append : (a b : Text) → Lacks c a → after c (a ++ c ∷ b) ≡ b
  unfolding after
  after-append a b h = rw (after?-append a b h, after)

  before_last?-Lacks : (b : Text) → Lacks c b → before_last? c b ≡ none
  unfolding before_last?
  before_last?-Lacks [] h = refl
  before_last?-Lacks (x ∷ b) h = ground (arith, before_last?-Lacks b h.1)

  pub before_last?-append : (a b : Text) → Lacks c b → before_last? c (a ++ c ∷ b) ≡ some a
  unfolding before_last?
  before_last?-append [] b h = ground (arith, before_last?-Lacks b h)
  before_last?-append (x ∷ a) b h = ground (arith, before_last?-append a b h)

  -- Everything in front of the last `c`.
  pub before_last-append : (a b : Text) → Lacks c b → before_last c (a ++ c ∷ b) ≡ a
  unfolding before_last
  before_last-append a b h = rw (before_last?-append a b h, before_last)

  later_suffix-Lacks : (s best : Text) → Lacks c s → later_suffix c s best ≡ best
  unfolding later_suffix
  later_suffix-Lacks [] best h = refl
  later_suffix-Lacks (x ∷ s) best h = ground (arith, later_suffix-Lacks s best h.1)

  later_suffix-append : (a b best : Text) → Lacks c b → later_suffix c (a ++ c ∷ b) best ≡ b
  unfolding later_suffix
  later_suffix-append [] b best h = ground (arith, later_suffix-Lacks b b h)
  later_suffix-append (x ∷ a) b best h =
      later_suffix-append a b (if x == c then a ++ c ∷ b else best) h

  -- Everything behind the last `c`.
  pub after_last-append : (a b : Text) → Lacks c b → after_last c (a ++ c ∷ b) ≡ b
  unfolding after_last
  after_last-append a b h = later_suffix-append a b (a ++ c ∷ b) h

  pub tokens-append :
      (a b token : Text) → Lacks c a → tokens c (a ++ c ∷ b) token ≡ (token ++ a) ∷ split c b
  unfolding tokens split
  tokens-append [] b token h = ground (arith, append-nil token)
  tokens-append (x ∷ a) b token h =
      ground (arith, tokens-append a b (token ++ x ∷ []) h.1, append_assoc token (x ∷ []) a)

  pub split-append : (a b : Text) → Lacks c a → split c (a ++ c ∷ b) ≡ a ∷ split c b
  unfolding split
  split-append a b h = tokens-append a b [] h

  tokens-Lacks : (a token : Text) → Lacks c a → tokens c a token ≡ last_token (token ++ a)
  unfolding tokens
  tokens-Lacks [] token h = rw append-nil
  tokens-Lacks (x ∷ a) token h =
      ground (arith, tokens-Lacks a (token ++ x ∷ []) h.1, append_assoc token (x ∷ []) a)

  -- A part without the separator goes into the token.
  pub tokens_pass :
      (a s token : Text) → Lacks c a → tokens c (a ++ s) token ≡ tokens c s (token ++ a)
  unfolding tokens
  tokens_pass [] s token h = rw append-nil
  tokens_pass (x ∷ a) s token h =
      ground (arith, tokens_pass a s (token ++ x ∷ []) h.1, append_assoc token (x ∷ []) a)

  pub tokens_at_separator :
      (x : ℕ) (s token : Text) → (x == c) ≡ true → tokens c (x ∷ s) token ≡ token ∷ split c s
  unfolding tokens split
  tokens_at_separator x s token e = rw (e, tokens)

  pub tokens_at_other :
      (x : ℕ) (s token : Text)
      → (x == c) ≡ false
      → tokens c (x ∷ s) token ≡ tokens c s (token ++ x ∷ [])
  unfolding tokens
  tokens_at_other x s token e = rw (e, tokens)

  pub tokens_of_token-ne-nil : (s : Text) (x : ℕ) (token : Text) → tokens c s (x ∷ token) ≢ []
  unfolding tokens last_token
  tokens_of_token-ne-nil [] x token e = cc
  tokens_of_token-ne-nil (y ∷ s) x token e =
      ground (arith, tokens_of_token-ne-nil s x (token ++ y ∷ []))

  -- A text that is not empty has a token.
  pub split-ne-nil : (x : ℕ) (s : Text) → split c (x ∷ s) ≢ []
  unfolding split tokens
  split-ne-nil x s e = ground (arith, tokens_of_token-ne-nil s x [])

  -- A text that is one token.
  pub split-Lacks : (x : ℕ) (a : Text) → Lacks c (x ∷ a) → split c (x ∷ a) ≡ (x ∷ a) ∷ []
  unfolding split last_token
  split-Lacks x a h = tokens-Lacks (x ∷ a) [] h

pub starts_with-append : (p s : Text) → starts_with p (p ++ s) ≡ true
unfolding starts_with
starts_with-append [] s = refl
starts_with-append (x ∷ p) s = ground (arith, starts_with-append p s)

starts_with-longer : (p s r : Text) → starts_with p s ≡ true → starts_with p (s ++ r) ≡ true
unfolding starts_with
starts_with-longer [] s r h = refl
starts_with-longer (y ∷ p) [] r h = cc
starts_with-longer (y ∷ p) (x ∷ s) r h = ground (arith, starts_with-longer p s r)

drop-longer :
    (p s r : Text) → starts_with p s ≡ true → drop (length p) (s ++ r) ≡ drop (length p) s ++ r
unfolding starts_with
drop-longer [] s r h = refl
drop-longer (y ∷ p) [] r h = cc
drop-longer (y ∷ p) (x ∷ s) r h = drop-longer p s r (ground arith)

-- A match is found at the start.
pub find_at_start : (p s : Text) → find p (p ++ s) ≡ some ([], s)
unfolding find starts_with
find_at_start [] [] = refl
find_at_start [] (x ∷ s) = refl
find_at_start (y ∷ p) s = ground (arith, starts_with-append p s, drop-append p s)

starts_with_sound : (p s : Text) → starts_with p s ≡ true → s ≡ p ++ drop (length p) s
unfolding starts_with
starts_with_sound [] s h = refl
starts_with_sound (y ∷ p) [] h = cc
starts_with_sound (y ∷ p) (x ∷ s) h = ground (arith, starts_with_sound p s (ground arith))

find_in_nil : (p a b : Text) → find p [] ≡ some (a, b) → [] ≡ a ++ (p ++ b)
unfolding find
find_in_nil [] a b h = ground arith
find_in_nil (y ∷ p) a b h = unfold starts_with in ground arith

-- What is found and what is behind it: the text is put together again.
pub find_sound : (p s a b : Text) → find p s ≡ some (a, b) → s ≡ a ++ (p ++ b)
unfolding find
find_sound p [] a b h = find_in_nil p a b h
find_sound p (x ∷ s) a b h = elim (Bool-cases (starts_with p (x ∷ s))) [
  | inl e ↦ ground (arith, starts_with_sound p (x ∷ s) e)
  | inr e ↦ elim (Option-cases (find p s)) [
    | inl g ↦ ground arith
    | inr (r, g) ↦ ground (arith, find_sound p s r.0 r.1 g)
  ]
]

find_longer_nil : (p r a b : Text) → find p [] ≡ some (a, b) → find p ([] ++ r) ≡ some (a, b ++ r)
unfolding find starts_with
find_longer_nil [] [] a b h = ground arith
find_longer_nil [] (x ∷ r) a b h = ground arith
find_longer_nil (y ∷ p) r a b h = ground arith

starts_with-shorter :
    (p s r : Text) → length p ≤ length s → starts_with p (s ++ r) ≡ true → starts_with p s ≡ true
unfolding starts_with
starts_with-shorter [] s r l h = refl
starts_with-shorter (y ∷ p) [] r l h = absurd (omega arith)
starts_with-shorter (y ∷ p) (x ∷ s) r l h =
    ground (arith, starts_with-shorter p s r (omega arith) (ground arith))

find_fits : (p s a b : Text) → find p s ≡ some (a, b) → length p ≤ length s
find_fits p s a b h =
    omega (arith, ap length (find_sound p s a b h), length-append a (p ++ b), length-append p b)

-- More text behind does not move the first match.
pub find_longer : (p s r a b : Text) → find p s ≡ some (a, b) → find p (s ++ r) ≡ some (a, b ++ r)
unfolding find
find_longer p [] r a b h = find_longer_nil p r a b h
find_longer p (x ∷ s) r a b h = elim (Bool-cases (starts_with p (x ∷ s))) [
  | inl e ↦ ground (arith, starts_with-longer p (x ∷ s) r e, drop-longer p (x ∷ s) r e)
  | inr e ↦ elim (Option-cases (find p s)) [
    | inl g ↦ ground arith
    | inr (q, g) ↦ ground (
      arith,
      find_longer p s r q.0 q.1 g,
      starts_with-shorter p (x ∷ s) r (find_fits p (x ∷ s) a b h),
    )
  ]
]
