-- ===== src/Base/Text/Numbers.antt =====
-- Numbers that are printed and read back.
use Prim.Native.Nat.{ℕ, zero, suc, ◌+◌, ◌/◌, ◌%◌, ◌≤◌, ◌<◌}
use mathlib.Core.List.{[], ◌∷◌}
use mathlib.Core.Logic.{inl, inr}
use mathlib.Core.Option.{some}
use mathlib.Core.Path.{◌≡◌, refl, ap, sym, subst, ◌∙◌}
use native.Mathlib.Numerals.{add-one}
use native.Mathlib.Omega.{arith}
use penn_mail_and_penn_drive.Base.Tests.{ltb, Bool-cases}
use penn_mail_and_penn_drive.Base.Lists.{All}
use penn_mail_and_penn_drive.Base.Text.Laws.{split-Lacks}
use penn_mail_and_penn_drive.Base.Text.{
  Text, Lacks, split, digits, to_string, value, atoi, stoi, skip_blanks, skip_plus, number?,
}

abbrev pub Digit : ℕ → Type 0
Digit c = (48 ≤ c) × (c ≤ 57)

value-digits : (fuel n : ℕ) (out : Text) → n < fuel → value 0 (digits fuel n out) ≡ value n out
unfolding digits value
value-digits zero n out h = absurd (omega arith)
value-digits (suc fuel) n out h = ground (arith, value-digits fuel (n / 10) ((48 + n % 10) ∷ out))

All-digits : (fuel n : ℕ) (out : Text) → All Digit out → All Digit (digits fuel n out)
unfolding digits
All-digits zero n out h = h
All-digits (suc fuel) n out h = ground (arith, All-digits fuel (n / 10) ((48 + n % 10) ∷ out))

abbrev IsCons : Text → Type 0
IsCons t = (x : ℕ) × (s : Text) × (t ≡ x ∷ s)

digits-IsCons : (fuel n x : ℕ) (out : Text) → IsCons (digits fuel n (x ∷ out))
unfolding digits
digits-IsCons zero n x out = (x, out, refl)
digits-IsCons (suc fuel) n x out = elim (Bool-cases (ltb n 10)) [
  | inl e ↦ (48 + n, x ∷ out, ground arith)
  | inr e ↦
      let (y, s, q) = digits-IsCons fuel (n / 10) (48 + n % 10) (x ∷ out) in (y, s, ground arith)
]

pub to_string-Digit : (n : ℕ) → All Digit (to_string n)
unfolding to_string
to_string-Digit n = All-digits (n + 1) n [] tt

-- A printed number starts with a digit.
pub to_string-cons : (n : ℕ) → (x : ℕ) × (s : Text) × (to_string n ≡ x ∷ s)
unfolding to_string digits
to_string-cons n = rw add-one (elim (Bool-cases (ltb n 10)) [
  | inl e ↦ (48 + n, [], ground arith)
  | inr e ↦ (let (y, s, q) = digits-IsCons n (n / 10) (48 + n % 10) [] in (y, s, ground arith))
])

pub value-to_string : (n : ℕ) → value 0 (to_string n) ≡ n
unfolding to_string value
value-to_string n = value-digits (n + 1) n [] (omega arith)

Lacks-Digit : (c : ℕ) (s : Text) → (c < 48) → All Digit s → Lacks c s
Lacks-Digit c [] h d = tt
Lacks-Digit c (x ∷ s) h d = (omega arith, Lacks-Digit c s h d.1)

-- No blank, line end or other byte below the digits stands in a printed number.
pub to_string-Lacks : (c n : ℕ) → c < 48 → Lacks c (to_string n)
to_string-Lacks c n h = Lacks-Digit c (to_string n) h (to_string-Digit n)

skip-Digit : (t : Text) → All Digit t → skip_plus (skip_blanks t) ≡ t
unfolding skip_plus skip_blanks
skip-Digit [] d = refl
skip-Digit (x ∷ s) d = ground arith

-- Neither blanks nor a sign stand in front of a printed number.
skip-to_string : (n : ℕ) → skip_plus (skip_blanks (to_string n)) ≡ to_string n
skip-to_string n = skip-Digit (to_string n) (to_string-Digit n)

pub atoi-to_string : (n : ℕ) → atoi (to_string n) ≡ n
unfolding atoi
atoi-to_string n = rw skip-to_string (value-to_string n)

number?-Digit :
    (t : Text) → IsCons t → All Digit t → value 0 t < 2147483648 → number? t ≡ some (value 0 t)
unfolding number?
number?-Digit [] c d h = cc (c.2)
number?-Digit (x ∷ s) c d h = ground arith

-- `stoi` reads back what `to_string` printed, as far as an `int` goes.
pub stoi-to_string : (n : ℕ) → n < 2147483648 → stoi (to_string n) ≡ some n
unfolding stoi
stoi-to_string n h = rw skip-to_string (
    number?-Digit (to_string n) (to_string-cons n) (to_string-Digit n) (rw value-to_string h)
    ∙ ap some (value-to_string n))

Digit-Lacks_colon : (s : Text) → All Digit s → Lacks 58 s
Digit-Lacks_colon [] d = tt
Digit-Lacks_colon (x ∷ s) d = (omega arith, Digit-Lacks_colon s d.1)

pub to_string-Lacks_colon : (n : ℕ) → Lacks 58 (to_string n)
to_string-Lacks_colon n = Digit-Lacks_colon (to_string n) (to_string-Digit n)

-- A number is one part between colons.
pub split-to_string : (n : ℕ) → split 58 (to_string n) ≡ to_string n ∷ []
split-to_string n =
    let (x, s, e) = to_string-cons n in
    subst (λ t. split 58 t ≡ t ∷ []) (sym e)
      (split-Lacks 58 x s (subst (Lacks 58) e (to_string-Lacks_colon n)))
