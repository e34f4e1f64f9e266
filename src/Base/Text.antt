-- ===== src/Base/Text.antt =====
-- `std::string` as the list of its bytes, with the operations that the program uses.
pub mod Laws
pub mod Search
pub mod Numbers
use Prim.Native.Char.{code}
use Prim.Native.Nat.{ℕ, zero, suc, ◌+◌, ◌-◌, ◌*◌, ◌/◌, ◌%◌}
use Prim.Native.String.{String}
use mathlib.Core.Bool.{Bool, true, false, ◌&&◌, ◌||◌}
use mathlib.Core.List.{List, [], ◌∷◌, ◌++◌}
use mathlib.Core.Logic.{◌≢◌}
use mathlib.Core.Option.{Option, none, some}
use penn_mail_and_penn_drive.Base.Tests.{◌==◌, ltb, leb, if◌then◌else◌}
use penn_mail_and_penn_drive.Base.Lists.{length, drop, All}

abbrev pub Text : Type 0
Text = List ℕ

-- The bytes of a literal.
abbrev pub codes : String → Text
codes String.[] = []
codes (String.◌∷◌ c s) = code c ∷ codes s

abbrev pub Lacks : ℕ → Text → Type 0
Lacks b = All (λ c. c ≢ b)

-- `s.substr(0, s.find(c))`: all of `s` where `c` is missing, since `npos` is the largest length.
unfoldable pub before : ℕ → Text → Text
before c [] = []
before c (x ∷ s) = if x == c then [] else x ∷ before c s

-- The text behind the first `c`.
unfoldable pub after? : ℕ → Text → Option Text
after? c [] = none
after? c (x ∷ s) = if x == c then some s else after? c s

-- `s.substr(s.find(c) + 1)`: all of `s` where `c` is missing, since `npos + 1` is 0.
unfoldable pub after : ℕ → Text → Text
unfolding after?
after c s = elim (after? c s) [ none ↦ s | some r ↦ r ]

-- `s.substr(0, s.rfind(c))`, if `c` is there.
unfoldable pub before_last? : ℕ → Text → Option Text
before_last? c [] = none
before_last? c (x ∷ s) = elim (before_last? c s) [
  | some r ↦ some (x ∷ r)
  | none ↦ if x == c then some [] else none
]

-- `s.substr(0, s.rfind(c))`
unfoldable pub before_last : ℕ → Text → Text
unfolding before_last?
before_last c s = elim (before_last? c s) [ none ↦ s | some r ↦ r ]

later_suffix : ℕ → Text → Text → Text
later_suffix c [] best = best
later_suffix c (x ∷ s) best = later_suffix c s (if x == c then s else best)

-- `s.substr(s.rfind(c) + 1)`
unfoldable pub after_last : ℕ → Text → Text
unfolding later_suffix
after_last c s = later_suffix c s s

-- `s.substr(0, n) == p`, with `n` the length of `p`
unfoldable pub starts_with : Text → Text → Bool
starts_with [] s = true
starts_with (y ∷ p) [] = false
starts_with (y ∷ p) (x ∷ s) = x == y && starts_with p s

-- `s.find(p)`, as the text before the match and the text behind it
unfoldable pub find : Text → Text → Option (Text × Text)
unfolding starts_with
find p [] = if starts_with p [] then some ([], []) else none
find p (x ∷ s) =
    let rest = find p s in
    if starts_with p (x ∷ s)
    then some ([], drop (length p) (x ∷ s))
    else elim rest [ none ↦ none | some (a, b) ↦ some (x ∷ a, b) ]

-- `s.find(p) != npos`
unfoldable pub has_text : Text → Text → Bool
unfolding find
has_text p s = elim (find p s) [ none ↦ false | some _ ↦ true ]

-- One token of `getline`: where the stream ends behind a delimiter there is none.
last_token : Text → List Text
last_token [] = []
last_token (x ∷ s) = (x ∷ s) ∷ []

unfoldable pub tokens : ℕ → Text → Text → List Text
unfolding last_token
tokens c [] token = last_token token
tokens c (x ∷ s) token = elim (x == c) [
  | true ↦ token ∷ tokens c s []
  | false ↦ tokens c s (token ++ x ∷ [])
]

-- `split(s, c)`: `while (getline(ss, token, c)) tokens.push_back(token);`
unfoldable pub split : ℕ → Text → List Text
unfolding tokens
split c s = tokens c s []

unfoldable pub is_digit : ℕ → Bool
is_digit c = leb b'0' c && leb c b'9'

-- `isspace` in the C locale
unfoldable pub is_space : ℕ → Bool
is_space c = c == 32 || leb 9 c && leb c 13

-- `while (!s.empty() && isspace(s.back())) s.pop_back();`
unfoldable pub trim_end : Text → Text
unfolding is_space
trim_end [] = []
trim_end (x ∷ s) = elim (trim_end s) [ [] ↦ if is_space x then [] else x ∷ [] | y ∷ r ↦ x ∷ y ∷ r ]

-- The digits of `n`, behind which `out` stands. `fuel` bounds the number of digits.
unfoldable pub digits : ℕ → ℕ → Text → Text
digits zero n out = out
digits (suc fuel) n out =
    let more = digits fuel (n / 10) ((b'0' + n % 10) ∷ out) in
    if ltb n 10 then (b'0' + n) ∷ out else more

-- `std::to_string(n)`; `n + 1` rounds are enough.
unfoldable pub to_string : ℕ → Text
unfolding digits
to_string n = digits (n + 1) n []

-- The number that leading digits spell, behind those read so far.
unfoldable pub value : ℕ → Text → ℕ
unfolding is_digit
value n [] = n
value n (x ∷ s) = elim (is_digit x) [ true ↦ value (n * 10 + (x - b'0')) s | false ↦ n ]

skip_blanks : Text → Text
unfolding is_space
skip_blanks [] = []
skip_blanks (x ∷ s) = if is_space x then skip_blanks s else x ∷ s

-- One sign in front of the digits.
skip_plus : Text → Text
skip_plus [] = []
skip_plus (x ∷ s) = if x == b'+' then s else x ∷ s

-- `atoi`: 0 where there is no digit. A minus sign gives 0 too; no peer writes one.
unfoldable pub atoi : Text → ℕ
unfolding value skip_blanks skip_plus
atoi s = value 0 (skip_plus (skip_blanks s))

number? : Text → Option ℕ
unfolding is_digit value
number? [] = none
number? (x ∷ s) =
    let n = value 0 (x ∷ s) in
    if is_digit x then (if ltb n 2147483648 then some n else none) else none

-- `std::stoi`: `none` where it throws, and at a minus sign, which no peer writes.
unfoldable pub stoi : Text → Option ℕ
unfolding number? skip_blanks skip_plus
stoi s = number? (skip_plus (skip_blanks s))

-- `std::stol`, likewise.
unfoldable pub stol : Text → Option ℕ
unfolding skip_blanks skip_plus is_digit value
stol s = elim (skip_plus (skip_blanks s)) [
  | [] ↦ none
  | x ∷ r ↦
      let n = value 0 (x ∷ r) in
      if is_digit x then (if ltb n 9223372036854775808 then some n else none) else none
]
