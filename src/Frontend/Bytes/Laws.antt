-- ===== src/Frontend/Bytes/Laws.antt =====
-- What is written as bits or in base 64 is read back, and how long it is.
use penn_mail_and_penn_drive.Base.{
  ℕ, zero, suc, ◌+◌, ◌-◌, ◌*◌, ◌/◌, ◌%◌, ◌≤◌, ◌<◌, ◌≡◌, refl, Bool, true, false, not, ◌&&◌, Option,
  none, some, List, [], ◌∷◌, ◌++◌, arith, leb, ◌==◌, if◌then◌else◌, Bool-cases, inl, inr, length,
  take, All,
}
use penn_mail_and_penn_drive.Base.Text.{Text}
use penn_mail_and_penn_drive.Frontend.Bytes.{
  byte_bits, stobs, bits_value, bytes_from, bstoby, base64_char, triple, bytob64,
}

abbrev pub Byte : ℕ → Type 0
Byte c = c < 256

-- A test of all bytes or sextets, by evaluation.
every : (ℕ → Bool) → ℕ → Bool
every test zero = true
every test (suc bound) = if test bound then every test bound else false

every_sound : (test : ℕ → Bool) (bound i : ℕ) → i < bound → every test bound ≡ true → test i ≡ true
unfolding every
every_sound test zero i l e = absurd (omega arith)
every_sound test (suc bound) i l e = elim (Bool-cases (test bound)) [
  | inl here ↦ ground (arith, every_sound test bound i)
  | inr missed ↦ ground arith
]

is_value : ℕ → Option ℕ → Bool
is_value c none = false
is_value c (some n) = n == c

is_value_sound : (c : ℕ) (o : Option ℕ) → is_value c o ≡ true → o ≡ some c
unfolding is_value
is_value_sound c none h = cc
is_value_sound c (some n) h = ground arith

bits_table : every (λ c. is_value c (bits_value 0 (byte_bits c))) 256 ≡ true
unfolding every is_value bits_value byte_bits
bits_table = refl

bits_value-byte_bits : (c : ℕ) → c < 256 → bits_value 0 (byte_bits c) ≡ some c
bits_value-byte_bits c h =
    is_value_sound c (bits_value 0 (byte_bits c)) (every_sound _ 256 c h bits_table)

take-byte_bits : (c : ℕ) (s : Text) → take 8 (byte_bits c ++ s) ≡ byte_bits c
unfolding byte_bits
take-byte_bits c s = refl

bytes_from-stobs :
    (s : Text) (fuel : ℕ) → length s ≤ fuel → All Byte s → bytes_from fuel (stobs s) ≡ some s
unfolding bytes_from stobs byte_bits
bytes_from-stobs [] fuel h l = refl
bytes_from-stobs (c ∷ s) zero h l = absurd (omega arith)
bytes_from-stobs (c ∷ s) (suc fuel) h (b, l) =
    ground (arith, bits_value-byte_bits c b, bytes_from-stobs s fuel (omega arith) l)

pub length-stobs : (s : Text) → length (stobs s) ≡ 8 * length s
unfolding stobs byte_bits
length-stobs [] = refl
length-stobs (c ∷ s) = omega (arith, length-stobs s)

pub bstoby-stobs : (s : Text) → All Byte s → bstoby (stobs s) ≡ some s
unfolding bstoby
bstoby-stobs s h = bytes_from-stobs s (length (stobs s)) (omega (arith, length-stobs s)) h

-- The value of a base 64 character, as RFC 4648 lists them; the padding counts as 0.
abbrev pub base64_value : ℕ → ℕ
base64_value c =
    if leb b'a' c
    then c - 71
    else if leb b'A' c
    then c - 65
    else if c == b'='
    then 0
    else if leb b'0' c
    then c + 4
    else if c == b'+'
    then 62
    else 63

-- Four characters are three bytes, or less where padding ends them.
abbrev pub base64_bytes : ℕ → ℕ → ℕ → ℕ → List ℕ → List ℕ
base64_bytes p q r s rest =
    let n =
      base64_value p * 262144 + base64_value q * 4096 + base64_value r * 64 + base64_value s in
    if r == b'='
    then n / 65536 ∷ []
    else if s == b'='
    then n / 65536 ∷ n / 256 % 256 ∷ []
    else n / 65536 ∷ n / 256 % 256 ∷ n % 256 ∷ rest

-- A reader of base 64 after the RFC.
abbrev pub from_base64 : Text → List ℕ
from_base64 (p ∷ q ∷ r ∷ s ∷ rest) = base64_bytes p q r s (from_base64 rest)
from_base64 _ = []

base64_test : ℕ → Bool
base64_test i = base64_value (base64_char i) == i && not (base64_char i == b'=')

base64_table : every base64_test 64 ≡ true
unfolding every base64_test base64_char
base64_table = refl

base64_value-base64_char :
    (i : ℕ) → i < 64 → (base64_value (base64_char i) ≡ i) × ((base64_char i == b'=') ≡ false)
base64_value-base64_char i h =
    unfold base64_test in ground (arith, every_sound base64_test 64 i h base64_table)

sextet :
    (t : ℕ)
    → (base64_value (base64_char (t % 64)) ≡ t % 64) × ((base64_char (t % 64) == b'=') ≡ false)
sextet t = base64_value-base64_char (t % 64) (omega arith)

-- Three bytes come back from their four sextets.
three_bytes :
    (a b c : ℕ) (n : ℕ)
    → a < 256
    → b < 256
    → c < 256
    → n
      ≡ triple a b c / 262144 % 64 * 262144
        + triple a b c / 4096 % 64 * 4096
        + triple a b c / 64 % 64 * 64
        + triple a b c % 64
    → (n / 65536 ≡ a) × (n / 256 % 256 ≡ b) × (n % 256 ≡ c)
unfolding triple
three_bytes a b c n h i j e = (omega arith, omega arith, omega arith)

pub from_base64-bytob64 : (bs : List ℕ) → All Byte bs → from_base64 (bytob64 bs) ≡ bs
unfolding bytob64
from_base64-bytob64 [] h = refl
from_base64-bytob64 (a ∷ []) (ha, _) =
    let t = triple a 0 0 in
    ground (arith, sextet (t / 262144), sextet (t / 4096), three_bytes a 0 0)
from_base64-bytob64 (a ∷ b ∷ []) (ha, (hb, _)) =
    let t = triple a b 0 in
    ground (arith, sextet (t / 262144), sextet (t / 4096), sextet (t / 64), three_bytes a b 0)
from_base64-bytob64 (a ∷ b ∷ c ∷ bs) (ha, (hb, (hc, h))) =
    let t = triple a b c in
    ground (
      arith,
      sextet (t / 262144),
      sextet (t / 4096),
      sextet (t / 64),
      sextet t,
      three_bytes a b c,
      from_base64-bytob64 bs h,
    )

pub length-bytob64 : (bs : List ℕ) → length (bytob64 bs) ≡ 4 * ((length bs + 2) / 3)
unfolding bytob64
length-bytob64 [] = refl
length-bytob64 (a ∷ []) = refl
length-bytob64 (a ∷ b ∷ []) = refl
length-bytob64 (a ∷ b ∷ c ∷ bs) = omega (arith, length-bytob64 bs)

-- Bytes that are written as bits or in base 64 are read back: the bits by `bstoby`, base 64 by a
-- reader after the RFC.
pub bytes_roundtrip :
    (bs : List ℕ) → All Byte bs → (bstoby (stobs bs) ≡ some bs) × (from_base64 (bytob64 bs) ≡ bs)
bytes_roundtrip bs h = (bstoby-stobs bs h, from_base64-bytob64 bs h)
