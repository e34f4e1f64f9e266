-- ===== src/Frontend/Bytes.antt =====
-- Bytes written as bits and in base 64 (`frontend/src/stringutils.cc`).
pub mod Laws
use penn_mail_and_penn_drive.Base.{
  ℕ, zero, suc, ◌+◌, ◌-◌, ◌*◌, ◌/◌, ◌%◌, ◌≤◌, ◌<◌, ◌≡◌, refl, sym, ap, ◌∙◌, subst, ◌≢◌, ◌↔◌, ◌⊎◌,
  inl, inr, Bool, true, false, not, ◌&&◌, ◌||◌, Option, none, some, List, [], ◌∷◌, ◌++◌, map,
  append_assoc, append-nil, arith, ltb, leb, ◌==◌, if◌then◌else◌, ==_iff, Bool-cases, Option-cases,
  Eq, ◌=?◌, nat_eq, list_eq, pair_eq, beq_refl, length, get_elem?, take, drop, length-append,
  drop-append, drop-length, take-append, All, All-append, Outcome, ok, blocked, stopped, ◌>>=◌,
  ◌>>◌, >>=-result, ok-injective, blocked-ne-ok,
}
use penn_mail_and_penn_drive.Base.Text.{
  Text, codes, Lacks, before, after?, after, before_last?, before_last, after_last, starts_with,
  find, has_text, tokens, split, is_digit, is_space, trim_end, to_string, value, atoi, stoi,
}

-- `std::bitset<8>(_char).to_string()`
unfoldable pub byte_bits : ℕ → Text
byte_bits c =
    (b'0' + c / 128 % 2)
    ∷ (b'0' + c / 64 % 2)
    ∷ (b'0' + c / 32 % 2)
    ∷ (b'0' + c / 16 % 2)
    ∷ (b'0' + c / 8 % 2)
    ∷ (b'0' + c / 4 % 2)
    ∷ (b'0' + c / 2 % 2)
    ∷ (b'0' + c % 2)
    ∷ []

unfoldable pub stobs : Text → Text
unfolding byte_bits
stobs [] = []
stobs (c ∷ file_data) = byte_bits c ++ stobs file_data

-- `std::bitset<8>(byte_str).to_ulong()`: another character than 0 and 1 throws.
unfoldable pub bits_value : ℕ → Text → Option ℕ
bits_value n [] = some n
bits_value n (x ∷ s) = elim (x == b'0') [
  | true ↦ bits_value (n * 2) s
  | false ↦ elim (x == b'1') [ true ↦ bits_value (n * 2 + 1) s | false ↦ none ]
]

abbrev pub push_byte : ℕ → Option (List ℕ) → Option (List ℕ)
push_byte b none = none
push_byte b (some bs) = some (b ∷ bs)

-- The loop in steps of eight; `fuel` bounds their number.
unfoldable pub bytes_from : ℕ → Text → Option (List ℕ)
unfolding bits_value
bytes_from fuel [] = some []
bytes_from zero (x ∷ s) = none
bytes_from (suc fuel) (x ∷ s) = elim (bits_value 0 (take 8 (x ∷ s))) [
  | none ↦ none
  | some b ↦ push_byte b (bytes_from fuel (drop 8 (x ∷ s)))
]

unfoldable pub bstoby : Text → Option (List ℕ)
unfolding bytes_from
bstoby binary_string = bytes_from (length binary_string) binary_string

abbrev pub base64_chars : Text
base64_chars = codes "ABCDEFGHIJKLMNOPQRSTUVWXYZabcdefghijklmnopqrstuvwxyz0123456789+/"

-- `BASE64_CHARS[i]`; at the end of the string stands a null character.
unfoldable pub base64_char : ℕ → ℕ
base64_char i = elim (get_elem? base64_chars i) [ none ↦ 0 | some c ↦ c ]

unfoldable pub triple : ℕ → ℕ → ℕ → ℕ
triple a b c = a * 65536 % 16777216 + b * 256 + c

unfoldable pub bytob64 : List ℕ → Text
unfolding base64_char triple
bytob64 [] = []
bytob64 (a ∷ []) =
    let t = triple a 0 0 in
    base64_char (t / 262144 % 64) ∷ base64_char (t / 4096 % 64) ∷ b'=' ∷ b'=' ∷ []
bytob64 (a ∷ b ∷ []) =
    let t = triple a b 0 in
    base64_char (t / 262144 % 64)
    ∷ base64_char (t / 4096 % 64)
    ∷ base64_char (t / 64 % 64)
    ∷ b'='
    ∷ []
bytob64 (a ∷ b ∷ c ∷ byte_array) =
    let t = triple a b c in
    base64_char (t / 262144 % 64)
    ∷ base64_char (t / 4096 % 64)
    ∷ base64_char (t / 64 % 64)
    ∷ base64_char (t % 64)
    ∷ bytob64 byte_array
