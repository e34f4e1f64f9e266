-- ===== src/Frontend/Url.antt =====
-- Parameters in a URL (`frontend/src/url.cc`).
pub mod Laws
use penn_mail_and_penn_drive.Base.{
  ℕ, zero, suc, ◌+◌, ◌-◌, ◌*◌, ◌/◌, ◌%◌, ◌≤◌, ◌<◌, ◌≡◌, refl, sym, ap, ◌∙◌, subst, ◌≢◌, ◌↔◌, ◌⊎◌,
  inl, inr, Bool, true, false, not, ◌&&◌, ◌||◌, Option, none, some, List, [], ◌∷◌, ◌++◌, map,
  append_assoc, append-nil, arith, ltb, leb, ◌==◌, if◌then◌else◌, ==_iff, Bool-cases, Option-cases,
  Eq, ◌=?◌, nat_eq, list_eq, pair_eq, beq_refl, length, get_elem?, take, drop, length-append,
  drop-append, drop-length, take-append, All, All-append, Outcome, ok, blocked, stopped, ◌>>=◌,
  ◌>>◌, >>=-result, ok-injective, blocked-ne-ok,
}
use penn_mail_and_penn_drive.Base.Text.{
  Text, codes, Lacks, before, after?, after, before_last?, before_last, after_last, starts_with,
  find, has_text, tokens, split, is_digit, is_space, trim_end, to_string, value, atoi, stoi,
}
use penn_mail_and_penn_drive.Base.Maps.{Map}
use penn_mail_and_penn_drive.Frontend.Strings.{drop_last, ends_in}
use penn_mail_and_penn_drive.Frontend.Ordered.{store}

unfoldable pub is_hex_digit : ℕ → Bool
unfolding is_digit
is_hex_digit c = is_digit c || leb b'a' c && leb c b'f' || leb b'A' c && leb c b'F'

-- The value of a hexadecimal digit, in `std::stoi` with base 16.
unfoldable pub hex_value : ℕ → ℕ
hex_value c = if leb b'a' c then c - 87 else if leb b'A' c then c - 55 else c - 48

unfoldable pub url_decode : Text → Text
unfolding is_hex_digit hex_value
url_decode [] = []
url_decode (x ∷ []) = (if x == b'+' then b' ' else x) ∷ []
url_decode (x ∷ y ∷ []) = (if x == b'+' then b' ' else x) ∷ url_decode (y ∷ [])
url_decode (x ∷ y ∷ z ∷ url) =
    let plain = url_decode (y ∷ z ∷ url) in
    let escaped = url_decode url in
    if x == b'%' && is_hex_digit y && is_hex_digit z
    then (hex_value y * 16 + hex_value z) ∷ escaped
    else if x == b'+'
    then b' ' ∷ plain
    else x ∷ plain

-- `if (key.rfind('?', 0) == 0) key = key.substr(1);`
unfoldable pub skip_mark : Text → Text
skip_mark [] = []
skip_mark (x ∷ key) = if x == b'?' then key else x ∷ key

-- The loop over what stands between the ampersands.
unfoldable pub store_params : List Text → Map Text Text → Map Text Text
unfolding after? before skip_mark store
store_params [] params = params
store_params (key ∷ keys) params = elim (after? b'=' key) [
  | none ↦ store_params keys params
  | some val ↦ store_params keys (store (skip_mark (before b'=' key)) val params)
]

-- `url.back()` of an empty text is undefined. The mark that is pushed behind the URL comes too
-- late for the stream.
unfoldable pub params_from_url : Text → Outcome (Map Text Text)
unfolding store_params split
params_from_url [] = stopped
params_from_url (x ∷ url) = ok (store_params (split b'&' (x ∷ url)) [])

unfoldable pub print_params : Map Text Text → Text
print_params [] = []
print_params ((k, v) ∷ params) = (k ++ (b'=' ∷ v)) ++ (b'&' ∷ print_params params)

-- `url.back()` of an empty text is undefined here too.
unfoldable pub params_to_url : Map Text Text → Outcome Text
unfolding print_params drop_last
params_to_url [] = stopped
params_to_url (p ∷ params) = ok (b'?' ∷ drop_last (print_params (p ∷ params)))
