-- ===== src/Frontend/Json.antt =====
-- Mails and sessions as JSON texts (`parse_json_string` and `map_to_json` of
-- `frontend/src/stringutils.cc`).
pub mod Laws
use penn_mail_and_penn_drive.Base.{
  ℕ, zero, suc, ◌+◌, ◌-◌, ◌*◌, ◌/◌, ◌%◌, ◌≤◌, ◌<◌, ◌≡◌, refl, sym, ap, ◌∙◌, subst, ◌≢◌, ◌↔◌, ◌⊎◌,
  inl, inr, Bool, true, false, not, ◌&&◌, ◌||◌, Option, none, some, List, [], ◌∷◌, ◌++◌, map,
  append_assoc, append-nil, arith, ltb, leb, ◌==◌, if◌then◌else◌, ==_iff, Bool-cases, Option-cases,
  Eq, ◌=?◌, nat_eq, list_eq, pair_eq, beq_refl, length, get_elem?, take, drop, length-append,
  drop-append, drop-length, take-append, All, All-append, Outcome, ok, blocked, stopped, ◌>>=◌,
  ◌>>◌, >>=-result, ok-injective, blocked-ne-ok,
}
use penn_mail_and_penn_drive.Base.Text.{
  Text, codes, Lacks, before, after?, after, before_last?, before_last, after_last, starts_with,
  find, has_text, tokens, split, is_digit, is_space, trim_end, to_string, value, atoi, stoi,
}
use penn_mail_and_penn_drive.Base.Maps.{Map}
use penn_mail_and_penn_drive.Frontend.Ordered.{store}

abbrev pub push_char : ℕ → Option (Text × Text) → Option (Text × Text)
push_char x none = none
push_char x (some (value, rest)) = some (x ∷ value, rest)

-- What stands up to the closing quote, and the text behind it. `escaped`: the last character was
-- a backslash. `none` where the source throws.
unfoldable pub in_quotes : Bool → Text → Option (Text × Text)
in_quotes escaped [] = none
in_quotes true (x ∷ s) = elim (x == b'n') [ true ↦ push_char 10 (in_quotes false s) | false ↦ none ]
in_quotes false (x ∷ s) = elim (x == b'"') [
  | true ↦ some ([], s)
  | false ↦ elim (x == b'\\') [ true ↦ in_quotes true s | false ↦ push_char x (in_quotes false s) ]
]

unfoldable pub parse_quoted_string : Text → Option (Text × Text)
unfolding in_quotes
parse_quoted_string [] = none
parse_quoted_string (x ∷ s) = elim (x == b'"') [ true ↦ in_quotes false s | false ↦ none ]

-- `if (json_string[n] == ',') ++n;`
unfoldable pub skip_comma : Text → Text
skip_comma [] = []
skip_comma (x ∷ s) = if x == b',' then s else x ∷ s

unfoldable pub expect_colon : Text → Option Text
expect_colon [] = none
expect_colon (x ∷ s) = if x == b':' then some s else none

-- A key, a colon and a value, and the text behind them.
unfoldable pub parse_member : Text → Option (Text × Text × Text)
unfolding parse_quoted_string expect_colon
parse_member s = elim (parse_quoted_string s) [
  | none ↦ none
  | some (key, r) ↦ elim (expect_colon r) [
    | none ↦ none
    | some t ↦ elim (parse_quoted_string t) [
      | none ↦ none
      | some (value, rest) ↦ some (key, value, rest)
    ]
  ]
]

-- The loop over the members; `fuel` bounds their number.
unfoldable pub parse_members : ℕ → Text → Map Text Text → Outcome (Map Text Text)
unfolding skip_comma parse_member store
parse_members fuel [] json_map = ok json_map
parse_members zero (x ∷ s) json_map = blocked
parse_members (suc fuel) (x ∷ s) json_map = elim (x == b'}') [
  | true ↦ ok json_map
  | false ↦ elim (parse_member (skip_comma (x ∷ s))) [
    | none ↦ stopped
    | some (key, value, rest) ↦ parse_members fuel rest (store key value json_map)
  ]
]

-- The first character is skipped, whatever it is.
unfoldable pub parse_json_string : Text → Outcome (Map Text Text)
unfolding parse_members
parse_json_string json_string = parse_members (length json_string) (drop 1 json_string) []

-- The members behind the first one. The order is that of the entries, which the source's
-- `unordered_map` leaves open.
unfoldable pub more_members : Map Text Text → Text
more_members [] = b'}' ∷ []
more_members ((k, v) ∷ m) =
    b',' ∷ (b'"' ∷ k) ++ ((b'"' ∷ b':' ∷ b'"' ∷ v) ++ (b'"' ∷ more_members m))

unfoldable pub map_to_json : Map Text Text → Text
unfolding more_members
map_to_json [] = b'{' ∷ b'}' ∷ []
map_to_json ((k, v) ∷ m) =
    b'{' ∷ (b'"' ∷ k) ++ ((b'"' ∷ b':' ∷ b'"' ∷ v) ++ (b'"' ∷ more_members m))
