-- ===== src/Frontend/Json/Laws.antt =====
-- JSON texts that are printed and parsed again; the parser ends on every text.
use penn_mail_and_penn_drive.Base.{
  ℕ, zero, suc, ◌≤◌, ◌<◌, ◌≡◌, refl, ◌∙◌, ◌≢◌, inl, inr, Bool, true, false, some, [], ◌∷◌, ◌++◌,
  arith, ◌==◌, Bool-cases, Option-cases, nat_eq, list_eq, pair_eq, length, drop, length-append, All,
  ok, blocked,
}
use penn_mail_and_penn_drive.Base.Text.{Text, Lacks}
use penn_mail_and_penn_drive.Base.Maps.{Map, lookup}
use penn_mail_and_penn_drive.Frontend.Ordered.{store, store_all, lookup-store_all, DistinctKeys}
use penn_mail_and_penn_drive.Frontend.Json.{
  in_quotes, parse_quoted_string, skip_comma, expect_colon, parse_member, parse_members,
  parse_json_string, more_members, map_to_json,
}

-- A text that JSON holds as it is, since `map_to_json` escapes nothing.
abbrev pub Unquoted : Text → Type 0
Unquoted s = Lacks b'"' s × Lacks b'\\' s

abbrev pub UnquotedEntry : Text × Text → Type 0
UnquotedEntry (k, v) = Unquoted k × Unquoted v

in_quotes-append : (s r : Text) → Unquoted s → in_quotes false (s ++ b'"' ∷ r) ≡ some (s, r)
unfolding in_quotes
in_quotes-append [] r h = refl
in_quotes-append (x ∷ s) r ((a, h), (b, l)) = ground (arith, in_quotes-append s r (h, l))

parse_member-printed :
    (k v r : Text)
    → Unquoted k
    → Unquoted v
    → parse_member ((b'"' ∷ k) ++ ((b'"' ∷ b':' ∷ b'"' ∷ v) ++ (b'"' ∷ r))) ≡ some (k, v, r)
unfolding parse_member parse_quoted_string expect_colon
parse_member-printed k v r h l =
    rw
      (
        parse_member,
        parse_quoted_string,
        in_quotes-append k ((b':' ∷ b'"' ∷ v) ++ (b'"' ∷ r)) h,
        in_quotes-append v r l,
      )
      refl

parse_members-printed :
    (m n : Map Text Text) (fuel : ℕ)
    → length m < fuel
    → All UnquotedEntry m
    → parse_members fuel (more_members m) n ≡ ok (store_all m n)
unfolding parse_members more_members skip_comma
parse_members-printed m n zero h l = absurd (omega arith)
parse_members-printed [] n (suc fuel) h l = refl
parse_members-printed ((k, v) ∷ m) n (suc fuel) h ((a, b), l) =
    rw (parse_members, parse_member-printed k v (more_members m) a b)
      (parse_members-printed m (store k v n) fuel (omega arith) l)

length-more_members : (m : Map Text Text) → length m < length (more_members m)
unfolding more_members
length-more_members [] = omega arith
length-more_members ((k, v) ∷ m) = omega (
  arith,
  length-more_members m,
  length-append (b'"' ∷ k) ((b'"' ∷ b':' ∷ b'"' ∷ v) ++ (b'"' ∷ more_members m)),
  length-append (b'"' ∷ b':' ∷ b'"' ∷ v) (b'"' ∷ more_members m),
)

parse_members-more_members :
    (m n : Map Text Text) (fuel : ℕ)
    → length (more_members m) ≤ fuel
    → All UnquotedEntry m
    → parse_members fuel (more_members m) n ≡ ok (store_all m n)
parse_members-more_members m n fuel h l =
    parse_members-printed m n fuel (omega (arith, length-more_members m)) l

parse_first_member :
    (fuel : ℕ) (k v r : Text) (n : Map Text Text)
    → Unquoted k
    → Unquoted v
    → parse_members (suc fuel) ((b'"' ∷ k) ++ ((b'"' ∷ b':' ∷ b'"' ∷ v) ++ (b'"' ∷ r))) n
      ≡ parse_members fuel r (store k v n)
unfolding parse_members skip_comma
parse_first_member fuel k v r n a b = rw (parse_members, parse_member-printed k v r a b) refl

parse-printed :
    (m : Map Text Text)
    → All UnquotedEntry m
    → parse_json_string (map_to_json m) ≡ ok (store_all m [])
unfolding parse_json_string map_to_json parse_members
parse-printed [] l = refl
parse-printed ((k, v) ∷ m) ((a, b), l) =
    let inner = (b'"' ∷ b':' ∷ b'"' ∷ v) ++ (b'"' ∷ more_members m) in
    parse_first_member (length ((b'"' ∷ k) ++ inner)) k v (more_members m) [] a b
    ∙ parse_members-more_members m (store k v []) (length ((b'"' ∷ k) ++ inner))
        (omega (
          arith,
          length-append (b'"' ∷ k) inner,
          length-append (b'"' ∷ b':' ∷ b'"' ∷ v) (b'"' ∷ more_members m),
        ))
        l

-- A JSON text of entries with different keys, in whose keys and values neither quotes nor
-- backslashes stand, is parsed to a map with the same value at every key.
pub parse-map_to_json :
    (m : Map Text Text)
    → All UnquotedEntry m
    → DistinctKeys m
    → (r : Map Text Text) × (parse_json_string (map_to_json m) ≡ ok r)
      × ((k : Text) → lookup k r ≡ lookup k m)
parse-map_to_json m l d = (store_all m [], parse-printed m l, λ k. lookup-store_all k m d)

in_quotes_shorter : (e : Bool) (s v r : Text) → in_quotes e s ≡ some (v, r) → length r < length s
unfolding in_quotes
in_quotes_shorter e [] v r h = ground arith
in_quotes_shorter true (x ∷ s) v r h = elim (Option-cases (in_quotes false s)) [
  | inl q ↦ ground arith
  | inr (w, q) ↦ ground (arith, in_quotes_shorter false s w.0 w.1 q)
]
in_quotes_shorter false (x ∷ s) v r h = elim (Option-cases (in_quotes false s)) [
  | inl q ↦ elim (Option-cases (in_quotes true s)) [
    | inl p ↦ ground arith
    | inr (u, p) ↦ ground (arith, in_quotes_shorter true s u.0 u.1 p)
  ]
  | inr (w, q) ↦ elim (Option-cases (in_quotes true s)) [
    | inl p ↦ ground (arith, in_quotes_shorter false s w.0 w.1 q)
    | inr (u, p) ↦
        ground (arith, in_quotes_shorter true s u.0 u.1 p, in_quotes_shorter false s w.0 w.1 q)
  ]
]

parse_quoted_shorter : (s v r : Text) → parse_quoted_string s ≡ some (v, r) → length r < length s
unfolding parse_quoted_string
parse_quoted_shorter [] v r h = ground arith
parse_quoted_shorter (x ∷ s) v r h = ground (arith, in_quotes_shorter false s v r)

expect_colon_shorter : (s r : Text) → expect_colon s ≡ some r → length r < length s
unfolding expect_colon
expect_colon_shorter [] r h = ground arith
expect_colon_shorter (x ∷ s) r h = ground arith

parse_member_shorter : (s k v r : Text) → parse_member s ≡ some (k, v, r) → length r < length s
unfolding parse_member
parse_member_shorter s k v r h = elim (Option-cases (parse_quoted_string s)) [
  | inl p ↦ ground arith
  | inr (a, p) ↦ elim (Option-cases (expect_colon a.1)) [
    | inl q ↦ ground arith
    | inr (b, q) ↦ elim (Option-cases (parse_quoted_string b)) [
      | inl o ↦ ground arith
      | inr (c, o) ↦ ground (
        arith,
        parse_quoted_shorter s a.0 a.1 p,
        expect_colon_shorter a.1 b q,
        parse_quoted_shorter b c.0 c.1 o,
      )
    ]
  ]
]

length-skip_comma : (s : Text) → length (skip_comma s) ≤ length s
unfolding skip_comma
length-skip_comma [] = omega arith
length-skip_comma (x ∷ s) = ground arith

parse_members_ends :
    (fuel : ℕ) (s : Text) (m : Map Text Text) → length s ≤ fuel → parse_members fuel s m ≢ blocked
unfolding parse_members
parse_members_ends fuel [] m h e = cc
parse_members_ends zero (x ∷ s) m h e = absurd (omega arith)
parse_members_ends (suc fuel) (x ∷ s) m h e =
    elim (Option-cases (parse_member (skip_comma (x ∷ s)))) [
      | inl p ↦ ground arith
      | inr (a, p) ↦ elim (Bool-cases (x == b'}')) [
        | inl q ↦ ground arith
        | inr q ↦
            parse_members_ends fuel (a.2) (store (a.0) (a.1) m)
              (omega (
                arith,
                parse_member_shorter (skip_comma (x ∷ s)) (a.0) (a.1) (a.2) p,
                length-skip_comma (x ∷ s),
              ))
              (ground arith)
      ]
    ]

length-drop_one : (s : Text) → length (drop 1 s) ≤ length s
length-drop_one [] = omega arith
length-drop_one (x ∷ s) = omega arith

-- The parser ends on every text: it gives a map or throws.
pub parse_json_string_ends : (s : Text) → parse_json_string s ≢ blocked
unfolding parse_json_string
parse_json_string_ends s = parse_members_ends (length s) (drop 1 s) [] (length-drop_one s)
