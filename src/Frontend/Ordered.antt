-- ===== src/Frontend/Ordered.antt =====
-- `std::map<std::string, std::string>`: entries in the order of their keys.
use penn_mail_and_penn_drive.Base.{
  ◌≡◌, refl, ◌∙◌, Bool, true, false, ◌&&◌, ◌||◌, Option, none, some, [], ◌∷◌, arith, ltb, ◌==◌,
  if◌then◌else◌, ◌=?◌, nat_eq, list_eq, pair_eq, list_beq_iff,
}
use penn_mail_and_penn_drive.Base.Text.{Text}
use penn_mail_and_penn_drive.Base.Maps.{Map, lookup}

-- `<` on strings
unfoldable pub text_ltb : Text → Text → Bool
text_ltb s [] = false
text_ltb [] (y ∷ t) = true
text_ltb (x ∷ s) (y ∷ t) = ltb x y || x == y && text_ltb s t

-- `m[k] = v`
unfoldable pub store : Text → Text → Map Text Text → Map Text Text
unfolding text_ltb
store k v [] = (k, v) ∷ []
store k v ((j, w) ∷ m) =
    let rest = store k v m in
    if k =? j then (k, v) ∷ m else if text_ltb k j then (k, v) ∷ (j, w) ∷ m else (j, w) ∷ rest

pub lookup-store :
    (k j v : Text) (m : Map Text Text)
    → lookup j (store k v m) ≡ (if k =? j then some v else lookup j m)
unfolding lookup store
lookup-store k j v [] = refl
lookup-store k j v ((i, w) ∷ m) = ground (
  arith,
  list_beq_iff k j,
  list_beq_iff i k,
  list_beq_iff k i,
  list_beq_iff i j,
  lookup-store k j v m,
)

-- Entries stored one after another.
abbrev pub store_all : Map Text Text → Map Text Text → Map Text Text
store_all [] m = m
store_all ((k, v) ∷ l) m = store_all l (store k v m)

-- No key stands twice.
abbrev pub DistinctKeys : Map Text Text → Type 0
DistinctKeys [] = Unit
DistinctKeys ((k, v) ∷ m) = (lookup k m ≡ none) × DistinctKeys m

abbrev or_else : Option Text → Option Text → Option Text
or_else none o = o
or_else (some v) o = some v

lookup-store_all_onto :
    (j : Text) (l m : Map Text Text)
    → DistinctKeys l
    → lookup j (store_all l m) ≡ or_else (lookup j l) (lookup j m)
unfolding lookup
lookup-store_all_onto j [] m d = refl
lookup-store_all_onto j ((k, v) ∷ l) m (n, d) =
    ground
      (arith, lookup-store_all_onto j l (store k v m) d, lookup-store k j v m, list_beq_iff k j)

or_else-none : (o : Option Text) → or_else o none ≡ o
or_else-none none = refl
or_else-none (some v) = refl

pub lookup-store_all :
    (j : Text) (l : Map Text Text) → DistinctKeys l → lookup j (store_all l []) ≡ lookup j l
unfolding lookup
lookup-store_all j l d = lookup-store_all_onto j l [] d ∙ or_else-none (lookup j l)
