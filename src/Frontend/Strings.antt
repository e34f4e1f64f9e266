-- ===== src/Frontend/Strings.antt =====
-- Searching and changing texts (`frontend/src/stringutils.cc`).
pub mod Laws
use penn_mail_and_penn_drive.Base.{
  ℕ, zero, suc, ◌-◌, Bool, false, none, some, [], ◌∷◌, ◌++◌, ltb, ◌==◌, if◌then◌else◌, ◌=?◌, nat_eq,
  list_eq, pair_eq, length, drop,
}
use penn_mail_and_penn_drive.Base.Text.{Text, before_last?, after_last, find, is_space}

-- `str.compare(str.size() - suffix.size(), suffix.size(), suffix) == 0`
unfoldable pub has_suffix : Text → Text → Bool
has_suffix str suffix =
    if ltb (length str) (length suffix)
    then false
    else drop (length str - length suffix) str =? suffix

unfoldable pub strip : Text → Text
unfolding is_space
strip [] = []
strip (x ∷ str) = let rest = strip str in if is_space x then rest else x ∷ rest

-- The searches behind one another; `fuel` bounds their number.
unfoldable pub count_from : ℕ → Text → Text → ℕ
unfolding find
count_from zero substr buf = 0
count_from (suc fuel) substr buf = elim (find substr buf) [
  | none ↦ 0
  | some (_, rest) ↦ suc (count_from fuel substr rest)
]

unfoldable pub count_substring : Text → Text → ℕ
unfolding count_from
count_substring buf [] = 0
count_substring buf (x ∷ substr) = count_from (length buf) (x ∷ substr) buf

-- The first place where `from` stands gets `to`.
unfoldable pub replace : Text → Text → Text → Text
unfolding find
replace str from to = elim (find from str) [ none ↦ str | some (a, b) ↦ a ++ (to ++ b) ]

-- `s.pop_back()`
unfoldable pub drop_last : Text → Text
drop_last [] = []
drop_last (x ∷ []) = []
drop_last (x ∷ y ∷ s) = x ∷ drop_last (y ∷ s)

-- `s.back() == c`
unfoldable pub ends_in : ℕ → Text → Bool
ends_in c [] = false
ends_in c (x ∷ []) = x == c
ends_in c (x ∷ y ∷ s) = ends_in c (y ∷ s)

-- A folder's name keeps its slash at the end: the slash before that one is sought.
unfoldable pub file_name_from_path : Text → Text
unfolding ends_in drop_last before_last? after_last
file_name_from_path full_path =
    if full_path =? b'/' ∷ []
    then b'/' ∷ []
    else if ends_in b'/' full_path
    then elim (before_last? b'/' (drop_last full_path)) [
      | none ↦ full_path
      | some _ ↦ after_last b'/' (drop_last full_path) ++ b'/' ∷ []
    ]
    else after_last b'/' full_path
