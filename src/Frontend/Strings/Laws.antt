-- ===== src/Frontend/Strings/Laws.antt =====
-- How often a text occurs, and the last part of a path.
use penn_mail_and_penn_drive.Base.{
  ℕ, zero, suc, ◌+◌, ◌*◌, ◌≤◌, ◌≡◌, refl, sym, ap, ◌∙◌, inl, inr, false, some, [], ◌∷◌, ◌++◌,
  append_assoc, arith, ◌==◌, Option-cases, ◌=?◌, nat_eq, list_eq, pair_eq, length, length-append,
}
use penn_mail_and_penn_drive.Base.Text.{Text, Lacks, starts_with, find}
use penn_mail_and_penn_drive.Base.Text.Laws.{find_sound, before_last?-append, after_last-append}
use penn_mail_and_penn_drive.Frontend.Strings.{
  count_from, count_substring, drop_last, ends_in, file_name_from_path,
}

found_shorter : (p s a b : Text) → find p s ≡ some (a, b) → length p + length b ≤ length s
found_shorter p s a b h =
    omega (arith, ap length (find_sound p s a b h), length-append a (p ++ b), length-append p b)

count_from_bound : (fuel : ℕ) (p s : Text) → count_from fuel p s * length p ≤ length s
unfolding count_from
count_from_bound zero p s = omega arith
count_from_bound (suc fuel) p s = elim (Option-cases (find p s)) [
  | inl e ↦ ground arith
  | inr (r, e) ↦
      rw (count_from, e)
        (grind (arith, found_shorter p s (r.0) (r.1) e, count_from_bound fuel p (r.1)))
]

count_from-nil : (n x : ℕ) (p : Text) → count_from n (x ∷ p) [] ≡ 0
unfolding count_from
count_from-nil zero x p = refl
count_from-nil (suc n) x p = unfold find starts_with in refl

-- More rounds than there are bytes find nothing more.
pub count_from_enough :
    (n m x : ℕ) (p s : Text)
    → length s ≤ n
    → length s ≤ m
    → count_from n (x ∷ p) s ≡ count_from m (x ∷ p) s
unfolding count_from
count_from_enough n m x p [] h l = count_from-nil n x p ∙ sym (count_from-nil m x p)
count_from_enough zero m x p (y ∷ s) h l = absurd (omega arith)
count_from_enough (suc n) zero x p (y ∷ s) h l = absurd (omega arith)
count_from_enough (suc n) (suc m) x p (y ∷ s) h l = elim (Option-cases (find (x ∷ p) (y ∷ s))) [
  | inl e ↦ rw (count_from, e) refl
  | inr (r, e) ↦
      let shorter = found_shorter (x ∷ p) (y ∷ s) (r.0) (r.1) e in
      rw (count_from, e)
        (ap suc (count_from_enough n m x p (r.1) (omega (arith, shorter)) (omega (arith, shorter))))
]

-- The occurrences that are counted do not overlap: together they are no longer than the text.
pub count_substring_bound :
    (buf substr : Text) → count_substring buf substr * length substr ≤ length buf
unfolding count_substring
count_substring_bound buf [] = omega arith
count_substring_bound buf (x ∷ substr) = count_from_bound (length buf) (x ∷ substr) buf

ends_in-append : (c : ℕ) (a : Text) (x : ℕ) → ends_in c (a ++ x ∷ []) ≡ (x == c)
unfolding ends_in
ends_in-append c [] x = refl
ends_in-append c (y ∷ []) x = refl
ends_in-append c (y ∷ z ∷ a) x = ends_in-append c (z ∷ a) x

ends_in-cons : (c : ℕ) (a : Text) (x : ℕ) (b : Text) → ends_in c (a ++ x ∷ b) ≡ ends_in c (x ∷ b)
unfolding ends_in
ends_in-cons c [] x b = refl
ends_in-cons c (y ∷ []) x b = refl
ends_in-cons c (y ∷ z ∷ a) x b = ends_in-cons c (z ∷ a) x b

ends_in-Lacks : (c x : ℕ) (b : Text) → Lacks c (x ∷ b) → ends_in c (x ∷ b) ≡ false
unfolding ends_in
ends_in-Lacks c x [] h = ground arith
ends_in-Lacks c x (y ∷ b) h = ends_in-Lacks c y b h.1

pub drop_last-slash : (a : Text) (x : ℕ) → drop_last (a ++ x ∷ []) ≡ a
unfolding drop_last
drop_last-slash [] x = refl
drop_last-slash (y ∷ []) x = refl
drop_last-slash (y ∷ z ∷ a) x = ap (λ t. y ∷ t) (drop_last-slash (z ∷ a) x)

not_root : (a b : Text) (x : ℕ) → (a ++ b'/' ∷ x ∷ b =? b'/' ∷ []) ≡ false
not_root [] b x = refl
not_root (y ∷ []) b x = ground arith
not_root (y ∷ z ∷ a) b x = ground arith

file_name_from_path-file :
    (dir name : Text) (x : ℕ)
    → Lacks b'/' (x ∷ name)
    → file_name_from_path (dir ++ b'/' ∷ x ∷ name) ≡ x ∷ name
unfolding file_name_from_path ends_in
file_name_from_path-file dir name x h =
    rw
      (
        not_root dir name x,
        ends_in-cons b'/' dir b'/' (x ∷ name),
        ends_in-Lacks b'/' x name h,
        after_last-append b'/' dir (x ∷ name) h,
      )
      refl

folder_path :
    (dir name : Text) (x : ℕ)
    → (dir ++ b'/' ∷ x ∷ name) ++ b'/' ∷ [] ≡ dir ++ b'/' ∷ x ∷ (name ++ b'/' ∷ [])
folder_path dir name x = append_assoc dir (b'/' ∷ x ∷ name) (b'/' ∷ [])

file_name_from_path-folder :
    (dir name : Text) (x : ℕ)
    → Lacks b'/' (x ∷ name)
    → file_name_from_path ((dir ++ b'/' ∷ x ∷ name) ++ b'/' ∷ []) ≡ (x ∷ name) ++ b'/' ∷ []
unfolding file_name_from_path
file_name_from_path-folder dir name x h =
    rw
      (
        ends_in-append b'/' (dir ++ b'/' ∷ x ∷ name) b'/',
        drop_last-slash (dir ++ b'/' ∷ x ∷ name) b'/',
        before_last?-append b'/' dir (x ∷ name) h,
        drop_last-slash (dir ++ b'/' ∷ x ∷ name) b'/',
        after_last-append b'/' dir (x ∷ name) h,
        folder_path dir name x,
        not_root dir (name ++ b'/' ∷ []) x,
      )
      refl

-- The last part of a path is found for a file and for a folder, whose slash at the end it keeps.
-- The part is not empty and holds no slash, and a slash stands in front of it.
pub file_name_from_path_last :
    (dir name : Text) (x : ℕ)
    → Lacks b'/' (x ∷ name)
    → (file_name_from_path (dir ++ b'/' ∷ x ∷ name) ≡ x ∷ name)
      × (file_name_from_path ((dir ++ b'/' ∷ x ∷ name) ++ b'/' ∷ []) ≡ (x ∷ name) ++ b'/' ∷ [])
file_name_from_path_last dir name x h =
    (file_name_from_path-file dir name x h, file_name_from_path-folder dir name x h)
