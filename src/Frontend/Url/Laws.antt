-- ===== src/Frontend/Url/Laws.antt =====
-- Parameters that are printed into a URL and read from it.
use penn_mail_and_penn_drive.Base.{
  ℕ, ◌≡◌, refl, sym, ap, ◌∙◌, ◌≢◌, List, [], ◌∷◌, ◌++◌, map, append-nil, arith, nat_eq, list_eq,
  pair_eq, All, All-append, ok, ◌>>=◌,
}
use penn_mail_and_penn_drive.Base.Text.{Text, Lacks, split}
use penn_mail_and_penn_drive.Base.Maps.{Map, lookup}
use penn_mail_and_penn_drive.Base.Text.Laws.{
  before-append, after?-append, split-append, split-Lacks,
}
use penn_mail_and_penn_drive.Frontend.Strings.{drop_last}
use penn_mail_and_penn_drive.Frontend.Ordered.{store, store_all, lookup-store_all, DistinctKeys}
use penn_mail_and_penn_drive.Frontend.Url.{
  skip_mark, store_params, params_from_url, print_params, params_to_url, url_decode,
}

-- A parameter in which the separators do not stand.
abbrev pub PlainParam : Text × Text → Type 0
PlainParam (k, v) = Lacks b'=' k × Lacks b'&' k × Lacks b'?' k × Lacks b'&' v

abbrev pub param : Text × Text → Text
param (k, v) = k ++ (b'=' ∷ v)

-- A parameter without the ampersand.
abbrev Separate : Text × Text → Type 0
Separate (k, v) = Lacks b'&' k × Lacks b'&' v

param-Lacks : (k v : Text) → Separate (k, v) → Lacks b'&' (param (k, v))
param-Lacks k v (a, b) = All-append (λ x. x ≢ b'&') k (b'=' ∷ v) a (omega arith, b)

drop_last-append : (a b : Text) (x : ℕ) → drop_last (a ++ (x ∷ b)) ≡ a ++ drop_last (x ∷ b)
unfolding drop_last
drop_last-append [] b x = refl
drop_last-append (y ∷ []) b x = refl
drop_last-append (y ∷ z ∷ a) b x = ap (λ t. y ∷ t) (drop_last-append (z ∷ a) b x)

drop_last-end : (a : Text) (x : ℕ) → drop_last (a ++ x ∷ []) ≡ a
drop_last-end a x = drop_last-append a [] x ∙ (unfold drop_last in append-nil a)

drop_last-cons :
    (x : ℕ) (a b : Text) (y : ℕ) → drop_last (x ∷ (a ++ y ∷ b)) ≡ x ∷ drop_last (a ++ y ∷ b)
unfolding drop_last
drop_last-cons x [] b y = refl
drop_last-cons x (z ∷ a) b y = refl

split-param : (k v : Text) → Separate (k, v) → split b'&' (param (k, v)) ≡ param (k, v) ∷ []
split-param [] v h = split-Lacks b'&' b'=' v (param-Lacks [] v h)
split-param (x ∷ k) v h = split-Lacks b'&' x (k ++ b'=' ∷ v) (param-Lacks (x ∷ k) v h)

-- The last ampersand of several parameters is that of the later ones.
drop_last_later :
    (a : Text) (p : Text × Text) (m : Map Text Text)
    → drop_last (a ++ b'&' ∷ print_params (p ∷ m)) ≡ a ++ b'&' ∷ drop_last (print_params (p ∷ m))
drop_last_later a (k, v) m =
    drop_last-append a (print_params ((k, v) ∷ m)) b'&'
    ∙ ap (λ t. a ++ t)
        (unfold print_params in drop_last-cons b'&' (k ++ b'=' ∷ v) (print_params m) b'&')

-- The printed parameters without the last ampersand fall apart into the parameters.
split-printed_params :
    (p : Text × Text) (m : Map Text Text)
    → All Separate (p ∷ m)
    → split b'&' (drop_last (print_params (p ∷ m))) ≡ map param (p ∷ m)
unfolding print_params
split-printed_params (k, v) [] (h, _) =
    ap (split b'&') (drop_last-end (param (k, v)) b'&') ∙ split-param k v h
split-printed_params (k, v) (q ∷ m) (h, l) =
    ap (split b'&') (drop_last_later (param (k, v)) q m)
    ∙ split-append b'&' (param (k, v)) (drop_last (print_params (q ∷ m))) (param-Lacks k v h)
    ∙ ap (λ t. param (k, v) ∷ t) (split-printed_params q m l)

store_one_param :
    (k v : Text) (l : List Text) (n : Map Text Text)
    → Lacks b'=' k
    → store_params (param (k, v) ∷ l) n ≡ store_params l (store (skip_mark k) v n)
unfolding store_params
store_one_param k v l n h =
    rw (store_params, after?-append b'=' k v h, before-append b'=' k v h) refl

skip_mark-Lacks : (k : Text) → Lacks b'?' k → skip_mark k ≡ k
unfolding skip_mark
skip_mark-Lacks [] h = refl
skip_mark-Lacks (x ∷ k) h = ground arith

store_params-printed :
    (m n : Map Text Text) → All PlainParam m → store_params (map param m) n ≡ store_all m n
unfolding store_params
store_params-printed [] n l = refl
store_params-printed ((k, v) ∷ m) n ((a, b, c, d), l) =
    store_one_param k v (map param m) n a
    ∙ ap (λ j. store_params (map param m) (store j v n)) (skip_mark-Lacks k c)
    ∙ store_params-printed m (store k v n) l

All-Separate : (m : Map Text Text) → All PlainParam m → All Separate m
All-Separate [] l = tt
All-Separate ((k, v) ∷ m) ((a, b, c, d), l) = ((b, d), All-Separate m l)

mark_in_front :
    (k v : Text) (m : Map Text Text)
    → b'?' ∷ drop_last (print_params ((k, v) ∷ m)) ≡ drop_last (print_params ((b'?' ∷ k, v) ∷ m))
unfolding print_params
mark_in_front k v m = sym (drop_last-cons b'?' (k ++ b'=' ∷ v) (print_params m) b'&')

url_of : (k v : Text) (m : Map Text Text) → Text
url_of k v m = b'?' ∷ drop_last (print_params ((k, v) ∷ m))

read_params :
    (k v : Text) (m : Map Text Text)
    → All PlainParam ((k, v) ∷ m)
    → store_params (split b'&' (url_of k v m)) [] ≡ store_all ((k, v) ∷ m) []
unfolding url_of skip_mark
read_params k v m ((a, b, c, d), l) =
    ap (λ t. store_params (split b'&' t) []) (mark_in_front k v m)
    ∙ ap (λ t. store_params t [])
        (split-printed_params (b'?' ∷ k, v) m (((omega arith, b), d), All-Separate m l))
    ∙ store_one_param (b'?' ∷ k) v (map param m) [] (omega arith, a)
    ∙ store_params-printed m (store k v []) l

-- Parameters with different keys, in which the separators do not stand, are read back from the
-- URL that is printed for them, if there is at least one.
pub params-printed :
    (k v : Text) (m : Map Text Text)
    → All PlainParam ((k, v) ∷ m)
    → DistinctKeys ((k, v) ∷ m)
    → (r : Map Text Text) × ((params_to_url ((k, v) ∷ m) >>= params_from_url) ≡ ok r)
      × ((j : Text) → lookup j r ≡ lookup j ((k, v) ∷ m))
unfolding params_to_url params_from_url url_of
params-printed k v m l d =
    (store_all ((k, v) ∷ m) [], ap ok (read_params k v m l), λ j. lookup-store_all j ((k, v) ∷ m) d)

-- A text without percent and plus signs is decoded to itself.
pub url_decode-Lacks : (s : Text) → Lacks b'%' s → Lacks b'+' s → url_decode s ≡ s
unfolding url_decode
url_decode-Lacks [] h l = refl
url_decode-Lacks (x ∷ []) h l = ground arith
url_decode-Lacks (x ∷ y ∷ []) h l = ground arith
url_decode-Lacks (x ∷ y ∷ z ∷ s) h l = ground (arith, url_decode-Lacks (y ∷ z ∷ s) h.1 l.1)
