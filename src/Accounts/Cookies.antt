-- ===== src/Accounts/Cookies.antt =====
-- What `auth_user` of `frontend/src/http.cc` reads in a browser's cookies.
use penn_mail_and_penn_drive.Base.{
  ℕ, ◌≡◌, refl, ap, ◌∙◌, ◌≢◌, false, some, List, [], ◌∷◌, ◌++◌, arith, ◌=?◌, nat_eq, list_eq,
  pair_eq, All, All-append,
}
use penn_mail_and_penn_drive.Base.Text.{Text, codes, Lacks, split, is_space}
use penn_mail_and_penn_drive.Base.Text.Laws.{split-append, split-Lacks}
use penn_mail_and_penn_drive.Base.Maps.{Map, lookup}
use penn_mail_and_penn_drive.Frontend.Strings.{strip}
use penn_mail_and_penn_drive.Frontend.Ordered.{store, lookup-store}
use penn_mail_and_penn_drive.Accounts.{store_pair, store_cookies}

-- What can stand in a cookie: no semicolon, no equals sign and no blank.
abbrev pub InCookie : ℕ → Type 0
InCookie x = (x ≢ b';') × (x ≢ b'=') × (is_space x ≡ false)

abbrev pub IsCookie : Text → Type 0
IsCookie [] = ⊥
IsCookie (x ∷ s) = All InCookie (x ∷ s)

-- What a browser sends for the three cookies.
abbrev pub cookie_header : Text → Text → Text → Text
cookie_header cke uuid name =
    (codes "cookie=" ++ cke) ++ b';' ∷ ((codes " uuid=" ++ uuid) ++ b';' ∷ (codes " name=" ++ name))

strip-plain : (s : Text) → All InCookie s → strip s ≡ s
unfolding strip
strip-plain [] h = refl
strip-plain (x ∷ s) h = rw (strip, h.0.2, strip-plain s h.1) refl

Lacks-semicolon : (s : Text) → All InCookie s → Lacks b';' s
Lacks-semicolon [] h = tt
Lacks-semicolon (x ∷ s) h = (h.0.0, Lacks-semicolon s h.1)

Lacks-equals : (s : Text) → All InCookie s → Lacks b'=' s
Lacks-equals [] h = tt
Lacks-equals (x ∷ s) h = (h.0.1, Lacks-equals s h.1)

-- A pair whose key and value are plain is stored.
store_pair-plain :
    (key plain v : Text) (params : Map Text Text)
    → Lacks b'=' key
    → strip key ≡ plain
    → IsCookie v
    → store_pair (split b'=' (key ++ b'=' ∷ v)) params ≡ store plain v params
unfolding store_pair
store_pair-plain key plain [] params l e h = elim h [ ]
store_pair-plain key plain (x ∷ v) params l e h =
    rw
      (
        split-append b'=' key (x ∷ v) l,
        split-Lacks b'=' x v (Lacks-equals (x ∷ v) h),
        e,
        strip-plain (x ∷ v) h,
      )
      refl

-- A pair with another key leaves what is stored under `j`.
lookup-store_pair :
    (key plain j v : Text) (params : Map Text Text)
    → Lacks b'=' key
    → strip key ≡ plain
    → (plain =? j) ≡ false
    → lookup j (store_pair (split b'=' (key ++ b'=' ∷ v)) params) ≡ lookup j params
unfolding store_pair
lookup-store_pair key plain j v params l e other =
    ap (λ kv. lookup j (store_pair kv params)) (split-append b'=' key v l) ∙ pairs (split b'=' v)
  where
    pairs : (kv : List Text) → lookup j (store_pair (key ∷ kv) params) ≡ lookup j params
    pairs [] = refl
    pairs (w ∷ []) =
        ap (λ z. lookup j (store z (strip w) params)) e
        ∙ lookup-store plain j (strip w) params
        ∙ rw other refl
    pairs (w ∷ u ∷ kv) = refl

module _ (cke uuid name : Text) (cke_plain : IsCookie cke) (uuid_plain : IsCookie uuid)
    (name_plain : Lacks b';' name) where
  abbrev pub cookies : Map Text Text
  cookies = store_cookies (split b';' (cookie_header cke uuid name)) []

  plain_bytes : (s : Text) → IsCookie s → All InCookie s
  plain_bytes [] h = elim h [ ]
  plain_bytes (x ∷ s) h = h

  split-cookie_header :
      split b';' (cookie_header cke uuid name)
      ≡ (codes "cookie=" ++ cke) ∷ (codes " uuid=" ++ uuid) ∷ (codes " name=" ++ name) ∷ []
  split-cookie_header =
      split-append b';' (codes "cookie=" ++ cke)
        ((codes " uuid=" ++ uuid) ++ b';' ∷ (codes " name=" ++ name))
        (All-append _ (codes "cookie=") cke (omega arith)
          (Lacks-semicolon cke (plain_bytes cke cke_plain)))
      ∙ ap (λ z. (codes "cookie=" ++ cke) ∷ z)
          (split-append b';' (codes " uuid=" ++ uuid) (codes " name=" ++ name) (
              All-append _ (codes " uuid=") uuid (omega arith)
                (Lacks-semicolon uuid (plain_bytes uuid uuid_plain)))
            ∙ ap (λ z. (codes " uuid=" ++ uuid) ∷ z)
                (split-Lacks b';' b' ' (codes "name=" ++ name)
                  (All-append _ (codes " name=") name (omega arith) name_plain)))

  lookup-cookies :
      (j : Text)
      → (codes "name" =? j) ≡ false
      → lookup j cookies ≡ lookup j (store (codes "uuid") uuid (store (codes "cookie") cke []))
  unfolding store_cookies
  lookup-cookies j other =
      ap (λ l. lookup j (store_cookies l [])) split-cookie_header
      ∙ lookup-store_pair (codes " name") (codes "name") j name _ (omega arith)
          (unfold strip in unfold is_space in refl) other
      ∙ ap (lookup j) (
          store_pair-plain (codes " uuid") (codes "uuid") uuid _ (omega arith)
            (unfold strip in unfold is_space in refl) uuid_plain
          ∙ ap (store (codes "uuid") uuid) (
              store_pair-plain (codes "cookie") (codes "cookie") cke [] (omega arith)
                (unfold strip in unfold is_space in refl) cke_plain))

  pub lookup-cookie : lookup (codes "cookie") cookies ≡ some cke
  lookup-cookie = lookup-cookies (codes "cookie") refl ∙ (unfold lookup in unfold store in refl)

  pub lookup-uuid : lookup (codes "uuid") cookies ≡ some uuid
  lookup-uuid = lookup-cookies (codes "uuid") refl ∙ (unfold lookup in unfold store in refl)
