-- ===== src/Web/Admin/Status.antt =====
-- The coordinator's finish_request as the administrator's page shows it (backend/coordinator.cpp,
-- frontend/src/http.cc).
use penn_mail_and_penn_drive.Base.{
  ℕ, ◌-◌, ◌≡◌, ◌≢◌, refl, ap, sym, ◌∙◌, Bool, true, false, none, some, List, [], ◌∷◌, ◌++◌,
  append_assoc, append-nil, arith, length, take, length-append, take-append, All, All-append, drop,
  ◌≤◌,
}
use penn_mail_and_penn_drive.Base.Text.{
  Text, codes, Lacks, find, split, to_string, before_last?, before_last, after_last,
}
use penn_mail_and_penn_drive.Base.Text.Laws.{
  split-append, split-Lacks, before_last?-append, before_last-append, after_last-append,
}
use penn_mail_and_penn_drive.Base.Text.Search.{find_skip}
use penn_mail_and_penn_drive.Base.Text.Numbers.{to_string-Lacks}
use penn_mail_and_penn_drive.Base.Maps.{Map}
use penn_mail_and_penn_drive.Coordinator.{Name, Coordinator}
use penn_mail_and_penn_drive.Coordinator.Requests.{
  status_text, is_on, server_entry, status_entries, touch_sets, status_request,
}
use penn_mail_and_penn_drive.Frontend.Messages.{cut_at}
use penn_mail_and_penn_drive.Web.Admin.{comma, listed, servers_of}

-- Texts in quotes, a comma and a blank between two.
abbrev pub quote_all : List Text → Text
quote_all [] = []
quote_all (x ∷ []) = b'"' ∷ (x ++ b'"' ∷ [])
quote_all (x ∷ y ∷ l) = b'"' ∷ (x ++ b'"' ∷ (codes ", " ++ quote_all (y ∷ l)))

-- What is shown of each server.
abbrev pub shown : (Name → ℕ → Text) → Map Name ℕ → List Text
shown out [] = []
shown out ((name, partition) ∷ servers) = out name partition ∷ shown out servers

-- The partition and the name.
abbrev pub full_name : Name → ℕ → Text
full_name name partition = to_string partition ++ b'-' ∷ name

-- `ON` or `OFF`
abbrev pub state : Coordinator → Name → ℕ → Text
state c name partition = status_text (is_on name partition c)

abbrev entries : Map Name ℕ → Coordinator → List Text
entries [] c = []
entries ((name, partition) ∷ servers) c = server_entry name partition c ∷ entries servers c

abbrev spaced : List Text → Text
spaced [] = []
spaced (e ∷ l) = b' ' ∷ (e ++ spaced l)

status_text-Lacks : (x : ℕ) (b : Bool) → x ≢ 79 → x ≢ 78 → x ≢ 70 → Lacks x (status_text b)
status_text-Lacks x true h g f = (λ e. h (sym e), (λ e. g (sym e), tt))
status_text-Lacks x false h g f = (λ e. h (sym e), (λ e. f (sym e), (λ e. f (sym e), tt)))

spaced-entries :
    (m : Map Name ℕ) (c : Coordinator)
    → b' ' ∷ status_entries m c ≡ spaced (entries m c) ++ b' ' ∷ []
unfolding status_entries
spaced-entries [] c = refl
spaced-entries ((name, partition) ∷ m) c =
    ap (λ z. b' ' ∷ (server_entry name partition c ++ z)) (spaced-entries m c)
    ∙ ap (λ z. b' ' ∷ z)
        (sym (append_assoc (server_entry name partition c) (spaced (entries m c)) _))

take_all_but_last : (a : Text) (x : ℕ) → take (length (a ++ x ∷ []) - 1) (a ++ x ∷ []) ≡ a
take_all_but_last a x = ap (λ n. take n (a ++ x ∷ [])) (one_less a) ∙ take-append a (x ∷ [])
  where
    one_less : (a : Text) → length (a ++ x ∷ []) - 1 ≡ length a
    one_less a = omega (arith, length-append a (x ∷ []))

cut_at-line : (a : Text) → Lacks 13 a → cut_at (codes "\r\n") (a ++ codes "\r\n") ≡ a
unfolding cut_at find
cut_at-line a h =
    ap (λ o. elim o [ none ↦ a ++ codes "\r\n" | some (w, _) ↦ w ])
      (find_skip 13 (10 ∷ []) a (codes "\r\n") h)
    ∙ append-nil a

-- Every part is a text of its own, without a blank.
abbrev IsWord : Text → Type 0
IsWord e = Lacks 32 e × (e ≢ [])

split-spaced :
    (a : Text) (l : List Text) → IsWord a → All IsWord l → split 32 (a ++ spaced l) ≡ a ∷ l
split-spaced [] [] (h, k) g = absurd (k refl)
split-spaced (x ∷ a) [] (h, k) g = ap (split 32) (append-nil (x ∷ a)) ∙ split-Lacks 32 x a h
split-spaced a (e ∷ l) (h, k) (w, g) =
    split-append 32 a (e ++ spaced l) h ∙ ap (λ z. a ∷ z) (split-spaced e l w g)

server_entry-parts :
    (name : Name) (partition : ℕ) (c : Coordinator)
    → server_entry name partition c ≡ full_name name partition ++ b'-' ∷ state c name partition
server_entry-parts name partition c =
    sym (append_assoc (to_string partition) (b'-' ∷ name) (b'-' ∷ state c name partition))

no_hyphen : (name : Name) (partition : ℕ) (c : Coordinator) → Lacks 45 (state c name partition)
no_hyphen name partition c =
    status_text-Lacks 45 (is_on name partition c) (omega arith) (omega arith) (omega arith)

module _ (c : Coordinator) (part : Text → Text) (out : Name → ℕ → Text) where
  PartIsOut : Type 0
  PartIsOut =
      (name : Name) (partition : ℕ) → part (server_entry name partition c) ≡ out name partition

  listed-cons :
      (name : Name) (partition : ℕ) (l : List Text)
      → PartIsOut
      → listed part (server_entry name partition c ∷ l)
        ≡ b'"' ∷ (out name partition ++ b'"' ∷ (comma l ++ listed part l))
  unfolding listed PartIsOut
  listed-cons name partition l h =
      ap
        (λ o. elim o [
          | none ↦ listed part l
          | some _ ↦
              b'"' ∷ (part (server_entry name partition c) ++ b'"' ∷ (comma l ++ listed part l))
        ])
        (ap (before_last? b'-') (server_entry-parts name partition c)
          ∙ before_last?-append b'-' (full_name name partition) (state c name partition)
              (no_hyphen name partition c))
      ∙ ap (λ z. b'"' ∷ (z ++ b'"' ∷ (comma l ++ listed part l))) (h name partition)

  listed-entries :
      (m : Map Name ℕ) → PartIsOut → listed part (entries m c) ≡ quote_all (shown out m)
  unfolding listed comma
  listed-entries [] h = refl
  listed-entries ((name, partition) ∷ []) h = listed-cons name partition [] h
  listed-entries ((name, partition) ∷ ((s, p) ∷ m)) h =
      listed-cons name partition (entries ((s, p) ∷ m) c) h
      ∙ ap (λ z. b'"' ∷ (out name partition ++ b'"' ∷ (codes ", " ++ z)))
          (listed-entries ((s, p) ∷ m) h)

-- A configured name holds no blank and no carriage return.
abbrev pub IsPlainName : Name × ℕ → Type 0
IsPlainName (name, partition) = Lacks 32 name × Lacks 13 name

entry-Lacks :
    (x : ℕ) (name : Name) (partition : ℕ) (c : Coordinator)
    → x ≤ 32
    → Lacks x name
    → Lacks x (server_entry name partition c)
entry-Lacks x name partition c k h =
    All-append (λ y. y ≢ x) (to_string partition) _ (to_string-Lacks x partition (omega (arith, k)))
      (
        (λ e. omega (arith, k, e)),
        All-append (λ y. y ≢ x) name _ h
            (
              (λ e. omega (arith, k, e)),
              status_text-Lacks x (is_on name partition c) (λ e. omega (arith, k, e))
                  (λ e. omega (arith, k, e)) (λ e. omega (arith, k, e)),
            ),
      )

entry-ne-nil : (name : Name) (partition : ℕ) (c : Coordinator) → server_entry name partition c ≢ []
entry-ne-nil name partition c = cons_after (to_string partition) b'-' _
  where
    cons_after : (a : Text) (x : ℕ) (b : Text) → a ++ x ∷ b ≢ []
    cons_after [] x b e = cc
    cons_after (y ∷ a) x b e = cc

entries-IsWord : (m : Map Name ℕ) (c : Coordinator) → All IsPlainName m → All IsWord (entries m c)
entries-IsWord [] c h = tt
entries-IsWord ((name, partition) ∷ m) c ((h, _), g) = (
  (entry-Lacks 32 name partition c (omega arith) h, entry-ne-nil name partition c),
  entries-IsWord m c g,
)

spaced-Lacks :
    (m : Map Name ℕ) (c : Coordinator) → All IsPlainName m → Lacks 13 (spaced (entries m c))
spaced-Lacks [] c h = tt
spaced-Lacks ((name, partition) ∷ m) c ((_, h), g) = (
  (λ e. omega (arith, e)),
  All-append (λ y. y ≢ 13) (server_entry name partition c) _
      (entry-Lacks 13 name partition c (omega arith) h) (spaced-Lacks m c g),
)

touch_sets-sent : (m : Map Name ℕ) (c : Coordinator) → (touch_sets m c).sent ≡ c.sent
unfolding touch_sets
touch_sets-sent [] c = refl
touch_sets-sent ((name, partition) ∷ m) c = touch_sets-sent m _

abbrev response : Coordinator → Text
response c = codes "+OK " ++ status_entries c.partition_info c

abbrev line : Coordinator → Text
line c = codes "+OK" ++ spaced (entries c.partition_info c)

response-line : (c : Coordinator) → response c ≡ line c ++ b' ' ∷ []
response-line c = ap (λ z. codes "+OK" ++ z) (spaced-entries c.partition_info c)

line-Lacks : (c : Coordinator) → All IsPlainName c.partition_info → Lacks 13 (line c)
line-Lacks c h = (
  λ e. omega (arith, e),
  (λ e. omega (arith, e), (λ e. omega (arith, e), spaced-Lacks c.partition_info c h)),
)

ok-IsWord : IsWord (codes "+OK")
ok-IsWord = ((λ e. omega (arith, e), (λ e. omega (arith, e), (λ e. omega (arith, e), tt))), λ e. cc)

-- The words that the page gets.
words :
    (c : Coordinator)
    → All IsPlainName c.partition_info
    → split b' '
        (cut_at (codes "\r\n") (take (length (response c) - 1) (response c) ++ codes "\r\n"))
      ≡ codes "+OK" ∷ entries c.partition_info c
words c h =
    ap (λ z. split b' ' (cut_at (codes "\r\n") (z ++ codes "\r\n")))
      (ap (λ z. take (length z - 1) z) (response-line c) ∙ take_all_but_last (line c) b' ')
    ∙ ap (split b' ') (cut_at-line (line c) (line-Lacks c h))
    ∙ split-spaced (codes "+OK") (entries c.partition_info c) ok-IsWord
        (entries-IsWord c.partition_info c h)

name_part : (c : Coordinator) → PartIsOut c (before_last b'-') full_name
unfolding PartIsOut
name_part c name partition =
    ap (before_last b'-') (server_entry-parts name partition c)
    ∙ before_last-append b'-' (full_name name partition) (state c name partition)
        (no_hyphen name partition c)

state_part : (c : Coordinator) → PartIsOut c (after_last b'-') (state c)
unfolding PartIsOut
state_part c name partition =
    ap (after_last b'-') (server_entry-parts name partition c)
    ∙ after_last-append b'-' (full_name name partition) (state c name partition)
        (no_hyphen name partition c)

-- The finish_request to `GET passwd null null` shows the administrator every server of the configuration
-- once, in its order, and beside it whether the coordinator holds it for alive and not paused. The
-- names of the servers hold no blanks and no carriage returns.
pub servers_of-status_request :
    (fd : ℕ) (c : Coordinator)
    → All IsPlainName c.partition_info
    → (m : Text) × ((status_request fd c).sent ≡ c.sent ++ (fd, m) ∷ [])
      × (servers_of (cut_at (codes "\r\n") m) ≡ (
        quote_all (shown full_name c.partition_info),
        quote_all (shown (state c) c.partition_info),
      ))
unfolding status_request servers_of
servers_of-status_request fd c h = (
  take (length (response c) - 1) (response c) ++ codes "\r\n",
  ap (λ z. z ++ (fd, take (length (response c) - 1) (response c) ++ codes "\r\n") ∷ [])
      (touch_sets-sent c.partition_info c),
  ap
        (λ (l : List Text).
          (listed (before_last b'-') (drop 1 l), listed (after_last b'-') (drop 1 l)))
        (words c h)
      ∙ ap (λ z. (z, listed (after_last b'-') (entries c.partition_info c)))
          (listed-entries c (before_last b'-') full_name c.partition_info (name_part c))
      ∙ ap (λ z. (quote_all (shown full_name c.partition_info), z))
          (listed-entries c (after_last b'-') (state c) c.partition_info (state_part c)),
)
