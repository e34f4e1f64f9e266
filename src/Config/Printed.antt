-- ===== src/Config/Printed.antt =====
-- The servers' file as it is written, and what `populate_addresses` of backend/src/utils.cpp makes
-- of it.
use penn_mail_and_penn_drive.Base.{
  ℕ, ◌≡◌, ◌≢◌, refl, ap, ◌∙◌, List, [], ◌∷◌, ◌++◌, map, arith, nat_eq, All, All-append, list_eq,
}
use penn_mail_and_penn_drive.Base.Text.{Text, Lacks, split, tokens, to_string}
use penn_mail_and_penn_drive.Base.Text.Laws.{split-append}
use penn_mail_and_penn_drive.Base.Text.Numbers.{
  to_string-Lacks, to_string-Lacks_colon, split-to_string,
}
use penn_mail_and_penn_drive.Config.{colon}

-- A server as the file names it.
pub record Configured : Type 0 where
  pub partition : ℕ
  pub ip : Text
  pub heartbeat : ℕ
  pub comm : ℕ
  pub listening : ℕ
  pub primary : ℕ

-- Its line.
abbrev pub line_of : Configured → Text
line_of s = colon (to_string s.partition) (
    colon s.ip (
      colon (to_string s.heartbeat)
        (colon (to_string s.comm) (colon (to_string s.listening) (to_string s.primary)))))

-- The lines, with a line feed behind each.
abbrev pub file_of : List Configured → Text
file_of [] = []
file_of (s ∷ servers) = line_of s ++ b'\n' ∷ file_of servers

abbrev pub listen_of : Configured → Text
listen_of s = colon s.ip (to_string s.listening)

abbrev pub primary_of : Configured → Text
primary_of s = colon s.ip (to_string s.primary)

-- An address holds neither colons nor line feeds.
abbrev pub IsPlain : Configured → Type 0
IsPlain s = Lacks 58 s.ip × Lacks 10 s.ip

split_cons :
    (a b : Text) (l : List Text) → Lacks 58 a → split 58 b ≡ l → split 58 (colon a b) ≡ a ∷ l
split_cons a b l h e = split-append 58 a b h ∙ ap (λ z. a ∷ z) e

-- The six parts of a line.
pub split-line_of :
    (s : Configured)
    → Lacks 58 s.ip
    → split 58 (line_of s)
      ≡ to_string s.partition
        ∷ s.ip
        ∷ to_string s.heartbeat
        ∷ to_string s.comm
        ∷ to_string s.listening
        ∷ to_string s.primary
        ∷ []
split-line_of s h = split_cons (to_string s.partition) _ _ (to_string-Lacks_colon s.partition) (
    split_cons s.ip _ _ h (
      split_cons (to_string s.heartbeat) _ _ (to_string-Lacks_colon s.heartbeat) (
        split_cons (to_string s.comm) _ _ (to_string-Lacks_colon s.comm) (
          split_cons (to_string s.listening) _ _ (to_string-Lacks_colon s.listening)
            (split-to_string s.primary)))))

colon-Lacks : (a b : Text) → Lacks 10 a → Lacks 10 b → Lacks 10 (colon a b)
colon-Lacks a b h g = All-append (λ y. y ≢ 10) a (58 ∷ b) h ((λ e. omega (arith, e)), g)

one_line : (n : ℕ) → Lacks 10 (to_string n)
one_line n = to_string-Lacks 10 n (omega arith)

line_of-Lacks : (s : Configured) → Lacks 10 s.ip → Lacks 10 (line_of s)
line_of-Lacks s h = colon-Lacks (to_string s.partition) _ (one_line s.partition) (
    colon-Lacks s.ip _ h (
      colon-Lacks (to_string s.heartbeat) _ (one_line s.heartbeat) (
        colon-Lacks (to_string s.comm) _ (one_line s.comm)
          (colon-Lacks (to_string s.listening) _ (one_line s.listening) (one_line s.primary)))))

pub split-file_of :
    (servers : List Configured)
    → All IsPlain servers
    → split 10 (file_of servers) ≡ map line_of servers
unfolding split tokens
split-file_of [] h = refl
split-file_of (s ∷ servers) ((_, h), g) =
    split-append 10 (line_of s) (file_of servers) (line_of-Lacks s h)
    ∙ ap (λ z. line_of s ∷ z) (split-file_of servers g)
