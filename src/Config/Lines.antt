-- ===== src/Config/Lines.antt =====
-- `populate_addresses` of backend/src/utils.cpp, line by line.
use penn_mail_and_penn_drive.Base.{
  ℕ, suc, ◌+◌, ◌<◌, ◌≤◌, ◌≡◌, ◌≢◌, refl, ap, sym, ◌∙◌, false, List, [], ◌∷◌, ◌++◌, map, append-nil,
  arith, length, ◌==◌, nat_eq, All, Outcome, ok, ◌>>=◌, beq_refl, inl, inr, ◌⊎◌, All-append,
}
use penn_mail_and_penn_drive.Base.Text.{Text}
use penn_mail_and_penn_drive.Base.Text.Numbers.{atoi-to_string}
use penn_mail_and_penn_drive.Config.{
  Addresses, no_addresses, push_address, populate_line, populate_lines, populate_addresses,
}
use penn_mail_and_penn_drive.Config.Printed.{
  Configured, line_of, file_of, listen_of, primary_of, IsPlain, split-line_of, split-file_of,
}

-- The server's own line.
abbrev pub own : Configured → Addresses → Addresses
own s a = record a {
  partition = s.partition;
  ip = s.ip;
  listen_port = s.listening;
  primary_port = s.primary;
  heartbeat_port = s.heartbeat;
  comm_port = s.comm;
  listen_address = listen_of s;
}

-- The line of another server.
abbrev pub other : Configured → Addresses → Addresses
other s a = record a {
  forward_addresses = a.forward_addresses ++ listen_of s ∷ [];
  partition_map = push_address s.partition (primary_of s) a.partition_map;
}

abbrev pub others : List Configured → Addresses → Addresses
others [] a = a
others (s ∷ servers) a = others servers (other s a)

line-own :
    (n : ℕ) (s : Configured) (a : Addresses)
    → IsPlain s
    → populate_line n n (line_of s) a ≡ ok (own s a)
unfolding populate_line
line-own n s a (h, _) =
    rw
      (
        populate_line,
        split-line_of s h,
        beq_refl n,
        atoi-to_string s.partition,
        atoi-to_string s.heartbeat,
        atoi-to_string s.comm,
        atoi-to_string s.listening,
        atoi-to_string s.primary,
      )
      refl

line-other :
    (n idx : ℕ) (s : Configured) (a : Addresses)
    → idx ≢ n
    → IsPlain s
    → populate_line n idx (line_of s) a ≡ ok (other s a)
unfolding populate_line
line-other n idx s a k (h, _) =
    rw (populate_line, split-line_of s h, differs idx n k, atoi-to_string s.partition) refl
  where
    differs : (i j : ℕ) → i ≢ j → (i == j) ≡ false
    differs i j h = ground (arith, h)

pub map_append :
    (f : Configured → Text) (a b : List Configured) → map f (a ++ b) ≡ map f a ++ map f b
map_append f [] b = refl
map_append f (x ∷ a) b = ap (λ l. f x ∷ l) (map_append f a b)

lines-others :
    (n idx : ℕ) (servers : List Configured) (rest : List Text) (a : Addresses)
    → ((idx + length servers ≤ n) ⊎ (n < idx))
    → All IsPlain servers
    → populate_lines n idx (map line_of servers ++ rest) a
      ≡ populate_lines n (idx + length servers) rest (others servers a)
unfolding populate_lines
lines-others n idx [] rest a k h = ap (λ i. populate_lines n i rest a) (omega arith)
lines-others n idx (s ∷ servers) rest a k (h, g) =
    ap (λ (o : Outcome Addresses). o >>= populate_lines n (idx + 1) (map line_of servers ++ rest))
      (line-other n idx s a (away k) h)
    ∙ lines-others n (idx + 1) servers rest (other s a) (next k) g
    ∙ ap (λ i. populate_lines n i rest (others servers (other s a))) (omega arith)
  where
    away : ((idx + suc (length servers) ≤ n) ⊎ (n < idx)) → idx ≢ n
    away (inl k) e = omega (arith, k, e)
    away (inr k) e = omega (arith, k, e)

    next :
        ((idx + suc (length servers) ≤ n) ⊎ (n < idx))
        → ((idx + 1 + length servers ≤ n) ⊎ (n < idx + 1))
    next (inl k) = inl (omega (arith, k))
    next (inr k) = inr (omega (arith, k))

-- The file, read from the server's own line.
pub populate_addresses-file_of :
    (before behind : List Configured) (s : Configured)
    → All IsPlain before
    → IsPlain s
    → All IsPlain behind
    → populate_addresses (file_of (before ++ s ∷ behind)) (1 + length before)
      ≡ ok (others behind (own s (others before no_addresses)))
unfolding populate_addresses populate_lines
populate_addresses-file_of before behind s h k g =
    ap (λ l. populate_lines (1 + length before) 1 l no_addresses)
      (split-file_of (before ++ s ∷ behind) (All-append IsPlain before (s ∷ behind) h (k, g))
        ∙ map_append line_of before (s ∷ behind))
    ∙ lines-others (1 + length before) 1 before (map line_of (s ∷ behind)) no_addresses
        (inl (omega arith)) h
    ∙ ap
        (λ (o : Outcome Addresses).
          o >>= populate_lines (1 + length before) (1 + length before + 1) (map line_of behind))
        (line-own (1 + length before) s (others before no_addresses) k)
    ∙ ap
        (λ l.
          populate_lines (1 + length before) (1 + length before + 1) l
            (own s (others before no_addresses)))
        (sym (append-nil (map line_of behind)))
    ∙ lines-others (1 + length before) (1 + length before + 1) behind []
        (own s (others before no_addresses)) (inr (omega arith)) g
