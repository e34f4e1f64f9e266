-- ===== src/Config/Addressed.antt =====
-- What a storage server knows of the others from the servers' file (backend/src/utils.cpp).
use penn_mail_and_penn_drive.Base.{
  ℕ, ◌+◌, ◌≡◌, refl, ap, sym, ◌∙◌, Bool, true, false, none, some, List, [], ◌∷◌, ◌++◌, map,
  append_assoc, append-nil, arith, length, ◌==◌, if◌then◌else◌, nat_eq, All, ok, ==_iff,
}
use penn_mail_and_penn_drive.Base.Text.{Text}
use penn_mail_and_penn_drive.Base.Maps.{Map, lookup, lookup-insert}
use penn_mail_and_penn_drive.Config.{
  Addresses, no_addresses, list_at, push_address, populate_addresses,
}
use penn_mail_and_penn_drive.Config.Printed.{Configured, file_of, listen_of, primary_of, IsPlain}
use penn_mail_and_penn_drive.Config.Lines.{
  own, other, others, map_append, populate_addresses-file_of,
}

-- The addresses for messages among the servers of the partition `p`.
abbrev pub primaries : ℕ → List Configured → List Text
primaries p [] = []
primaries p (s ∷ servers) =
    let rest = primaries p servers in if s.partition == p then primary_of s ∷ rest else rest

primaries_append :
    (p : ℕ) (a b : List Configured) → primaries p (a ++ b) ≡ primaries p a ++ primaries p b
primaries_append p [] b = refl
primaries_append p (s ∷ a) b = ground (arith, primaries_append p a b)

list_at-push_address :
    (p q : ℕ) (x : Text) (m : Map ℕ (List Text))
    → list_at p (push_address q x m) ≡ (if q == p then list_at q m ++ x ∷ [] else list_at p m)
list_at-push_address p q x m =
    ap (λ o. elim o [ none ↦ [] | some l ↦ l ]) (lookup-insert q p (list_at q m ++ x ∷ []) m)
    ∙ inside (q == p)
  where
    inside :
        (b : Bool)
        → elim (if b then some (list_at q m ++ x ∷ []) else lookup p m) as (λ _. List Text) [
          | none ↦ []
          | some l ↦ l
        ]
          ≡ (if b then list_at q m ++ x ∷ [] else list_at p m)
    inside true = refl
    inside false = refl

others-primaries :
    (p : ℕ) (servers : List Configured) (a : Addresses)
    → list_at p (others servers a).partition_map ≡ list_at p a.partition_map ++ primaries p servers
others-primaries p [] a = sym (append-nil (list_at p a.partition_map))
others-primaries p (s ∷ servers) a =
    others-primaries p servers (other s a)
    ∙ ap (λ l. l ++ primaries p servers)
        (list_at-push_address p s.partition (primary_of s) a.partition_map)
    ∙ regroup (s.partition == p) refl
  where
    regroup :
        (b : Bool)
        → (s.partition == p) ≡ b
        → (if b
              then list_at s.partition a.partition_map ++ primary_of s ∷ []
              else list_at p a.partition_map)
            ++ primaries p servers
          ≡ list_at p a.partition_map
            ++ (if b then primary_of s ∷ primaries p servers else primaries p servers)
    regroup true e =
        append_assoc (list_at s.partition a.partition_map) (primary_of s ∷ []) (primaries p servers)
        ∙ ap (λ q. list_at q a.partition_map ++ primary_of s ∷ primaries p servers)
            ((==_iff s.partition p).0 e)
    regroup false e = refl

others-forward :
    (servers : List Configured) (a : Addresses)
    → (others servers a).forward_addresses ≡ a.forward_addresses ++ map listen_of servers
others-forward [] a = sym (append-nil a.forward_addresses)
others-forward (s ∷ servers) a =
    others-forward servers (other s a)
    ∙ append_assoc a.forward_addresses (listen_of s ∷ []) (map listen_of servers)

others-own :
    (servers : List Configured) (a : Addresses)
    → ((others servers a).partition ≡ a.partition)
      × ((others servers a).listen_address ≡ a.listen_address)
others-own [] a = (refl, refl)
others-own (s ∷ servers) a = others-own servers (other s a)

-- A storage server that reads the servers' file, with the number of its own line, has its own
-- partition and listening address, and of every other server, in the order of the file, the
-- listening address, and the address for messages under the partition. The addresses in the file
-- hold neither colons nor line feeds.
pub populate_addresses-others :
    (before behind : List Configured) (s : Configured)
    → All IsPlain before
    → IsPlain s
    → All IsPlain behind
    → (a : Addresses) × (populate_addresses (file_of (before ++ s ∷ behind)) (1 + length before)
        ≡ ok a)
      × (a.partition ≡ s.partition)
      × (a.listen_address ≡ listen_of s)
      × (a.forward_addresses ≡ map listen_of (before ++ behind))
      × ((p : ℕ) → list_at p a.partition_map ≡ primaries p (before ++ behind))
unfolding lookup
populate_addresses-others before behind s h k g =
    let mine = own s (others before no_addresses) in
    (
      others behind mine,
      populate_addresses-file_of before behind s h k g,
      (others-own behind mine).0,
      (others-own behind mine).1,
      others-forward behind mine
          ∙ ap (λ l. l ++ map listen_of behind) (others-forward before no_addresses)
          ∙ sym (map_append listen_of before behind),
      λ p.
          others-primaries p behind mine
          ∙ ap (λ l. l ++ primaries p behind) (others-primaries p before no_addresses)
          ∙ sym (primaries_append p before behind),
    )
