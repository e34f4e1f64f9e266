-- ===== src/Config/Registry.antt =====
-- What the coordinator knows of the storage servers (backend/coordinator.cpp).
use penn_mail_and_penn_drive.Base.{
  ℕ, ◌≤◌, ◌≡◌, refl, ap, sym, ◌∙◌, subst, Bool, true, false, some, List, [], ◌∷◌, arith,
  if◌then◌else◌, ◌=?◌, nat_eq, list_eq, max, ok, ok-injective, bind_inverse, >>=-result, ◌⊎◌, inl,
  inr, list_beq_iff,
}
use penn_mail_and_penn_drive.Base.Text.{Text, split, to_string}
use penn_mail_and_penn_drive.Base.Maps.{Map, lookup, insert, lookup-insert}
use penn_mail_and_penn_drive.Store.{at}
use penn_mail_and_penn_drive.Coordinator.{Name}
use penn_mail_and_penn_drive.Config.{
  Known, colon, number_of, full_id, register, read_server, read_servers,
}

-- Every address leads to a server with a partition, which is no greater than the greatest.
abbrev pub IsComplete : Known → Type 0
IsComplete k =
    (addr name : Text)
    → lookup addr k.server_info ≡ some name
    → (p : ℕ) × (lookup name k.partition_info ≡ some p) × (p ≤ k.partition_count)

inserted :
    (key addr name found : Text) (m : Map Text Name)
    → lookup addr (insert key name m) ≡ some found
    → (name ≡ found) ⊎ (lookup addr m ≡ some found)
inserted key addr name found m h = cases (key =? addr) (sym (lookup-insert key addr name m) ∙ h)
  where
    cases :
        (b : Bool)
        → (if b then some name else lookup addr m) ≡ some found
        → (name ≡ found) ⊎ (lookup addr m ≡ some found)
    cases true e = inl cc
    cases false e = inr e

at_insert :
    (name found : Name) (p q n : ℕ) (m : Map Name ℕ)
    → ((name ≡ found) ⊎ (lookup found m ≡ some q))
    → q ≤ n
    → (r : ℕ) × (lookup found (insert name p m) ≡ some r) × (r ≤ max n p)
at_insert name found p q n m h k = cases (name =? found) refl h
  where
    cases :
        (b : Bool)
        → (name =? found) ≡ b
        → ((name ≡ found) ⊎ (lookup found m ≡ some q))
        → (r : ℕ) × (lookup found (insert name p m) ≡ some r) × (r ≤ max n p)
    cases true e g = (
      p,
      lookup-insert name found p m ∙ ap (λ b. if b then some p else lookup found m) e,
      omega arith,
    )
    cases false e (inl g) = absurd (clash ((list_beq_iff name found).1 g) e)
      where
        clash : {b : Bool} → b ≡ true → b ≡ false → ⊥
        clash h g = cc
    cases false e (inr g) = (
      q,
      lookup-insert name found p m ∙ ap (λ b. if b then some p else lookup found m) e ∙ g,
      omega (arith, k),
    )

module _ (name : Name) (partition : ℕ) (k : Known) where
  same_name :
      (found : Name)
      → name ≡ found
      → (p : ℕ) × (lookup found (insert name partition k.partition_info) ≡ some p)
        × (p ≤ max k.partition_count partition)
  same_name found e =
      at_insert name found partition 0 k.partition_count k.partition_info (inl e) (omega arith)

  register-IsComplete :
      (ip : Text) (heartbeat comm listening : ℕ)
      → IsComplete k
      → IsComplete (register name partition ip heartbeat comm listening k)
  unfolding register
  register-IsComplete ip heartbeat comm listening c addr found h =
      elim (inserted (colon ip (to_string comm)) addr name found _ h) [
        | inl e ↦ same_name found e
        | inr h2 ↦ elim (inserted (colon ip (to_string heartbeat)) addr name found _ h2) [
          | inl e ↦ same_name found e
          | inr h3 ↦
              elim (inserted (colon ip (to_string listening)) addr name found k.server_info h3) [
                | inl e ↦ same_name found e
                | inr h4 ↦
                    let (p, e, l) = c addr found h4 in
                    at_insert name found partition p k.partition_count k.partition_info (inr e) l
              ]
        ]
      ]

read_server-IsComplete :
    (line : Text) (k d : Known) → IsComplete k → read_server line k ≡ ok d → IsComplete d
unfolding read_server
read_server-IsComplete line k d c e =
    let parts = split b':' line in
    >>=-result IsComplete (number_of parts 0) _
      (λ partition. >>=-result IsComplete (at parts 1) _ (λ ip.
        >>=-result IsComplete (number_of parts 2) _ (λ heartbeat.
          >>=-result IsComplete (number_of parts 3) _ (λ comm.
            >>=-result IsComplete (number_of parts 4) _ (λ listening.
              >>=-result IsComplete (at parts 5) _ (λ last z g. subst IsComplete (ok-injective g) (
                register-IsComplete (full_id ip heartbeat comm listening last) partition k ip
                  heartbeat comm listening c)))))))
      d e

-- Every address that the coordinator knows after reading the servers' file leads to a server whose
-- partition it knows, and no partition is greater than the count that `get_partition` uses. The
-- same held before.
pub read_servers-IsComplete :
    (lines : List Text) (k d : Known) → IsComplete k → read_servers lines k ≡ ok d → IsComplete d
unfolding read_servers
read_servers-IsComplete [] k d c e = subst IsComplete (ok-injective e) c
read_servers-IsComplete (line ∷ lines) k d c e =
    let (y, g, h) = bind_inverse (read_server line k) (read_servers lines) d e in
    read_servers-IsComplete lines y d (read_server-IsComplete line k y c g) h
