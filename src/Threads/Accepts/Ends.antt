-- ===== src/Threads/Accepts/Ends.antt =====
-- A connection that a storage server accepts and that ends (backend/table.cpp,
-- backend/src/threads.cpp).
use penn_mail_and_penn_drive.Base.{
  ℕ, ◌≡◌, refl, ap, sym, ◌∙◌, Bool, true, false, ◌&&◌, ◌||◌, List, [], ◌∷◌, ◌++◌, arith,
  if◌then◌else◌, Eq, nat_eq, list_eq, ok, ok-injective,
}
use penn_mail_and_penn_drive.Base.Maps.{contains, add, remove}
use penn_mail_and_penn_drive.Base.Text.{Text}
use penn_mail_and_penn_drive.Dispatch.{Node}
use penn_mail_and_penn_drive.Threads.{end_connection}
use penn_mail_and_penn_drive.Threads.Accepts.{
  Acceptor, is_stored, is_replica, note_connection, accept_connection,
}

module _ {A : Type 0} ⦃e : Eq A⦄ where
  remove-absent : (a : A) (l : List A) → contains a l ≡ false → remove a l ≡ l
  unfolding remove contains
  remove-absent a [] h = refl
  remove-absent a (x ∷ l) h = ground (arith, h, remove-absent a l)

  remove-last : (a : A) (l : List A) → contains a l ≡ false → remove a (l ++ a ∷ []) ≡ l
  unfolding remove contains
  remove-last a [] h = ground (arith, e.beq_iff a a)
  remove-last a (x ∷ l) h = ground (arith, h, remove-last a l)

  remove-add : (a : A) (l : List A) → contains a l ≡ false → remove a (add a l) ≡ l
  unfolding remove add contains
  remove-add a l h = ground (arith, h, e.beq_iff a a, remove-absent a l h)

module _ (forward_addresses part_addresses : List Text) (connfd : ℕ) (addr : Text) where
  accepted-node :
      (free : List ℕ) (a b : Acceptor)
      → accept_connection forward_addresses part_addresses true connfd addr
          (record a { avail_connections = free })
        ≡ ok b
      → b.node
        ≡ note_connection
            (is_stored forward_addresses addr)
            (is_replica part_addresses addr a.node)
            connfd
            addr
            a.node
  unfolding accept_connection
  accepted-node [] a b h = cc
  accepted-node (msg_id ∷ free) a b h = ap (λ (x : Acceptor). x.node) (sym (ok-injective h))

  fds_kept :
      (replica : Bool) (fds : List ℕ)
      → contains connfd fds ≡ false
      → remove connfd (if replica then fds ++ connfd ∷ [] else fds) ≡ fds
  fds_kept true fds h = remove-last connfd fds h
  fds_kept false fds h = remove-absent connfd fds h

  replicas_kept :
      (stored listed primary : Bool) (alive : List Text)
      → contains addr alive ≡ false
      → (if primary && (stored || (listed && primary))
          then remove addr (if listed && primary then add addr alive else alive)
          else if listed && primary
          then add addr alive
          else alive)
        ≡ alive
  replicas_kept true true true alive h = remove-add addr alive h
  replicas_kept true true false alive h = refl
  replicas_kept true false true alive h = remove-absent addr alive h
  replicas_kept true false false alive h = refl
  replicas_kept false true true alive h = remove-add addr alive h
  replicas_kept false true false alive h = refl
  replicas_kept false false true alive h = refl
  replicas_kept false false false alive h = refl

  -- A connection that is accepted, and then ends, leaves the replicas of a storage server, their
  -- descriptors and the open descriptors as they were. A thread can be made for it, and neither its
  -- descriptor nor its address was noted before.
  pub accept_connection-ended :
      (a b : Acceptor)
      → accept_connection forward_addresses part_addresses true connfd addr a ≡ ok b
      → contains connfd a.node.server.net.partition_fds ≡ false
      → contains connfd a.node.server.net.open_fds ≡ false
      → contains addr a.node.server.net.alive_replicas ≡ false
      → let net =
          end_connection connfd
            (is_stored forward_addresses addr || is_replica part_addresses addr a.node)
            addr
            b.node.server.net in
        (net.partition_fds ≡ a.node.server.net.partition_fds)
        × (net.open_fds ≡ a.node.server.net.open_fds)
        × (net.alive_replicas ≡ a.node.server.net.alive_replicas)
  unfolding note_connection end_connection
  accept_connection-ended a b h fds opened alive =
      let stored = is_stored forward_addresses addr in
      let replica = is_replica part_addresses addr a.node in
      let same = accepted-node a.avail_connections a b h in
      (
        ap
              (λ (n : Node).
                (end_connection connfd (stored || replica) addr n.server.net).partition_fds)
              same
            ∙ fds_kept replica a.node.server.net.partition_fds fds,
        ap (λ (n : Node). (end_connection connfd (stored || replica) addr n.server.net).open_fds)
              same
            ∙ remove-add connfd a.node.server.net.open_fds opened,
        ap
              (λ (n : Node).
                (end_connection connfd (stored || replica) addr n.server.net).alive_replicas)
              same
            ∙ replicas_kept stored (contains addr part_addresses) a.node.server.net.is_primary
                a.node.server.net.alive_replicas alive,
      )
