-- ===== src/Coordinator/Primary.antt =====
-- The primary of a partition in backend/coordinator.cpp.
use penn_mail_and_penn_drive.Base.{
  ℕ, ◌≡◌, ◌≢◌, refl, ap, sym, ◌∙◌, subst, Bool, true, false, List, [], ◌∷◌, ◌++◌, Option, none,
  some, length, if◌then◌else◌, ◌=?◌, beq_refl, nat_eq, list_eq, Outcome, ok, stopped, blocked,
  ◌>>=◌, ok-injective, blocked-ne-ok, list_beq_iff, >>=-result,
}
use penn_mail_and_penn_drive.Base.Maps.{
  Map, lookup, insert, erase, contains, remove, contains-remove, lookup-insert, lookup-erase,
}
use penn_mail_and_penn_drive.Base.Text.{Text, codes}
use penn_mail_and_penn_drive.Coordinator.{
  Name, Coordinator, set_at, number_at, primary_at, touch_primary, choose_random_server,
  send_to_all, announce, primary_message, forget_server, replace_failed, handle_server_failure,
  write_fd, start_request, resume, trim_line_end, replace_paused,
}
use penn_mail_and_penn_drive.Coordinator.Choice.{Available, choose_random_server-Available}

module _ {ℓ} {V : Type ℓ} (partition : ℕ) (m : Map ℕ V) where
  lookup-inserted : (v : V) → lookup partition (insert partition v m) ≡ some v
  lookup-inserted v = lookup-insert partition partition v m ∙ rw (beq_refl partition)

  lookup-erased : lookup partition (erase partition m) ≡ none
  lookup-erased = lookup-erase partition partition m ∙ rw (beq_refl partition)

primary_at-insert :
    (partition : ℕ) (s : Name) (m : Map ℕ Name) → primary_at partition (insert partition s m) ≡ s
primary_at-insert partition s m =
    ap (λ o. elim o [ none ↦ [] | some k ↦ k ]) (lookup-inserted partition m s)

primary_at-erase : (partition : ℕ) (m : Map ℕ Name) → primary_at partition (erase partition m) ≡ []
primary_at-erase partition m =
    ap (λ o. elim o [ none ↦ [] | some k ↦ k ]) (lookup-erased partition m)

touch-primary_at :
    (partition : ℕ) (m : Map ℕ Name)
    → primary_at partition (touch_primary partition m) ≡ primary_at partition m
touch-primary_at partition m = go (lookup partition m) refl
  where
    go :
        (o : Option Name)
        → lookup partition m ≡ o
        → primary_at partition (elim o [ none ↦ insert partition [] m | some s ↦ m ])
          ≡ elim o [ none ↦ [] | some s ↦ s ]
    go none e = primary_at-insert partition [] m
    go (some s) e = ap (λ o. elim o [ none ↦ [] | some k ↦ k ]) e

send_to_all-primary :
    (l : List Name) (msg : Text) (c : Coordinator)
    → (send_to_all l msg c).primary_server ≡ c.primary_server
unfolding send_to_all
send_to_all-primary [] msg c = refl
send_to_all-primary (s ∷ l) msg c = send_to_all-primary l msg _

announce-primary :
    (partition : ℕ) (s : Name) (c d : Coordinator)
    → announce partition s c ≡ ok d
    → primary_at partition d.primary_server ≡ s
unfolding announce
announce-primary partition s c d h =
    >>=-result (λ (z : Coordinator). primary_at partition z.primary_server ≡ s)
      (primary_message s (length (set_at partition c.alive_servers))) _
      (λ msg z g.
        ap (λ (y : Coordinator). primary_at partition y.primary_server) (sym (ok-injective g))
        ∙ ap (primary_at partition) (send_to_all-primary (set_at partition c.alive_servers) msg _)
        ∙ primary_at-insert partition s c.primary_server)
      d h

clash : {b : Bool} → b ≡ true → b ≡ false → ⊥
clash h g = cc

module _ (rand : List ℕ) (name : Name) (c : Coordinator) (named : name ≢ []) where
  partition : ℕ
  partition = number_at name c.partition_info

  forgotten : Coordinator
  unfolding partition
  forgotten = record (forget_server partition name c) {
    primary_server = touch_primary partition c.primary_server;
  }

  other-name : (s : Name) → Available partition forgotten s → s ≢ name
  unfolding forgotten
  other-name s (alive, _) e =
      clash (subst (λ z. contains z (set_at partition forgotten.alive_servers) ≡ true) e alive) (
        ap (contains name) (
          ap (λ o. elim o [ none ↦ [] | some l ↦ l ])
            (lookup-inserted partition c.alive_servers (remove name others)))
        ∙ contains-remove name name others
        ∙ rw (beq_refl name))
    where
      others : List Name
      others = set_at partition c.alive_servers

  replaced :
      (o : Option Name) (d : Coordinator)
      → choose_random_server rand partition forgotten ≡ ok o
      → replace_failed partition o forgotten ≡ ok d
      → primary_at partition d.primary_server ≢ name
  unfolding replace_failed forgotten
  replaced none d h g e = named (
      sym e
      ∙ ap (λ (z : Coordinator). primary_at partition z.primary_server) (sym (ok-injective g))
      ∙ primary_at-erase partition (touch_primary partition c.primary_server))
  replaced (some s) d h g e =
      other-name s (choose_random_server-Available rand partition forgotten s h)
        (sym (announce-primary partition s forgotten d g) ∙ e)

  kept :
      (primary_at partition c.primary_server =? name) ≡ false
      → primary_at partition forgotten.primary_server ≢ name
  unfolding forgotten
  kept q e =
      clash
        ((list_beq_iff (primary_at partition c.primary_server) name).1
          (sym (touch-primary_at partition c.primary_server) ∙ e))
        q

  outcome :
      (b : Bool) (d : Coordinator)
      → (primary_at partition c.primary_server =? name) ≡ b
      → (if b
          then choose_random_server rand partition forgotten
            >>= (λ chosen. replace_failed partition chosen forgotten)
          else ok forgotten)
        ≡ ok d
      → primary_at partition d.primary_server ≢ name
  outcome true d q h = chosen (choose_random_server rand partition forgotten) refl h
    where
      chosen :
          (m : Outcome (Option Name))
          → choose_random_server rand partition forgotten ≡ m
          → (m >>= (λ o. replace_failed partition o forgotten)) ≡ ok d
          → primary_at partition d.primary_server ≢ name
      chosen (ok o) e g = replaced o d e g
      chosen blocked e g = blocked-ne-ok g
      chosen stopped e g = cc
  outcome false d q h =
      subst (λ (z : Coordinator). primary_at partition z.primary_server ≢ name) (ok-injective h)
        (kept q)

-- After `handle_server_failure` has ended for a server with a name, that server is not the primary
-- of its partition.
pub handle_server_failure-primary :
    (rand : List ℕ) (name : Name) (c d : Coordinator)
    → name ≢ []
    → handle_server_failure rand name c ≡ ok d
    → primary_at (number_at name c.partition_info) d.primary_server ≢ name
unfolding handle_server_failure partition forgotten
handle_server_failure-primary rand name c d named h =
    outcome rand name c named (primary_at (partition rand name c named) c.primary_server =? name) d
      refl h

empty-name : (name : Name) → name ≢ [] → ([] =? name) ≡ false
empty-name [] named = absurd (named refl)
empty-name (x ∷ name) named = refl

touched :
    (partition : ℕ) (m : Map ℕ Name)
    → lookup partition m ≡ none
    → lookup partition (touch_primary partition m) ≡ some []
touched partition m vacant =
    ap (λ o. lookup partition (elim o [ none ↦ insert partition [] m | some s ↦ m ])) vacant
    ∙ lookup-inserted partition m []

failure_in_vacant :
    (rand : List ℕ) (name : Name) (c : Coordinator) (named : name ≢ [])
    → lookup (number_at name c.partition_info) c.primary_server ≡ none
    → handle_server_failure rand name c ≡ ok (forgotten rand name c named)
unfolding handle_server_failure forgotten partition
failure_in_vacant rand name c named vacant =
    ap
      (λ b.
        if b
        then (choose_random_server rand p failed >>= (λ o. replace_failed p o failed))
        else ok failed)
      (ap (λ o. (elim o [ none ↦ [] | some s ↦ s ]) =? name) vacant ∙ empty-name name named)
  where
    failed : Coordinator
    failed = forgotten rand name c named

    p : ℕ
    p = number_at name c.partition_info

module _ (rand : List ℕ) (fd p : ℕ) (name other : Name) (d : Coordinator) where
  resumed : Coordinator
  resumed = record d {
    paused_servers = insert p (remove other (set_at p d.paused_servers)) d.paused_servers;
    paused_servers_frontend_fd = erase other d.paused_servers_frontend_fd;
  }

  resume_with_entry : lookup p d.primary_server ≡ some name → resume rand other p d ≡ ok resumed
  unfolding resume resumed
  resume_with_entry entry =
      ap
        (λ o.
          if (elim o [ none ↦ false | some s ↦ true ])
          then ok resumed
          else (choose_random_server rand p resumed
              >>= (λ chosen. replace_paused p chosen resumed)))
        entry

  start_with_entry :
      (word passwd text : Name)
      → trim_line_end text ≡ other
      → lookup other d.partition_info ≡ some p
      → contains other (set_at p d.paused_servers) ≡ true
      → lookup p d.primary_server ≡ some name
      → start_request rand fd (word ∷ passwd ∷ text ∷ []) d
        ≡ ok (write_fd fd (codes "+OK Server resumed\r\n") resumed)
  unfolding start_request
  start_with_entry word passwd text e known paused entry =
      rw (e, known, start_request, e, paused)
        (ap (λ o. o >>= (λ r. ok (write_fd fd (codes "+OK Server resumed\r\n") r)))
          (resume_with_entry entry))

-- In a partition without a primary, the failure of a server with a name ends, and leaves the entry
-- of the primary there, with an empty name; a request `START` for a paused server then chooses no
-- primary, but answers that the server was resumed.
pub handle_server_failure-empty :
    (rand rand' : List ℕ) (name other word passwd : Name) (fd : ℕ) (c : Coordinator)
    → lookup (number_at name c.partition_info) c.primary_server ≡ none
    → name ≢ []
    → lookup (trim_line_end other) c.partition_info ≡ some (number_at name c.partition_info)
    → contains (trim_line_end other) (set_at (number_at name c.partition_info) c.paused_servers)
      ≡ true
    → (d f : Coordinator) × (handle_server_failure rand name c ≡ ok d)
      × (start_request rand' fd (word ∷ passwd ∷ other ∷ []) d ≡ ok f)
      × (lookup (number_at name c.partition_info) f.primary_server ≡ some [])
      × (f.sent ≡ c.sent ++ (fd, codes "+OK Server resumed\r\n") ∷ [])
unfolding forgotten partition resumed
handle_server_failure-empty rand rand' name other word passwd fd c vacant named known paused = (
  forgotten rand name c named,
  write_fd fd (codes "+OK Server resumed\r\n") restarted,
  failure_in_vacant rand name c named vacant,
  start_with_entry rand' fd (number_at name c.partition_info) [] (trim_line_end other)
      (forgotten rand name c named) word passwd other refl known paused entry,
  entry,
  refl,
)
  where
    entry :
        lookup
          (number_at name c.partition_info)
          (touch_primary (number_at name c.partition_info) c.primary_server)
        ≡ some []
    entry = touched (number_at name c.partition_info) c.primary_server vacant

    restarted : Coordinator
    restarted =
        resumed rand' fd (number_at name c.partition_info) [] (trim_line_end other)
          (forgotten rand name c named)
