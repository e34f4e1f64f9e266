-- ===== src/Coordinator/Arrivals.antt =====
-- Storage servers that connect and are silent, in backend/coordinator.cpp.
use penn_mail_and_penn_drive.Base.{
  ℕ, ◌≡◌, refl, sym, ap, ◌∙◌, subst, ◌≢◌, inl, inr, Bool, true, false, none, some, List,
  if◌then◌else◌, Bool-cases, list_beq_iff, ◌=?◌, nat_eq, list_eq, pair_eq, Outcome, ok, blocked,
  stopped, ◌>>=◌, ok-injective,
}
use penn_mail_and_penn_drive.Base.Text.{Text}
use penn_mail_and_penn_drive.Base.Maps.{Map, lookup, insert, has, contains, add, lookup-insert}
use penn_mail_and_penn_drive.Coordinator.{
  Name, Coordinator, set_at, number_at, touch_number, choose_random_server,
}
use penn_mail_and_penn_drive.Coordinator.Storage.{
  Connections, choose_first_primary, connect_server, heartbeat_connection, has_expired,
}
use penn_mail_and_penn_drive.Coordinator.Silence.{HasBeats, beats_of, beats_after, beats_if}

first_primary-beats :
    (rand : List ℕ) (partition : ℕ) (c : Coordinator)
    → HasBeats c.server_heartbeat (choose_first_primary rand partition c)
unfolding choose_first_primary
first_primary-beats rand partition c =
    beats_if (has partition c.primary_server) c.server_heartbeat (ok c) _ (beats_of c) (
      beats_after c.server_heartbeat (choose_random_server rand partition c) _
        (λ chosen. beats_of _))

abbrev with_servers : Connections → Coordinator → Outcome (Connections × Coordinator)
with_servers all_servers e = ok (all_servers, e)

connected-beats :
    (m : Map Name ℕ) (o : Outcome Coordinator) (all_servers l : Connections) (d : Coordinator)
    → HasBeats m o
    → (o >>= with_servers all_servers) ≡ ok (l, d)
    → d.server_heartbeat ≡ m
connected-beats m (ok z) all_servers l d h e =
    ap (λ (q : Connections × Coordinator). (q.1).server_heartbeat) (sym (ok-injective e)) ∙ h z refl
connected-beats m blocked all_servers l d h e = cc
connected-beats m stopped all_servers l d h e = cc

connected_if-beats :
    (b : Bool) (m : Map Name ℕ) (z : Coordinator) (o : Outcome Coordinator)
    (all_servers l : Connections) (d : Coordinator)
    → z.server_heartbeat ≡ m
    → HasBeats m o
    → (if b then ok (all_servers, z) else (o >>= with_servers all_servers)) ≡ ok (l, d)
    → d.server_heartbeat ≡ m
connected_if-beats true m z o all_servers l d h k e =
    ap (λ (q : Connections × Coordinator). (q.1).server_heartbeat) (sym (ok-injective e)) ∙ h
connected_if-beats false m z o all_servers l d h k e = connected-beats m o all_servers l d k e

connect_server-beats :
    (rand : List ℕ) (fd now : ℕ) (ip_port name : Text) (all_servers l : Connections)
    (c d : Coordinator)
    → connect_server rand fd ip_port now name (all_servers, c) ≡ ok (l, d)
    → d.server_heartbeat ≡ insert ip_port now c.server_heartbeat
unfolding connect_server
connect_server-beats rand fd now ip_port name all_servers l c d e =
    let partition = number_at name c.partition_info in
    let alive = set_at partition c.alive_servers in
    let z : Coordinator = record c {
      server_heartbeat = insert ip_port now c.server_heartbeat;
      partition_info = touch_number name c.partition_info;
      alive_servers = insert partition (add name alive) c.alive_servers;
    } in
    connected_if-beats (contains name alive) (insert ip_port now c.server_heartbeat) z
      (choose_first_primary rand partition z) (add (fd, name) all_servers) l d refl
      (first_primary-beats rand partition z) e

-- A server that connects under an address other than its name, and whose name has no heartbeat yet,
-- never counts as silent, however long it sends nothing.
pub silent_connection :
    (rand : List ℕ) (fd now later : ℕ) (ip_port name : Text) (all_servers l : Connections)
    (c d : Coordinator)
    → lookup ip_port c.server_info ≡ some name
    → ip_port ≢ name
    → lookup name c.server_heartbeat ≡ none
    → heartbeat_connection rand fd ip_port now (all_servers, c) ≡ ok (l, d)
    → has_expired later name d.server_heartbeat ≡ false
unfolding heartbeat_connection has_expired
silent_connection rand fd now later ip_port name all_servers l c d known other none_yet e =
    let run =
      subst
        (λ o.
          (elim o as (λ _. Outcome (Connections × Coordinator)) [
            | none ↦ ok (all_servers, c)
            | some s ↦ connect_server rand fd ip_port now s (all_servers, c)
          ])
          ≡ ok (l, d))
        known e in
    subst (λ m. has_expired later name m ≡ false)
      (sym (connect_server-beats rand fd now ip_port name all_servers l c d run))
      (rw
        (
          has_expired,
          lookup-insert ip_port name now c.server_heartbeat,
          not_equal ip_port name other,
          none_yet,
        )
        refl)
  where
    not_equal : (a b : Text) → a ≢ b → (a =? b) ≡ false
    not_equal a b h = elim (Bool-cases (a =? b)) [
      | inl q ↦ absurd (h ((list_beq_iff a b).0 q))
      | inr q ↦ q
    ]
