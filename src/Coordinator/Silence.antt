-- ===== src/Coordinator/Silence.antt =====
-- Storage servers that are silent, in backend/coordinator.cpp.
use penn_mail_and_penn_drive.Base.{
  ℕ, ◌+◌, ◌≡◌, refl, sym, ap, ◌∙◌, subst, inl, inr, Bool, true, false, Option, none, some, List, [],
  ◌∷◌, ltb, if◌then◌else◌, Bool-cases, ◌=?◌, nat_eq, list_eq, pair_eq, length, All, Outcome, ok,
  blocked, stopped, ◌>>=◌, ok-injective,
}
use penn_mail_and_penn_drive.Base.Text.{Text}
use penn_mail_and_penn_drive.Base.Maps.{Map, lookup, erase, lookup-erase}
use penn_mail_and_penn_drive.Coordinator.{
  Name, Coordinator, set_at, number_at, primary_at, touch_primary, primary_message,
  choose_random_server, send_to_all, announce, forget_server, replace_failed, handle_server_failure,
}
use penn_mail_and_penn_drive.Coordinator.Storage.{Connections, has_expired, check_heartbeats}

-- Every result has the heartbeats `m`.
abbrev pub HasBeats : Map Name ℕ → Outcome Coordinator → Type 0
HasBeats m o = (d : Coordinator) → o ≡ ok d → d.server_heartbeat ≡ m

pub beats_of : (c : Coordinator) → HasBeats c.server_heartbeat (ok c)
beats_of c d e = sym (ap (λ (x : Coordinator). x.server_heartbeat) (ok-injective e))

pub beats_after :
    {A : Type 0} (m : Map Name ℕ) (o : Outcome A) (f : A → Outcome Coordinator)
    → ((a : A) → HasBeats m (f a))
    → HasBeats m (o >>= f)
beats_after m (ok a) f h = h a
beats_after m blocked f h = λ d e. cc
beats_after m stopped f h = λ d e. cc

pub beats_if :
    (b : Bool) (m : Map Name ℕ) (o p : Outcome Coordinator)
    → HasBeats m o
    → HasBeats m p
    → HasBeats m (if b then o else p)
beats_if true m o p h k = h
beats_if false m o p h k = k

send_to_all-beats :
    (l : List Name) (msg : Text) (c : Coordinator)
    → (send_to_all l msg c).server_heartbeat ≡ c.server_heartbeat
unfolding send_to_all
send_to_all-beats [] msg c = refl
send_to_all-beats (s ∷ l) msg c = send_to_all-beats l msg _

announce-beats :
    (partition : ℕ) (s : Name) (c : Coordinator)
    → HasBeats c.server_heartbeat (announce partition s c)
unfolding announce
announce-beats partition s c =
    beats_after c.server_heartbeat (primary_message s (length (set_at partition c.alive_servers))) _
      (λ msg d e. beats_of _ d e ∙ send_to_all-beats (set_at partition c.alive_servers) msg _)

replace_failed-beats :
    (partition : ℕ) (o : Option Name) (c : Coordinator)
    → HasBeats c.server_heartbeat (replace_failed partition o c)
unfolding replace_failed
replace_failed-beats partition none c = λ d e. beats_of _ d e
replace_failed-beats partition (some s) c = announce-beats partition s c

-- Only the failed server's heartbeat is forgotten.
failure-beats :
    (rand : List ℕ) (name : Name) (c : Coordinator)
    → HasBeats (erase name c.server_heartbeat) (handle_server_failure rand name c)
unfolding handle_server_failure
failure-beats rand name c =
    let partition = number_at name c.partition_info in
    let d = forget_server partition name c in
    let e = record d { primary_server = touch_primary partition d.primary_server } in
    beats_if (primary_at partition d.primary_server =? name) (erase name c.server_heartbeat) _ _
      (beats_after (erase name c.server_heartbeat) (choose_random_server rand partition e) _
        (λ chosen. replace_failed-beats partition chosen e))
      (beats_of e)

-- Nobody in the list is silent for too long.
abbrev pub AllHeard : ℕ → Map Name ℕ → Connections → Type 0
AllHeard now beats = All (λ (fd, name). has_expired now name beats ≡ false)

-- Forgetting heartbeats makes nobody silent.
erase-heard :
    (now : ℕ) (name s : Name) (m : Map Name ℕ)
    → has_expired now s m ≡ false
    → has_expired now s (erase name m) ≡ false
unfolding has_expired
erase-heard now name s m h = rw (has_expired, lookup-erase name s m) (forgotten (name =? s))
  where
    forgotten :
        (b : Bool)
        → (elim (if b then none else lookup s m) [ none ↦ false | some last ↦ ltb (last + 3) now ])
          ≡ false
    forgotten true = refl
    forgotten false = h

abbrev Heard : ℕ → Coordinator → Outcome (Connections × Coordinator) → Type 0
Heard now c o =
    (l : Connections) (d : Coordinator)
    → o ≡ ok (l, d)
    → AllHeard now d.server_heartbeat l
      × ((s : Name)
          → has_expired now s c.server_heartbeat ≡ false
          → has_expired now s d.server_heartbeat ≡ false)

nobody_left : (now : ℕ) (c : Coordinator) → Heard now c (ok ([], c))
nobody_left now c l d e =
    subst
      (λ (q : Connections × Coordinator).
        AllHeard now ((q.1).server_heartbeat) (q.0)
        × ((s : Name)
            → has_expired now s c.server_heartbeat ≡ false
            → has_expired now s ((q.1).server_heartbeat) ≡ false))
      (ok-injective e) (tt, λ s h. h)

entry_kept :
    (now fd : ℕ) (name : Name) (c : Coordinator) (o : Outcome (Connections × Coordinator))
    → has_expired now name c.server_heartbeat ≡ false
    → Heard now c o
    → Heard now c (o >>= λ (rest, d). ok ((fd, name) ∷ rest, d))
entry_kept now fd name c (ok (rest, z)) h k l d e =
    let (all, others) = k rest z refl in
    subst
      (λ (q : Connections × Coordinator).
        AllHeard now ((q.1).server_heartbeat) (q.0)
        × ((s : Name)
            → has_expired now s c.server_heartbeat ≡ false
            → has_expired now s ((q.1).server_heartbeat) ≡ false))
      (ok-injective e) ((others name h, all), others)
entry_kept now fd name c blocked h k l d e = cc
entry_kept now fd name c stopped h k l d e = cc

entry_failed :
    (now : ℕ) (name : Name) (c : Coordinator) (o : Outcome Coordinator)
    (f : Coordinator → Outcome (Connections × Coordinator))
    → HasBeats (erase name c.server_heartbeat) o
    → ((z : Coordinator) → Heard now z (f z))
    → Heard now c (o >>= f)
entry_failed now name c (ok z) f b k l d e =
    let (all, others) = k z l d e in
    (
      all,
      λ s h. others s (
          subst (λ m. has_expired now s m ≡ false) (sym (b z refl))
            (erase-heard now name s c.server_heartbeat h)),
    )
entry_failed now name c blocked f b k l d e = cc
entry_failed now name c stopped f b k l d e = cc

check_heartbeats-Heard :
    (rand : ℕ → List ℕ) (now : ℕ) (all_servers : Connections) (c : Coordinator)
    → Heard now c (check_heartbeats rand now all_servers c)
unfolding check_heartbeats
check_heartbeats-Heard rand now [] c = nobody_left now c
check_heartbeats-Heard rand now ((fd, name) ∷ all_servers) c =
    elim (Bool-cases (has_expired now name c.server_heartbeat)) [
      | inl e ↦
          rw (check_heartbeats, e)
            (entry_failed now name c (handle_server_failure (rand (length all_servers)) name c) _
              (failure-beats (rand (length all_servers)) name c)
              (check_heartbeats-Heard rand now all_servers))
      | inr e ↦
          rw (check_heartbeats, e)
            (entry_kept now fd name c (check_heartbeats rand now all_servers c) e
              (check_heartbeats-Heard rand now all_servers c))
    ]

-- After the check no server is left whose last heartbeat is older than the threshold.
pub check_heartbeats-AllHeard :
    (rand : ℕ → List ℕ) (now : ℕ) (all_servers rest : Connections) (c d : Coordinator)
    → check_heartbeats rand now all_servers c ≡ ok (rest, d)
    → AllHeard now d.server_heartbeat rest
check_heartbeats-AllHeard rand now all_servers rest c d e =
    (check_heartbeats-Heard rand now all_servers c rest d e).0
