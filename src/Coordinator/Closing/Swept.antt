-- ===== src/Coordinator/Closing/Swept.antt =====
-- After a sweep of the coordinator's connections (backend/coordinator.cpp).
use penn_mail_and_penn_drive.Base.{
  ℕ, ◌≡◌, refl, subst, Bool, true, Bool-cases, inl, inr, List, [], ◌∷◌, length, All, nat_eq,
  Outcome, ok, blocked, stopped, ◌>>=◌, ok-injective,
}
use penn_mail_and_penn_drive.Coordinator.{Name, Coordinator, handle_server_failure}
use penn_mail_and_penn_drive.Coordinator.Storage.{Connections}
use penn_mail_and_penn_drive.Coordinator.Closing.{open_comm, fail_closed, sweep}

-- Every connection of the list is open.
abbrev pub AllOpen : (ℕ → Bool) → Connections → Type 0
AllOpen is_open = All (λ (fd, name). is_open fd ≡ true)

abbrev LeavesOpen : (ℕ → Bool) → Outcome (Connections × Coordinator) → Type 0
LeavesOpen is_open o = (l : Connections) (d : Coordinator) → o ≡ ok (l, d) → AllOpen is_open l

nobody_left : (is_open : ℕ → Bool) (c : Coordinator) → LeavesOpen is_open (ok ([], c))
nobody_left is_open c l d e =
    subst (λ (q : Connections × Coordinator). AllOpen is_open (q.0)) (ok-injective e) tt

entry_kept :
    (is_open : ℕ → Bool) (fd : ℕ) (name : Name) (o : Outcome (Connections × Coordinator))
    → is_open fd ≡ true
    → LeavesOpen is_open o
    → LeavesOpen is_open (o >>= λ (rest, d). ok ((fd, name) ∷ rest, d))
entry_kept is_open fd name (ok (rest, z)) h k l d e =
    subst (λ (q : Connections × Coordinator). AllOpen is_open (q.0)) (ok-injective e)
      (h, k rest z refl)
entry_kept is_open fd name blocked h k l d e = cc
entry_kept is_open fd name stopped h k l d e = cc

entry_failed :
    (is_open : ℕ → Bool) (o : Outcome Coordinator)
    (f : Coordinator → Outcome (Connections × Coordinator))
    → ((z : Coordinator) → LeavesOpen is_open (f z))
    → LeavesOpen is_open (o >>= f)
entry_failed is_open (ok z) f k l d e = k z l d e
entry_failed is_open blocked f k l d e = cc
entry_failed is_open stopped f k l d e = cc

fail_closed-LeavesOpen :
    (is_open : ℕ → Bool) (rand : ℕ → List ℕ) (all_servers : Connections) (c : Coordinator)
    → LeavesOpen is_open (fail_closed is_open rand all_servers c)
unfolding fail_closed
fail_closed-LeavesOpen is_open rand [] c = nobody_left is_open c
fail_closed-LeavesOpen is_open rand ((fd, name) ∷ all_servers) c = elim (Bool-cases (is_open fd)) [
  | inl e ↦
      rw (fail_closed, e)
        (entry_kept is_open fd name (fail_closed is_open rand all_servers c) e
          (fail_closed-LeavesOpen is_open rand all_servers c))
  | inr e ↦
      rw (fail_closed, e)
        (entry_failed is_open (handle_server_failure (rand (length all_servers)) name c) _
          (fail_closed-LeavesOpen is_open rand all_servers))
]

-- After a sweep every heartbeat connection that is left is open.
pub sweep-AllOpen :
    (is_open : ℕ → Bool) (rand : ℕ → List ℕ) (all_servers l : Connections) (c d : Coordinator)
    → sweep is_open rand (all_servers, c) ≡ ok (l, d)
    → AllOpen is_open l
unfolding sweep
sweep-AllOpen is_open rand all_servers l c d e =
    fail_closed-LeavesOpen is_open rand all_servers
      (record c { comm_fd = open_comm is_open c.comm_fd }) l d e
