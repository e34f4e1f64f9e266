-- ===== src/Tpc/Queue.antt =====
-- `process_tpc_queue` of backend/src/utils.cpp: how far one call comes.
use penn_mail_and_penn_drive.Base.{
  ℕ, suc, ◌+◌, ◌≡◌, refl, ap, sym, ◌∙◌, Option, none, some, Bool, true, false, arith, nat_eq,
  Bool-cases, list_beq_iff, list_eq, inl, inr, if◌then◌else◌, ◌=?◌, beq_refl, Outcome, ok,
  >>=-result, ok-injective, blocked-ne-ok, blocked, stopped, ◌>>=◌,
}
use penn_mail_and_penn_drive.Base.Maps.{lookup, lookup-erase}
use penn_mail_and_penn_drive.Base.Text.{Text}
use penn_mail_and_penn_drive.Server.{Store, Transaction, Tpc, Server, Env}
use penn_mail_and_penn_drive.Store.{execute_command}
use penn_mail_and_penn_drive.Command.{get_tablet}
use penn_mail_and_penn_drive.Wal.{log_message}
use penn_mail_and_penn_drive.Tpc.{
  prepare, commit, abort, send_reply, respond, advance, commit_next, abort_next, set_lock,
  queue_loop, process_tpc_queue, ensure_loaded, unlock_if_there, command_row, command_col,
}

pub send_reply-tpc :
    (fd : Option ℕ) (reply : Text) (t : ℕ) (s : Server) → (send_reply fd reply t s).tpc ≡ s.tpc
unfolding send_reply
send_reply-tpc fd reply t s = ground arith

pub respond-tpc : (b : Bool) (hash : Text) (s : Server) → (respond b hash s).tpc ≡ s.tpc
unfolding respond send_reply
respond-tpc b hash s = ground arith

-- The transaction that is next.
abbrev pub head : Tpc → Option Transaction
head t = lookup (t.last_seq + 1) t.tpc_queue

pub head-advance : (t : Tpc) → head (advance t) ≡ none
unfolding advance
head-advance t =
    lookup-erase (t.last_seq + 1 + 1) (t.last_seq + 1 + 1) t.tpc_queue
    ∙ rw (beq_refl (t.last_seq + 1 + 1))

module _ (env : Env) (cur : Transaction) (s : Server) where
  abbrev pub Advanced : Server → Type 0
  Advanced r = r.tpc ≡ advance s.tpc

  answered-Advanced :
      (success : Bool) (done : Store) (r : Server)
      → ok (respond success cur.hash (record s { store = done; tpc = advance s.tpc })) ≡ ok r
      → Advanced r
  answered-Advanced success done r h =
      ap (λ (z : Server). z.tpc) (sym (ok-injective h))
      ∙ respond-tpc success cur.hash (record s { store = done; tpc = advance s.tpc })

  pub commit_next-Advanced : (r : Server) → commit_next env cur s ≡ ok r → Advanced r
  unfolding commit_next
  commit_next-Advanced r h =
      >>=-result Advanced (ensure_loaded env tablet s.store) _
        (λ loaded q.
          >>=-result Advanced
            (execute_command cur.command
              (log_message cur.command (s.tpc.last_seq + 1 + 1) tablet loaded))
            _ (answered-Advanced true) q)
        r h
    where
      tablet : ℕ
      tablet = get_tablet (command_row cur.command)

  pub abort_next-Advanced : (r : Server) → abort_next cur s ≡ ok r → Advanced r
  unfolding abort_next
  abort_next-Advanced r h =
      >>=-result Advanced
        (unlock_if_there (command_row cur.command, command_col cur.command) s.store) _
        (answered-Advanced false) r h

-- A queue without a transaction that is next.
pub queue_loop-none :
    (n : ℕ) (env : Env) (s : Server)
    → head s.tpc ≡ none
    → queue_loop (suc n) env s ≡ ok (set_lock false s)
unfolding queue_loop
queue_loop-none n env s h = rw (h, queue_loop)

-- What one call does: at most one transaction, and `tpc_queue_lock` is kept where the next one is
-- not decided.
module _ (env : Env) where
  unfoldable pub one_step : Option Transaction → Server → Outcome Server
  one_step none s = ok (set_lock false s)
  one_step (some cur) s =
      if cur.status =? prepare
      then ok (set_lock true s)
      else if cur.status =? commit
      then commit_next env cur (set_lock true s) >>= (λ r. ok (set_lock false r))
      else if cur.status =? abort
      then abort_next cur (set_lock true s) >>= (λ r. ok (set_lock false r))
      else blocked

  rounds-end :
      (n : ℕ) (m : Outcome Server) (s : Server)
      → ((r : Server) → m ≡ ok r → r.tpc ≡ advance s.tpc)
      → (m >>= queue_loop (suc n) env) ≡ (m >>= (λ r. ok (set_lock false r)))
  rounds-end n (ok r) s h = queue_loop-none n env r (ap head (h r refl) ∙ head-advance s.tpc)
  rounds-end n blocked s h = refl
  rounds-end n stopped s h = refl

  loop-one_step :
      (n : ℕ) (s : Server)
      → queue_loop (suc (suc n)) env (set_lock true s) ≡ one_step (head s.tpc) s
  unfolding queue_loop one_step
  loop-one_step n s = go (head s.tpc) refl
    where
      go :
          (o : Option Transaction)
          → head s.tpc ≡ o
          → queue_loop (suc (suc n)) env (set_lock true s) ≡ one_step o s
      go none e = rw (e, queue_loop, one_step)
      go (some cur) e = rw (
        e,
        queue_loop,
        one_step,
        rounds-end n (commit_next env cur (set_lock true s)) (set_lock true s)
            (commit_next-Advanced env cur (set_lock true s)),
        rounds-end n (abort_next cur (set_lock true s)) (set_lock true s)
            (abort_next-Advanced env cur (set_lock true s)),
      )

  free_run :
      (s : Server)
      → s.tpc.queue_locked ≡ false
      → process_tpc_queue env s ≡ queue_loop 2 env (set_lock true s)
  unfolding process_tpc_queue
  free_run s free = ap (λ b. if b then blocked else queue_loop 2 env (set_lock true s)) free

  -- One call of `process_tpc_queue` with `tpc_queue_lock` free does `one_step`, and more rounds
  -- of its loop would change nothing.
  pub process_tpc_queue-one_step :
      (n : ℕ) (s : Server)
      → s.tpc.queue_locked ≡ false
      → (process_tpc_queue env s ≡ one_step (head s.tpc) s)
        × (queue_loop (suc (suc n)) env (set_lock true s) ≡ process_tpc_queue env s)
  process_tpc_queue-one_step n s free = (
    free_run s free ∙ loop-one_step 0 s,
    loop-one_step n s ∙ sym (loop-one_step 0 s) ∙ sym (free_run s free),
  )

  locked_run : (s : Server) → s.tpc.queue_locked ≡ true → process_tpc_queue env s ≡ blocked
  unfolding process_tpc_queue
  locked_run s held = ap (λ b. if b then blocked else queue_loop 2 env (set_lock true s)) held

pub one_step-prepared :
    (env : Env) (cur : Transaction) (s : Server)
    → cur.status ≡ prepare
    → one_step env (some cur) s ≡ ok (set_lock true s)
unfolding one_step
one_step-prepared env cur s prepared = rw (prepared)

-- How a call that ends leaves the server.
pub data Progress (s r : Server) : Type 0 where
  idle : head s.tpc ≡ none → r ≡ set_lock false s → Progress s r
  waiting :
      (cur : Transaction)
      → head s.tpc ≡ some cur
      → cur.status ≡ prepare
      → r ≡ set_lock true s
      → Progress s r
  moved : r.tpc ≡ record (advance s.tpc) { queue_locked = false } → Progress s r

module _ (env : Env) where
  finish :
      (s : Server) (m : Outcome Server) (r : Server)
      → ((q : Server) → m ≡ ok q → q.tpc ≡ advance (set_lock true s).tpc)
      → (m >>= (λ q. ok (set_lock false q))) ≡ ok r
      → Progress s r
  unfolding advance
  finish s (ok q) r p h = moved (
      ap (λ (z : Server). z.tpc) (sym (ok-injective h))
      ∙ ap (λ (t : Tpc). record t { queue_locked = false }) (p q refl))
  finish s blocked r p h = cc
  finish s stopped r p h = cc

  step-Progress :
      (s r : Server) (o : Option Transaction)
      → head s.tpc ≡ o
      → one_step env o s ≡ ok r
      → Progress s r
  unfolding one_step
  step-Progress s r none e h = idle e (sym (ok-injective h))
  step-Progress s r (some cur) e h =
      go (cur.status =? prepare) (cur.status =? commit) (cur.status =? abort) refl h
    where
      go :
          (b c d : Bool)
          → (cur.status =? prepare) ≡ b
          → (if b
              then ok (set_lock true s)
              else if c
              then commit_next env cur (set_lock true s) >>= (λ q. ok (set_lock false q))
              else if d
              then abort_next cur (set_lock true s) >>= (λ q. ok (set_lock false q))
              else blocked)
            ≡ ok r
          → Progress s r
      go true c d p g = waiting cur e ((list_beq_iff cur.status prepare).0 p) (sym (ok-injective g))
      go false true d p g =
          finish s (commit_next env cur (set_lock true s)) r
            (commit_next-Advanced env cur (set_lock true s)) g
      go false false true p g =
          finish s (abort_next cur (set_lock true s)) r
            (abort_next-Advanced env cur (set_lock true s)) g
      go false false false p g = cc

  -- A call of `process_tpc_queue` that ends leaves the server as `Progress` says: nothing is
  -- next, or the next one is only prepared and the lock is kept, or one transaction has been
  -- passed, and the one behind it has been erased.
  pub process_tpc_queue-Progress : (s r : Server) → process_tpc_queue env s ≡ ok r → Progress s r
  process_tpc_queue-Progress s r h = elim (Bool-cases s.tpc.queue_locked) [
    | inl held ↦ blocked-ne-ok (sym (locked_run env s held) ∙ h)
    | inr free ↦
        step-Progress s r (head s.tpc) refl (sym (free_run env s free ∙ loop-one_step env 0 s) ∙ h)
  ]
