-- ===== src/Handler/Decisions.antt =====
-- Decisions of `primary_commit_transaction`, `primary_abort_transaction` and of a replica's
-- `handle_message`, and a server whose next transaction is only prepared.
use penn_mail_and_penn_drive.Base.{
  ℕ, ◌≡◌, subst, refl, ap, ◌∙◌, some, Bool, true, false, arith, nat_eq, list_eq, inl, inr, ◌⊎◌,
  if◌then◌else◌, ◌||◌, leb, beq_refl, Outcome, ok, ok-injective, blocked-ne-ok, blocked, ◌>>=◌,
}
use penn_mail_and_penn_drive.Base.Maps.{lookup, contains, contains-add}
use penn_mail_and_penn_drive.Base.Text.{Text}
use penn_mail_and_penn_drive.Server.{Transaction, Tpc, Server, Env}
use penn_mail_and_penn_drive.Tpc.{
  prepare, commit, abort, already_processed, is_decided, decide, set_status, set_lock,
  write_to_tpc_log, primary_commit_transaction, primary_abort_transaction, process_tpc_queue,
}
use penn_mail_and_penn_drive.Tpc.Queue.{
  head, process_tpc_queue-one_step, one_step, one_step-prepared,
}
use penn_mail_and_penn_drive.Handler.{handle_decision, handle_prepare, handle_vote}
use penn_mail_and_penn_drive.Handler.Growth.{process-Grows}

-- The server knows that the transaction is decided.
abbrev pub known : ℕ → Tpc → Bool
known seq t =
    leb seq t.last_seq || is_decided (lookup seq t.tpc_queue) || contains seq t.queued_transactions

abbrev pub Decided : ℕ → Server → Type 0
Decided seq s = known seq s.tpc ≡ true

-- A decision has no effect: the call returns at once, or waits for `tpc_queue_lock`.
abbrev pub Ignores : Server → Outcome Server → Type 0
Ignores s m = (m ≡ ok s) ⊎ (m ≡ blocked)

module _ (s : Server) (seq : ℕ) (d : Decided seq s) where
  processed :
      (b : Bool)
      → s.tpc.queue_locked ≡ b
      → already_processed seq s.tpc ≡ (if b then blocked else ok true)
  unfolding already_processed
  processed true e = ap (λ b. if b then blocked else ok (known seq s.tpc)) e
  processed false e = ap (λ b. if b then blocked else ok (known seq s.tpc)) e ∙ ap ok d

  guard :
      (b : Bool) (m : Outcome Server)
      → s.tpc.queue_locked ≡ b
      → Ignores s (already_processed seq s.tpc >>= λ done. if done then ok s else m)
  guard true m e = inr (ap (λ o. o >>= (λ done. if done then ok s else m)) (processed true e))
  guard false m e = inl (ap (λ o. o >>= (λ done. if done then ok s else m)) (processed false e))

  pub commit-Ignores :
      (env : Env) (hash : Text) → Ignores s (primary_commit_transaction env seq hash s)
  unfolding primary_commit_transaction
  commit-Ignores env hash = guard s.tpc.queue_locked (decide commit env seq hash s) refl

  pub abort-Ignores :
      (env : Env) (hash : Text) → Ignores s (primary_abort_transaction env seq hash s)
  unfolding primary_abort_transaction
  abort-Ignores env hash = guard s.tpc.queue_locked (decide abort env seq hash s) refl

  pub decision-Ignores :
      (env : Env) (message status hash : Text)
      → Ignores s (handle_decision env message status hash seq s)
  unfolding handle_decision
  decision-Ignores env message status hash = guard s.tpc.queue_locked _ refl

  pub vote-Ignores :
      (env : Env) (yes' : Bool) (hash ip_port : Text)
      → Ignores s (handle_vote env yes' seq hash ip_port s)
  unfolding handle_vote
  vote-Ignores env yes' hash ip_port = guard s.tpc.queue_locked _ refl

noted : (seq : ℕ) (t : Tpc) → contains seq t.queued_transactions ≡ true → known seq t ≡ true
noted seq t h = ground (arith, h)

decide-Decided :
    (status : Text) (env : Env) (seq : ℕ) (hash : Text) (s r : Server)
    → decide status env seq hash s ≡ ok r
    → Decided seq r
unfolding decide set_status write_to_tpc_log
decide-Decided status env seq hash s r h = noted seq r.tpc (
    (process-Grows env _ r h).decided seq
      (contains-add seq seq s.tpc.queued_transactions ∙ rw (beq_refl seq)))

guarded-Decided :
    (seq : ℕ) (s r : Server) (m : Outcome Server)
    → (m ≡ ok r → Decided seq r)
    → (already_processed seq s.tpc >>= λ done. if done then ok s else m) ≡ ok r
    → Decided seq r
unfolding already_processed
guarded-Decided seq s r m p h = go s.tpc.queue_locked (known seq s.tpc) refl h
  where
    go :
        (b c : Bool)
        → known seq s.tpc ≡ c
        → ((if b then blocked else ok c) >>= λ done. if done then ok s else m) ≡ ok r
        → Decided seq r
    go true c e g = blocked-ne-ok g
    go false true e g = subst (Decided seq) (ok-injective g) e
    go false false e g = p g

pub commit-Decided :
    (env : Env) (seq : ℕ) (hash : Text) (s r : Server)
    → primary_commit_transaction env seq hash s ≡ ok r
    → Decided seq r
unfolding primary_commit_transaction
commit-Decided env seq hash s r h =
    guarded-Decided seq s r (decide commit env seq hash s) (decide-Decided commit env seq hash s r)
      h

pub abort-Decided :
    (env : Env) (seq : ℕ) (hash : Text) (s r : Server)
    → primary_abort_transaction env seq hash s ≡ ok r
    → Decided seq r
unfolding primary_abort_transaction
abort-Decided env seq hash s r h =
    guarded-Decided seq s r (decide abort env seq hash s) (decide-Decided abort env seq hash s r) h

-- Once the primary's call that commits or aborts a transaction has ended, no further call that
-- commits or aborts it, no further vote on it and no decision received for it changes the server:
-- each returns at once or waits for `tpc_queue_lock`.
pub decision_once :
    (env : Env) (seq : ℕ) (hash : Text) (s r : Server)
    → (primary_commit_transaction env seq hash s ≡ ok r)
      ⊎ (primary_abort_transaction env seq hash s ≡ ok r)
    → (env' : Env) (hash' ip_port message status : Text) (yes' : Bool)
    → Ignores r (primary_commit_transaction env' seq hash' r)
      × Ignores r (primary_abort_transaction env' seq hash' r)
      × Ignores r (handle_vote env' yes' seq hash' ip_port r)
      × Ignores r (handle_decision env' message status hash' seq r)
decision_once env seq hash s r h env' hash' ip_port message status yes' = (
  commit-Ignores r seq d env' hash',
  abort-Ignores r seq d env' hash',
  vote-Ignores r seq d env' yes' hash' ip_port,
  decision-Ignores r seq d env' message status hash',
)
  where
    d : Decided seq r
    d = elim h [
      | inl g ↦ commit-Decided env seq hash s r g
      | inr g ↦ abort-Decided env seq hash s r g
    ]

-- When the next transaction is still only prepared and `tpc_queue_lock` is free, a call of
-- `process_tpc_queue` returns and keeps the lock. From then on each of these calls waits for ever,
-- whatever its arguments are: `process_tpc_queue`, the commit and the abort of the primary,
-- a vote, a decision from the primary, and a prepare message.
pub prepared_head_blocks :
    (env env' : Env) (cur : Transaction) (s : Server) (seq : ℕ) (hash ip_port status message : Text)
    (yes' : Bool)
    → s.tpc.queue_locked ≡ false
    → head s.tpc ≡ some cur
    → cur.status ≡ prepare
    → (process_tpc_queue env s ≡ ok (set_lock true s))
      × (process_tpc_queue env' (set_lock true s) ≡ blocked)
      × (primary_commit_transaction env' seq hash (set_lock true s) ≡ blocked)
      × (primary_abort_transaction env' seq hash (set_lock true s) ≡ blocked)
      × (handle_vote env' yes' seq hash ip_port (set_lock true s) ≡ blocked)
      × (handle_decision env' message status hash seq (set_lock true s) ≡ blocked)
      × (handle_prepare seq hash message (set_lock true s) ≡ blocked)
unfolding process_tpc_queue primary_commit_transaction primary_abort_transaction handle_vote
    handle_decision handle_prepare already_processed one_step
prepared_head_blocks env env' cur s seq hash ip_port status message yes' free next prepared = (
  (process_tpc_queue-one_step env 0 s free).0
      ∙ ap (λ o. one_step env o s) next
      ∙ one_step-prepared env cur s prepared,
  refl,
  refl,
  refl,
  refl,
  refl,
  refl,
)
