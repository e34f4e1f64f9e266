-- ===== src/Tpc/Aborts.antt =====
-- Transactions that are aborted while none is in the queue, as at the end of a primary's recovery.
use penn_mail_and_penn_drive.Base.{
  ℕ, ◌+◌, ◌≡◌, refl, sym, ap, ◌∙◌, subst, Bool, true, false, ◌||◌, none, [], ◌∷◌, arith, leb,
  if◌then◌else◌, nat_eq, list_eq, pair_eq, beq_refl, Outcome, ok, blocked, ◌>>=◌, ok-injective,
}
use penn_mail_and_penn_drive.Base.Text.{Text}
use penn_mail_and_penn_drive.Base.Maps.{Map, lookup, contains, contains-add}
use penn_mail_and_penn_drive.Server.{Transaction, Tpc, Server, Env}
use penn_mail_and_penn_drive.Tpc.{
  abort, with_status, set_status, write_to_tpc_log, already_processed, is_decided, decide,
  queue_loop, process_tpc_queue, primary_abort_transaction, set_lock,
}
use penn_mail_and_penn_drive.Tpc.Queue.{head, queue_loop-none}

-- The number is behind the last one, or its decision is noted.
abbrev pub is_done : ℕ → Tpc → Bool
is_done seq t = leb seq t.last_seq || contains seq t.queued_transactions

-- The queue is still empty, no number was passed, and what was done is done.
pub record StaysEmpty (t u : Tpc) : Type 0 where
  pub empty : u.tpc_queue ≡ []
  pub last : u.last_seq ≡ t.last_seq
  pub done : (n : ℕ) → is_done n t ≡ true → is_done n u ≡ true

pub StaysEmpty-refl : (t : Tpc) → t.tpc_queue ≡ [] → StaysEmpty t t
StaysEmpty-refl t e = record { empty = e; last = refl; done = λ n h. h }

pub StaysEmpty-trans : {t u v : Tpc} → StaysEmpty t u → StaysEmpty u v → StaysEmpty t v
StaysEmpty-trans g h = record {
  empty = h.empty;
  last = h.last ∙ g.last;
  done = λ n e. h.done n (g.done n e);
}

no_status :
    (status : Text) (seq : ℕ) (q : Map ℕ Transaction)
    → q ≡ []
    → with_status status (lookup seq q) seq q ≡ []
no_status status seq [] e = unfold lookup in refl
no_status status seq (x ∷ q) e = cc

pub no_head : (t : Tpc) → t.tpc_queue ≡ [] → head t ≡ none
no_head t e = ap (lookup (t.last_seq + 1)) e ∙ (unfold lookup in refl)

-- Without a next transaction the call does nothing, if it ends.
pub idle_run :
    (env : Env) (s r : Server)
    → head s.tpc ≡ none
    → process_tpc_queue env s ≡ ok r
    → r.tpc ≡ record s.tpc { queue_locked = false }
unfolding process_tpc_queue
idle_run env s r e = at_lock s.tpc.queue_locked
  where
    at_lock :
        (b : Bool)
        → (if b then blocked else queue_loop 2 env (set_lock true s)) ≡ ok r
        → r.tpc ≡ record s.tpc { queue_locked = false }
    at_lock true h = cc
    at_lock false h =
        ap (λ (z : Server). z.tpc)
          (ok-injective (sym h ∙ queue_loop-none 1 env (set_lock true s) e))

empty_run :
    (env : Env) (s r : Server)
    → s.tpc.tpc_queue ≡ []
    → process_tpc_queue env s ≡ ok r
    → r.tpc ≡ record s.tpc { queue_locked = false }
empty_run env s r e h = idle_run env s r (no_head s.tpc e) h

decide-StaysEmpty :
    (status : Text) (env : Env) (seq : ℕ) (hash : Text) (s r : Server)
    → s.tpc.tpc_queue ≡ []
    → decide status env seq hash s ≡ ok r
    → StaysEmpty s.tpc r.tpc × (is_done seq r.tpc ≡ true)
unfolding decide set_status write_to_tpc_log
decide-StaysEmpty status env seq hash s r e h =
    let noted = no_status status seq s.tpc.tpc_queue e in
    let run = empty_run env _ r noted h in
    let more = λ (n : ℕ). contains-add seq n s.tpc.queued_transactions in
    (
      record {
        empty = ap (λ (t : Tpc). t.tpc_queue) run ∙ noted;
        last = ap (λ (t : Tpc). t.last_seq) run;
        done = λ n d. subst (λ (t : Tpc). is_done n t ≡ true) (sym run) (ground (arith, more n, d));
      },
      subst (λ (t : Tpc). is_done seq t ≡ true) (sym run) (ground (arith, more seq, beq_refl seq)),
    )

is_known : ℕ → Map ℕ Transaction → Tpc → Bool
is_known seq q t =
    leb seq t.last_seq || is_decided (lookup seq q) || contains seq t.queued_transactions

known_done :
    (seq : ℕ) (q : Map ℕ Transaction) (t : Tpc)
    → q ≡ []
    → is_known seq q t ≡ true
    → is_done seq t ≡ true
unfolding is_known
known_done seq [] t e h = unfold lookup in ground arith
known_done seq (x ∷ q) t e h = cc

guarded-StaysEmpty :
    (seq : ℕ) (s r : Server) (m : Outcome Server)
    → s.tpc.tpc_queue ≡ []
    → (m ≡ ok r → StaysEmpty s.tpc r.tpc × (is_done seq r.tpc ≡ true))
    → (already_processed seq s.tpc >>= λ done. if done then ok s else m) ≡ ok r
    → StaysEmpty s.tpc r.tpc × (is_done seq r.tpc ≡ true)
unfolding already_processed is_known
guarded-StaysEmpty seq s r m e p = go s.tpc.queue_locked (is_known seq s.tpc.tpc_queue s.tpc) refl
  where
    go :
        (b c : Bool)
        → is_known seq s.tpc.tpc_queue s.tpc ≡ c
        → ((if b then blocked else ok c) >>= λ done. if done then ok s else m) ≡ ok r
        → StaysEmpty s.tpc r.tpc × (is_done seq r.tpc ≡ true)
    go true c q h = cc
    go false true q h =
        subst (λ (z : Server). StaysEmpty s.tpc z.tpc × (is_done seq z.tpc ≡ true)) (ok-injective h)
          (StaysEmpty-refl s.tpc e, known_done seq s.tpc.tpc_queue s.tpc e q)
    go false false q h = p h

-- One abort: the transaction is done, and no number was passed.
pub abort-StaysEmpty :
    (env : Env) (seq : ℕ) (hash : Text) (s r : Server)
    → s.tpc.tpc_queue ≡ []
    → primary_abort_transaction env seq hash s ≡ ok r
    → StaysEmpty s.tpc r.tpc × (is_done seq r.tpc ≡ true)
unfolding primary_abort_transaction
abort-StaysEmpty env seq hash s r e =
    guarded-StaysEmpty seq s r (decide abort env seq hash s) e
      (decide-StaysEmpty abort env seq hash s r e)
