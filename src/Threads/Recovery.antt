-- ===== src/Threads/Recovery.antt =====
-- What the end of a primary's recovery leaves.
use penn_mail_and_penn_drive.Base.{
  ℕ, ◌+◌, ◌≡◌, refl, sym, ap, ◌∙◌, subst, ◌≢◌, true, false, none, some, [], ◌∷◌, arith, nat_eq,
  list_eq, pair_eq, All, ok, bind_inverse, ok-injective,
}
use penn_mail_and_penn_drive.Base.Maps.{Map, lookup, insert_ordered, lookup-insert_ordered}
use penn_mail_and_penn_drive.Server.{Transaction, Tpc, Server, Env}
use penn_mail_and_penn_drive.Tpc.{primary_abort_transaction, process_tpc_queue}
use penn_mail_and_penn_drive.Tpc.Queue.{head}
use penn_mail_and_penn_drive.Tpc.Aborts.{
  idle_run, is_done, StaysEmpty, StaysEmpty-refl, StaysEmpty-trans, abort-StaysEmpty,
}
use penn_mail_and_penn_drive.Threads.{abort_pending, finish_recovery}

abbrev pub AllDone : Map ℕ Transaction → Tpc → Type 0
AllDone pending t = All (λ (seq, _). is_done seq t ≡ true) pending

abort_pending-StaysEmpty :
    (env : Env) (pending : Map ℕ Transaction) (s r : Server)
    → s.tpc.tpc_queue ≡ []
    → abort_pending env pending s ≡ ok r
    → StaysEmpty s.tpc r.tpc × AllDone pending r.tpc
unfolding abort_pending
abort_pending-StaysEmpty env [] s r e h =
    subst (λ (z : Server). StaysEmpty s.tpc z.tpc × Unit) (ok-injective h)
      (StaysEmpty-refl s.tpc e, tt)
abort_pending-StaysEmpty env ((seq, t) ∷ pending) s r e h =
    let (z, first, later) =
      bind_inverse (primary_abort_transaction env seq t.hash s) (abort_pending env pending) r h in
    let (one, done) = abort-StaysEmpty env seq t.hash s z e first in
    let (more, all) = abort_pending-StaysEmpty env pending z r one.empty later in
    (StaysEmpty-trans one more, (more.done seq done, all))

-- If a primary's recovery ends, which starts with an empty queue, then every transaction that the
-- log left pending is done, transactions may start, and no number was passed.
pub finish_recovery-AllDone :
    (env : Env) (s r : Server)
    → s.tpc.tpc_queue ≡ []
    → finish_recovery env s ≡ ok r
    → AllDone s.tpc.tpc_pending r.tpc
      × (r.tpc.primary_recovering ≡ false)
      × (r.tpc.tpc_queue ≡ [])
      × (r.tpc.last_seq ≡ s.tpc.last_seq)
unfolding finish_recovery
finish_recovery-AllDone env s r e h =
    let (z, run, last) = bind_inverse (abort_pending env s.tpc.tpc_pending s) _ r h in
    let (stays, all) = abort_pending-StaysEmpty env s.tpc.tpc_pending s z e run in
    subst
      (λ (q : Server).
        AllDone s.tpc.tpc_pending q.tpc
        × (q.tpc.primary_recovering ≡ false)
        × (q.tpc.tpc_queue ≡ [])
        × (q.tpc.last_seq ≡ s.tpc.last_seq))
      (ok-injective last) (all, refl, stays.empty, stays.last)

-- The transaction `t` in the queue under the number `seq`, and the lock of the queue free.
abbrev pub enqueue : ℕ → Transaction → Tpc → Tpc
enqueue seq t u = record u { tpc_queue = insert_ordered seq t u.tpc_queue; queue_locked = false }

skipped :
    (seq : ℕ) (t : Transaction) (u : Tpc)
    → u.tpc_queue ≡ []
    → seq ≢ u.last_seq + 1
    → head (enqueue seq t u) ≡ none
skipped seq t u e n =
    lookup-insert_ordered seq (u.last_seq + 1) t u.tpc_queue ∙ rw e (unfold lookup in ground arith)

-- After a primary's recovery, which starts with an empty queue, a transaction whose number is not
-- the one behind the last that the log decided is not taken from the queue, whatever its status:
-- the numbers of the pending transactions were aborted, but not passed.
pub recovery_gap :
    (env env' : Env) (s r q : Server) (seq : ℕ) (t : Transaction)
    → s.tpc.tpc_queue ≡ []
    → finish_recovery env s ≡ ok r
    → seq ≢ s.tpc.last_seq + 1
    → process_tpc_queue env' (record r { tpc = enqueue seq t r.tpc }) ≡ ok q
    → (q.tpc.last_seq ≡ s.tpc.last_seq) × (lookup seq q.tpc.tpc_queue ≡ some t)
recovery_gap env env' s r q seq t e h n run =
    let (all, ready, empty, last) = finish_recovery-AllDone env s r e h in
    let same =
      idle_run env' (record r { tpc = enqueue seq t r.tpc }) q
        (skipped seq t r.tpc empty (subst (λ m. seq ≢ m + 1) (sym last) n)) run in
    (
      ap (λ (u : Tpc). u.last_seq) same ∙ last,
      ap (λ (u : Tpc). lookup seq u.tpc_queue) same
          ∙ lookup-insert_ordered seq seq t r.tpc.tpc_queue
          ∙ ground arith,
    )
