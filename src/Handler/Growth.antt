-- ===== src/Handler/Growth.antt =====
-- The numbers of transactions and the set of those decided, in backend/src/utils.cpp.
use penn_mail_and_penn_drive.Base.{
  ℕ, ◌≡◌, subst, ◌≤◌, refl, ap, sym, ◌∙◌, List, Option, none, some, Bool, true, false, arith,
  nat_eq, list_eq, if◌then◌else◌, Outcome, ok, >>=-result, ok-injective, blocked, stopped, ◌>>=◌,
}
use penn_mail_and_penn_drive.Base.Maps.{contains, add, contains-add}
use penn_mail_and_penn_drive.Base.Text.{Text}
use penn_mail_and_penn_drive.Server.{Tpc, Server, Env}
use penn_mail_and_penn_drive.Tpc.{
  commit, abort, already_processed, advance, decide, set_status, write_to_tpc_log,
  primary_commit_transaction, primary_abort_transaction, process_tpc_queue,
}
use penn_mail_and_penn_drive.Tpc.Queue.{Progress, idle, waiting, moved, process_tpc_queue-Progress}
use penn_mail_and_penn_drive.Handler.{handle_decision}

-- The numbers do not fall, and the set of decided transactions does not shrink.
pub record Grows (t u : Tpc) : Type 0 where
  pub seqs : t.tpc_seq ≤ u.tpc_seq
  pub lasts : t.last_seq ≤ u.last_seq
  pub decided :
      (n : ℕ) → contains n t.queued_transactions ≡ true → contains n u.queued_transactions ≡ true

pub Grows-refl : (t : Tpc) → Grows t t
Grows-refl t = record { seqs = omega arith; lasts = omega arith; decided = λ n h. h }

pub Grows-trans : {t u v : Tpc} → Grows t u → Grows u v → Grows t v
Grows-trans {t} {u} {v} g h =
    let a = g.seqs in
    let b = h.seqs in
    let c = g.lasts in
    let d = h.lasts in
    record { seqs = omega arith; lasts = omega arith; decided = λ n e. h.decided n (g.decided n e) }

pub Grows-≡ : {t u : Tpc} → t ≡ u → Grows t u
Grows-≡ {t} e = subst (Grows t) e (Grows-refl t)

-- A change that leaves the three parts alone.
pub same :
    (t u : Tpc)
    → u.tpc_seq ≡ t.tpc_seq
    → u.last_seq ≡ t.last_seq
    → u.queued_transactions ≡ t.queued_transactions
    → Grows t u
same t u a b c = record {
  seqs = omega arith;
  lasts = omega arith;
  decided = λ n h. ap (contains n) c ∙ h;
}

Progress-Grows : (s r : Server) → Progress s r → Grows s.tpc r.tpc
unfolding advance
Progress-Grows s r (idle _ e) =
    Grows-trans (same s.tpc _ refl refl refl) (Grows-≡ (ap (λ (z : Server). z.tpc) (sym e)))
Progress-Grows s r (waiting cur _ _ e) =
    Grows-trans (same s.tpc _ refl refl refl) (Grows-≡ (ap (λ (z : Server). z.tpc) (sym e)))
Progress-Grows s r (moved e) =
    Grows-trans (record { seqs = omega arith; lasts = omega arith; decided = λ n h. h })
      (Grows-≡ (sym e))

pub process-Grows : (env : Env) (s r : Server) → process_tpc_queue env s ≡ ok r → Grows s.tpc r.tpc
process-Grows env s r h = Progress-Grows s r (process_tpc_queue-Progress env s r h)

pub added : (seq n : ℕ) (l : List ℕ) → contains n l ≡ true → contains n (add seq l) ≡ true
added seq n l h = contains-add seq n l ∙ ground (arith, h)

decide-Grows :
    (status : Text) (env : Env) (seq : ℕ) (hash : Text) (s r : Server)
    → decide status env seq hash s ≡ ok r
    → Grows s.tpc r.tpc
unfolding decide set_status write_to_tpc_log
decide-Grows status env seq hash s r h =
    Grows-trans
      (record {
        seqs = omega arith;
        lasts = omega arith;
        decided = λ n. added seq n s.tpc.queued_transactions;
      })
      (process-Grows env _ r h)

-- A step that is left out where the transaction is decided already.
unless-Grows :
    (s : Server) (b : Bool) (m : Outcome Server) (r : Server)
    → ((q : Server) → m ≡ ok q → Grows s.tpc q.tpc)
    → (if b then ok s else m) ≡ ok r
    → Grows s.tpc r.tpc
unless-Grows s true m r p h = Grows-≡ (ap (λ (z : Server). z.tpc) (ok-injective h))
unless-Grows s false m r p h = p r h

pub guarded-Grows :
    (s : Server) (seq : ℕ) (m : Outcome Server) (r : Server)
    → ((q : Server) → m ≡ ok q → Grows s.tpc q.tpc)
    → (already_processed seq s.tpc >>= λ done. if done then ok s else m) ≡ ok r
    → Grows s.tpc r.tpc
guarded-Grows s seq m r p h =
    >>=-result (λ (z : Server). Grows s.tpc z.tpc) (already_processed seq s.tpc)
      (λ done. if done then ok s else m) (λ b q. unless-Grows s b m q p) r h

pub commit-Grows :
    (env : Env) (seq : ℕ) (hash : Text) (s r : Server)
    → primary_commit_transaction env seq hash s ≡ ok r
    → Grows s.tpc r.tpc
unfolding primary_commit_transaction
commit-Grows env seq hash s r h =
    guarded-Grows s seq (decide commit env seq hash s) r (decide-Grows commit env seq hash s) h

pub abort-Grows :
    (env : Env) (seq : ℕ) (hash : Text) (s r : Server)
    → primary_abort_transaction env seq hash s ≡ ok r
    → Grows s.tpc r.tpc
unfolding primary_abort_transaction
abort-Grows env seq hash s r h =
    guarded-Grows s seq (decide abort env seq hash s) r (decide-Grows abort env seq hash s) h

pub decision-Grows :
    (env : Env) (message status hash : Text) (seq : ℕ) (s r : Server)
    → handle_decision env message status hash seq s ≡ ok r
    → Grows s.tpc r.tpc
unfolding handle_decision set_status write_to_tpc_log
decision-Grows env message status hash seq s r h =
    guarded-Grows s seq _ r
      (λ q g.
        Grows-trans
          (record {
            seqs = omega arith;
            lasts = omega arith;
            decided = λ n. added seq n s.tpc.queued_transactions;
          })
          (process-Grows env _ q g))
      h

-- Every result of a part that starts from `s`.
abbrev pub Growing : Server → Outcome Server → Type 0
Growing s m = (r : Server) → m ≡ ok r → Grows s.tpc r.tpc

pub if-Growing :
    (s : Server) (b : Bool) (m k : Outcome Server)
    → Growing s m
    → Growing s k
    → Growing s (if b then m else k)
if-Growing s true m k p q = p
if-Growing s false m k p q = q

pub blocked-Growing : (s : Server) → Growing s blocked
blocked-Growing s r h = cc

pub stopped-Growing : (s : Server) → Growing s stopped
stopped-Growing s r h = cc

pub ok-Growing : (s r : Server) → Grows s.tpc r.tpc → Growing s (ok r)
ok-Growing s r g q h = subst (λ (z : Server). Grows s.tpc z.tpc) (ok-injective h) g

pub option-Growing {ℓ} :
    {A : Type ℓ} (s : Server) (o : Option A) (m : Outcome Server) (k : A → Outcome Server)
    → Growing s m
    → ((a : A) → Growing s (k a))
    → Growing s (elim o [ none ↦ m | some a ↦ k a ])
option-Growing s none m k p q = p
option-Growing s (some a) m k p q = q a
