-- ===== src/Handler/Lines.antt =====
-- The lines of two-phase commit, from the primary to a replica.
use penn_mail_and_penn_drive.Base.{
  ℕ, ◌<◌, ◌≡◌, refl, ap, ◌∙◌, Bool, true, false, ◌||◌, some, none, arith, if◌then◌else◌, ok,
  stopped,
}
use penn_mail_and_penn_drive.Base.Text.{Text, Lacks, split, has_text, find, starts_with}
use penn_mail_and_penn_drive.Base.Text.Numbers.{stoi-to_string}
use penn_mail_and_penn_drive.Server.{Server, Env}
use penn_mail_and_penn_drive.Tpc.{prepare, commit, abort, decision}
use penn_mail_and_penn_drive.Tpc.Log.{split-printed}
use penn_mail_and_penn_drive.Handler.{
  handle_decision, decision_tokens, replica_tpc, prepare_message,
}

or_true : (b : Bool) → (b || true) ≡ true
or_true b = ground arith

module _ (env : Env) (hash : Text) (seq : ℕ) (s : Server) where
  read_decision :
      (status : Text)
      → Lacks b':' status
      → Lacks b':' hash
      → seq < 2147483648
      → decision_tokens env (decision status hash seq) (split b':' (decision status hash seq)) s
        ≡ handle_decision env (decision status hash seq) status hash seq s
  unfolding decision_tokens
  read_decision status a b small =
      ap (λ l. decision_tokens env (decision status hash seq) l s)
        (split-printed (record { status = status; hash = hash; seq = seq }) a b)
      ∙ ap
          (λ o. elim o [
            | none ↦ stopped
            | some n ↦ handle_decision env (decision status hash seq) status hash n s
          ])
          (stoi-to_string seq small)

  -- The line `TPC:COMMIT:hash:seq` or `TPC:ABORT:hash:seq` of the primary is handled by a replica
  -- as that decision on that transaction, if the hash holds no colon, an `int` holds the number,
  -- and the word PREPARE does not occur in the line.
  pub replica_tpc-decision :
      Lacks b':' hash
      → seq < 2147483648
      → has_text prepare (decision commit hash seq) ≡ false
      → has_text prepare (decision abort hash seq) ≡ false
      → (replica_tpc env (decision commit hash seq) s
          ≡ handle_decision env (decision commit hash seq) commit hash seq s)
        × (replica_tpc env (decision abort hash seq) s
            ≡ handle_decision env (decision abort hash seq) abort hash seq s)
  unfolding replica_tpc has_text find starts_with
  replica_tpc-decision h small p q = (
    read commit (omega arith) p refl,
    read abort (omega arith) q (or_true (has_text commit (decision abort hash seq))),
  )
    where
      read :
          (status : Text)
          → Lacks b':' status
          → has_text prepare (decision status hash seq) ≡ false
          → (has_text commit (decision status hash seq)
              || has_text abort (decision status hash seq))
            ≡ true
          → replica_tpc env (decision status hash seq) s
            ≡ handle_decision env (decision status hash seq) status hash seq s
      read status a e f =
          ap
            (λ b.
              if b
              then prepare_message (decision status hash seq) s
              else if has_text commit (decision status hash seq)
                  || has_text abort (decision status hash seq)
              then decision_tokens env (decision status hash seq)
                  (split b':' (decision status hash seq)) s
              else ok s)
            e
          ∙ ap
              (λ b.
                if b
                then decision_tokens env (decision status hash seq)
                    (split b':' (decision status hash seq)) s
                else ok s)
              f
          ∙ read_decision status a h small
