-- ===== src/Handler/Numbers.antt =====
-- The numbers of transactions in `handle_message` of backend/src/threads.cpp.
use penn_mail_and_penn_drive.Base.{
  ℕ, ◌+◌, ◌≡◌, refl, sym, List, [], ◌∷◌, Option, Bool, true, arith, nat_eq, list_eq, ◌==◌, ◌||◌,
  length, leb, ok, >>=-result, blocked, stopped,
}
use penn_mail_and_penn_drive.Base.Maps.{lookup, has}
use penn_mail_and_penn_drive.Base.Text.{Text, codes, split, stoi, before, after?, has_text}
use penn_mail_and_penn_drive.Server.{Store, Message, Server, Env}
use penn_mail_and_penn_drive.Tpc.{
  commit, abort, prepare, write_to_tpc_log, primary_commit_transaction, primary_abort_transaction,
  start_tpc, ensure_loaded,
}
use penn_mail_and_penn_drive.Tpc.Queue.{send_reply-tpc}
use penn_mail_and_penn_drive.Store.{get_command_locks, execute_command}
use penn_mail_and_penn_drive.Command.{get_tablet, generate_client_response}
use penn_mail_and_penn_drive.Wal.{log_message}
use penn_mail_and_penn_drive.Handler.Growth.{
  Grows, Growing, Grows-refl, Grows-trans, Grows-≡, same, guarded-Grows, commit-Grows, abort-Grows,
  decision-Grows, if-Growing, blocked-Growing, stopped-Growing, ok-Growing, option-Growing,
}
use penn_mail_and_penn_drive.Handler.{
  finish_vote, count_yes, handle_vote, vote_tokens, all_responded, primary_tpc, handle_prepare,
  enqueue, prepare_message, decision_tokens, replica_tpc, execute_alone, primary_command,
  replica_command, handle_message,
}

start_tpc-Growing :
    (env : Env) (command hash : Text) (seq : ℕ) (s : Server)
    → Growing s (start_tpc env command hash seq s)
unfolding start_tpc write_to_tpc_log
start_tpc-Growing env command hash seq s =
    if-Growing s (s.tpc.primary_recovering || s.tpc.queue_locked) blocked _ (blocked-Growing s)
      (ok-Growing s _ (same s.tpc _ refl refl refl))

handle_prepare-Growing :
    (seq : ℕ) (hash command : Text) (s : Server) → Growing s (handle_prepare seq hash command s)
unfolding handle_prepare enqueue write_to_tpc_log
handle_prepare-Growing seq hash command s =
    if-Growing s s.tpc.queue_locked blocked _ (blocked-Growing s) (
      if-Growing s (leb seq s.tpc.last_seq || has seq s.tpc.tpc_queue) (ok s) _
        (ok-Growing s s (Grows-refl s.tpc))
        (ok-Growing s _ (record { seqs = omega arith; lasts = omega arith; decided = λ n h. h })))

finish_vote-Growing :
    (env : Env) (seq : ℕ) (hash command : Text) (s : Server)
    → Growing s (finish_vote env seq hash command s)
unfolding finish_vote
finish_vote-Growing env seq hash command s =
    if-Growing s locked.0 (primary_commit_transaction env seq hash q)
      (primary_abort_transaction env seq hash q) (commit-Grows env seq hash q)
      (abort-Grows env seq hash q)
  where
    locked : Bool × Store
    locked = get_command_locks command s.store

    q : Server
    q = record s { store = locked.1 }

handle_vote-Growing :
    (env : Env) (yes' : Bool) (seq : ℕ) (hash ip_port : Text) (s : Server)
    → Growing s (handle_vote env yes' seq hash ip_port s)
unfolding handle_vote count_yes
handle_vote-Growing env yes' seq hash ip_port s r h =
    guarded-Grows s seq _ r
      (option-Growing s (lookup seq s.tpc.tpc_queue) (ok s) _ (ok-Growing s s (Grows-refl s.tpc))
        (λ t.
          if-Growing s yes' _ _
            (if-Growing s (all_responded seq counted) _ _
              (λ q g.
                Grows-trans (same s.tpc counted.tpc refl refl refl)
                  (finish_vote-Growing env seq hash t.command counted q g))
              (ok-Growing s counted (same s.tpc counted.tpc refl refl refl)))
            (abort-Grows env seq hash s)))
      h
  where
    counted : Server
    counted = record s { tpc = count_yes seq ip_port s.tpc }

vote_tokens-Growing :
    (env : Env) (yes' : Bool) (l : List Text) (s : Server) → Growing s (vote_tokens env yes' l s)
unfolding vote_tokens
vote_tokens-Growing env yes' (a ∷ b ∷ c ∷ number ∷ e ∷ f ∷ []) s =
    option-Growing s (stoi number) stopped _ (stopped-Growing s)
      (λ seq. handle_vote-Growing env yes' seq c _ s)
vote_tokens-Growing env yes' [] s = ok-Growing s s (Grows-refl s.tpc)
vote_tokens-Growing env yes' (a ∷ []) s = ok-Growing s s (Grows-refl s.tpc)
vote_tokens-Growing env yes' (a ∷ b ∷ []) s = ok-Growing s s (Grows-refl s.tpc)
vote_tokens-Growing env yes' (a ∷ b ∷ c ∷ []) s = ok-Growing s s (Grows-refl s.tpc)
vote_tokens-Growing env yes' (a ∷ b ∷ c ∷ d ∷ []) s = ok-Growing s s (Grows-refl s.tpc)
vote_tokens-Growing env yes' (a ∷ b ∷ c ∷ d ∷ e ∷ []) s = ok-Growing s s (Grows-refl s.tpc)
vote_tokens-Growing env yes' (a ∷ b ∷ c ∷ d ∷ e ∷ f ∷ g ∷ l) s = ok-Growing s s (Grows-refl s.tpc)

primary_tpc-Growing :
    (env : Env) (message : Text) (s : Server) → Growing s (primary_tpc env message s)
unfolding primary_tpc
primary_tpc-Growing env message s =
    if-Growing s (has_text (codes "YES") message || has_text (codes "NO") message) _ _
      (vote_tokens-Growing env (has_text (codes "YES") message) (split b':' message) s)
      (ok-Growing s s (Grows-refl s.tpc))

decision_tokens-Growing :
    (env : Env) (message : Text) (l : List Text) (s : Server)
    → Growing s (decision_tokens env message l s)
unfolding decision_tokens
decision_tokens-Growing env message (a ∷ status ∷ hash ∷ number ∷ []) s =
    option-Growing s (stoi number) stopped _ (stopped-Growing s)
      (λ seq. decision-Grows env message status hash seq s)
decision_tokens-Growing env message [] s = ok-Growing s s (Grows-refl s.tpc)
decision_tokens-Growing env message (a ∷ []) s = ok-Growing s s (Grows-refl s.tpc)
decision_tokens-Growing env message (a ∷ b ∷ []) s = ok-Growing s s (Grows-refl s.tpc)
decision_tokens-Growing env message (a ∷ b ∷ c ∷ []) s = ok-Growing s s (Grows-refl s.tpc)
decision_tokens-Growing env message (a ∷ b ∷ c ∷ d ∷ e ∷ l) s = ok-Growing s s (Grows-refl s.tpc)

prepare_message-Growing : (message : Text) (s : Server) → Growing s (prepare_message message s)
unfolding prepare_message
prepare_message-Growing message s =
    option-Growing s (after? b':' message) stopped _ (stopped-Growing s) (λ m1.
      option-Growing s (after? b':' m1) _ _
        (option-Growing s (stoi m1) stopped _ (stopped-Growing s)
          (λ seq. handle_prepare-Growing seq _ _ s))
        (λ m2. option-Growing s (after? b':' m2) stopped _ (stopped-Growing s) (λ m3.
          option-Growing s (stoi (before b':' m3)) stopped _ (stopped-Growing s)
            (λ seq. handle_prepare-Growing seq _ _ s))))

replica_tpc-Growing :
    (env : Env) (message : Text) (s : Server) → Growing s (replica_tpc env message s)
unfolding replica_tpc
replica_tpc-Growing env message s =
    if-Growing s (has_text prepare message) _ _ (prepare_message-Growing message s) (
      if-Growing s (has_text commit message || has_text abort message) _ _
        (decision_tokens-Growing env message (split b':' message) s)
        (ok-Growing s s (Grows-refl s.tpc)))

execute_alone-Growing :
    (env : Env) (message hash : Text) (msg : Message) (s : Server)
    → Growing s (execute_alone env message hash msg s)
unfolding execute_alone
execute_alone-Growing env message hash msg s =
    if-Growing s locked.0 _ _
      (λ r h.
        >>=-result P (ensure_loaded env t locked.1) _
          (λ loaded.
            >>=-result P
              (execute_command message (log_message message (s.tpc.last_seq + 1) t loaded)) _
              (λ done. ok-Growing s _ (
                Grows-trans raised (
                  Grows-≡ (
                    sym (
                      send_reply-tpc msg.fd (generate_client_response true msg.opt) t
                        (passed done)))))))
          r h)
      (ok-Growing s _ (Grows-refl s.tpc))
  where
    t : ℕ
    t = get_tablet msg.row

    locked : Bool × Store
    locked = get_command_locks message s.store

    passed : Store → Server
    passed done = record s { store = done; tpc = record s.tpc { last_seq = s.tpc.last_seq + 1 } }

    raised : Grows s.tpc (record s.tpc { last_seq = s.tpc.last_seq + 1 })
    raised = record { seqs = omega arith; lasts = omega arith; decided = λ n h. h }

    P : Server → Type 0
    P z = Grows s.tpc z.tpc

primary_command-Growing :
    (env : Env) (given_hash message : Text) (connfd : Option ℕ) (backend_conn : Bool)
    (ipport : Text) (s : Server)
    → Growing s (primary_command env given_hash message connfd backend_conn ipport s)
unfolding primary_command
primary_command-Growing env given_hash message connfd backend_conn ipport s =
    if-Growing s (length s.net.partition_fds == 0) _ _
      (λ q g. Grows-trans raised (execute_alone-Growing env message _ _ _ q g))
      (λ q g. Grows-trans raised (start_tpc-Growing env message _ _ _ q g))
  where
    raised : Grows s.tpc (record s.tpc { tpc_seq = s.tpc.tpc_seq + 1 })
    raised = record { seqs = omega arith; lasts = omega arith; decided = λ n h. h }

-- A call of `handle_message` that ends never lowers `tpc_seq` or `last_seq`, and no transaction
-- is taken off the set of those that are decided.
pub handle_message-Grows :
    (env : Env) (hash message : Text) (connfd : Option ℕ) (backend_conn is_tpc : Bool)
    (s r : Server)
    → handle_message env hash message connfd backend_conn is_tpc s ≡ ok r
    → Grows s.tpc r.tpc
unfolding handle_message replica_command
handle_message-Grows env hash message connfd backend_conn is_tpc s =
    if-Growing s is_tpc _ _
      (if-Growing s s.net.is_primary _ _ (primary_tpc-Growing env message s)
        (replica_tpc-Growing env message s))
      (if-Growing s s.net.is_primary _ _
        (primary_command-Growing env hash message connfd backend_conn (codes "NA") s)
        (ok-Growing s (replica_command env message connfd s) (Grows-refl s.tpc)))
