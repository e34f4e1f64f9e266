-- ===== src/Threads/Polls.antt =====
-- The loop of `start_func` in backend/src/threads.cpp over what `poll` and `recv` give, from the
-- greeting to the end of the connection.
use penn_mail_and_penn_drive.Base.{
  ℕ, zero, suc, ◌+◌, ◌≡◌, refl, ap, sym, ◌∙◌, Bool, true, false, ◌&&◌, Option, none, some, List, [],
  ◌∷◌, ◌++◌, if◌then◌else◌, ◌=?◌, nat_eq, list_eq, Outcome, ok, ◌>>=◌, bind_eq, bind_assoc,
}
use penn_mail_and_penn_drive.Base.Reads.{receive, receive-append}
use penn_mail_and_penn_drive.Base.Maps.{add}
use penn_mail_and_penn_drive.Base.Text.{Text, codes, to_string}
use penn_mail_and_penn_drive.Server.{Net, Env}
use penn_mail_and_penn_drive.Handler.{send_queued_primary}
use penn_mail_and_penn_drive.Dispatch.{
  Node, Connection, on_server, reply, is_primary_fd, process_message,
}
use penn_mail_and_penn_drive.Threads.{end_connection}

abbrev on_net : Node → Net → Node
on_net n net = on_server n (record n.server { net = net })

-- The logs of the tablets from `i` on are requested, `k` of them.
unfoldable pub request_logs : Connection → ℕ → ℕ → Node → Node
request_logs c zero i n = n
request_logs c (suc k) i n =
    request_logs c k (i + 1)
      (reply c (codes "+OK REQUEST logfile " ++ (to_string i ++ codes "\r\n")) n)

-- The greeting. The primary is asked for its logs and its numbers, and gets what waits for it.
unfoldable pub start_connection : Connection → Node → Node
unfolding request_logs is_primary_fd send_queued_primary
start_connection c n =
    let m =
      reply c (codes "+OK Server ready.\r\n")
        (on_net n (record n.server.net { open_fds = add c.connfd n.server.net.open_fds })) in
    let asked = request_logs c 5 0 m in
    if is_primary_fd c m
    then reply c (codes "TSEQNUM\r\n") (on_net asked (send_queued_primary asked.server.net))
    else m

-- What `poll` says: an error, the end of the connection, or bytes; no byte is the end too.
pub data Polled : Type 0 where
  poll_failed hung_up : Polled
  readable : Text → Polled

-- The thread ends.
abbrev pub ended : Connection → Text → Node → Node × Option Text
ended c conn_address n =
    (on_net n (end_connection c.connfd c.backend_conn conn_address n.server.net), none)

-- One round: the buffer that is left, or none where the thread has ended. `terminate` tells the
-- thread of a former primary to end.
unfoldable pub poll_round :
    Env
    → (Text → ℕ)
    → Connection
    → Text
    → Bool
    → Polled
    → Node × Text
    → Outcome (Node × Option Text)
unfolding receive is_primary_fd
poll_round env connect c conn_address terminate polled (n, buffer) =
    if is_primary_fd c n && terminate then ok (ended c conn_address n) else elim polled [
      | poll_failed ↦ ok (ended c conn_address n)
      | hung_up ↦ ok (ended c conn_address n)
      | readable bytes ↦ receive (process_message env connect c) bytes (n, buffer) >>= λ (m, rest).
          if bytes =? [] then ok (ended c conn_address m) else ok (m, some rest)
    ]

-- The rounds until the thread ends, each with what `terminate_primary_thread` says then.
unfoldable pub poll_rounds :
    Env
    → (Text → ℕ)
    → Connection
    → Text
    → List (Bool × Polled)
    → Node × Text
    → Outcome (Node × Option Text)
unfolding poll_round
poll_rounds env connect c conn_address [] (n, buffer) = ok (n, some buffer)
poll_rounds env connect c conn_address ((terminate, polled) ∷ more) (n, buffer) =
    poll_round env connect c conn_address terminate polled (n, buffer) >>= λ (m, left). elim left [
      | none ↦ ok (m, none)
      | some rest ↦ poll_rounds env connect c conn_address more (m, rest)
    ]

module _ (env : Env) (connect : Text → ℕ) (c : Connection) (conn_address : Text) where
  not_ended : (b : Bool) {A : Type 0} (x y : A) → (if b && false then x else y) ≡ y
  not_ended true x y = refl
  not_ended false x y = refl

  poll_round-readable :
      (x : ℕ) (bytes buffer : Text) (n : Node)
      → poll_round env connect c conn_address false (readable (x ∷ bytes)) (n, buffer) ≡ (
          receive (process_message env connect c) (x ∷ bytes) (n, buffer) >>= λ (m, rest).
          ok (m, some rest))
  unfolding poll_round
  poll_round-readable x bytes buffer n =
      not_ended (is_primary_fd c n) (ok (ended c conn_address n)) (
        receive (process_message env connect c) (x ∷ bytes) (n, buffer) >>= λ (m, rest).
        ok (m, some rest))

  poll_rounds-readable :
      (x : ℕ) (bytes buffer : Text) (n : Node) (more : List (Bool × Polled))
      → poll_rounds env connect c conn_address ((false, readable (x ∷ bytes)) ∷ more) (n, buffer)
        ≡ (receive (process_message env connect c) (x ∷ bytes) (n, buffer)
            >>= poll_rounds env connect c conn_address more)
  unfolding poll_rounds
  poll_rounds-readable x bytes buffer n more =
      ap (λ (o : Outcome (Node × Option Text)). o >>= go_on) (poll_round-readable x bytes buffer n)
      ∙ bind_assoc (receive (process_message env connect c) (x ∷ bytes) (n, buffer))
          (λ (m, rest). ok (m, some rest)) go_on
    where
      go_on : Node × Option Text → Outcome (Node × Option Text)
      go_on (m, left) = elim left [
        | none ↦ ok (m, none)
        | some rest ↦ poll_rounds env connect c conn_address more (m, rest)
      ]

  -- It does not matter how the bytes that a peer sends are split over two reads: what comes in by
  -- two is handled as what comes in by one, and the rounds behind them go on in the same way.
  -- Neither read is empty, and the thread is not told to end.
  pub poll_rounds-split :
      (x y : ℕ) (a b buffer : Text) (n : Node) (more : List (Bool × Polled))
      → poll_rounds env connect c conn_address
          ((false, readable (x ∷ a ++ y ∷ b)) ∷ more)
          (n, buffer)
        ≡ poll_rounds env connect c conn_address
            ((false, readable (x ∷ a)) ∷ (false, readable (y ∷ b)) ∷ more)
            (n, buffer)
  poll_rounds-split x y a b buffer n more =
      poll_rounds-readable x (a ++ y ∷ b) buffer n more
      ∙ ap (λ (o : Outcome (Node × Text)). o >>= poll_rounds env connect c conn_address more)
          (receive-append (process_message env connect c) (x ∷ a) (y ∷ b) buffer n)
      ∙ bind_assoc (receive (process_message env connect c) (x ∷ a) (n, buffer))
          (receive (process_message env connect c) (y ∷ b))
          (poll_rounds env connect c conn_address more)
      ∙ bind_eq (receive (process_message env connect c) (x ∷ a) (n, buffer)) _
          (poll_rounds env connect c conn_address ((false, readable (y ∷ b)) ∷ more))
          (λ (m, rest) _. sym (poll_rounds-readable y b rest m more))
      ∙ sym (poll_rounds-readable x a buffer n ((false, readable (y ∷ b)) ∷ more))
