-- ===== src/Dispatch/Lines.antt =====
-- Single messages of `start_func` of backend/src/threads.cpp.
use penn_mail_and_penn_drive.Base.{
  ℕ, suc, ◌+◌, ◌<◌, ◌≡◌, refl, ap, sym, ◌∙◌, subst, Bool, true, false, [], ◌∷◌, ◌++◌, arith, max,
  ltb, ◌&&◌, length, take, drop, length-append, take-append, append_assoc, if◌then◌else◌, ◌=?◌,
  beq_refl, nat_eq, list_eq, Outcome, ok, stopped,
}
use penn_mail_and_penn_drive.Base.Text.{Text, codes, Lacks, split, trim_end, to_string, has_text}
use penn_mail_and_penn_drive.Base.Text.Laws.{split-append, split-Lacks}
use penn_mail_and_penn_drive.Base.Text.Numbers.{to_string-Lacks, to_string-cons, stoi-to_string}
use penn_mail_and_penn_drive.Server.{Env}
use penn_mail_and_penn_drive.Command.{space}
use penn_mail_and_penn_drive.Dispatch.{
  Node, Connection, on_server, reply, pass_on, compare_value, send_numbers, take_numbers,
  process_message,
}

-- Any message of less than four bytes, an empty line say, from any connection but the coordinator's
-- ends the server: `message.substr(4, 7)` throws.
pub process_message-short :
    (env : Env) (connect : Text → ℕ) (c : Connection) (line : Text) (n : Node)
    → c.coord_conn ≡ false
    → length (trim_end line) < 4
    → process_message env connect c line n ≡ stopped
unfolding process_message
process_message-short env connect c line n other short =
    rw (other, process_message, is_short, and_false)
  where
    is_short : ltb (length (trim_end line)) 4 ≡ true
    is_short = ground (arith, short)

    and_false : (has_text (codes "STOP") (trim_end line) && false) ≡ false
    and_false = ground arith

module _ (env : Env) (c : Connection) (hash message existing : Text) (n : Node) where
  answer : Bool → Bool → Text → Outcome Node
  answer same short rest =
      if same
      then (if short
          then stopped
          else if rest =? existing
          then ok (reply c (codes "+OK table entry did not change.\r\n") n)
          else pass_on env c hash message n)
      else ok (reply c (codes "-ERR 204 original value does not match.\r\n") n)

  compare_value-answer :
      (values rest : Text) (short : Bool)
      → take (length existing) values ≡ existing
      → ltb (length values) (length existing + 1) ≡ short
      → drop (length existing + 1) values ≡ rest
      → compare_value env c hash message existing values n ≡ answer true short rest
  unfolding compare_value answer
  compare_value-answer values rest short p q r =
      λ i. answer ((ap (λ t. t =? existing) p ∙ beq_refl existing) i) (q i) (r i)

  take_all : (l : Text) → take (length l) l ≡ l
  take_all [] = refl
  take_all (x ∷ l) = ap (λ r. x ∷ r) (take_all l)

  drop_blank : (l new : Text) → drop (length l + 1) (l ++ space ∷ new) ≡ new
  drop_blank [] new = refl
  drop_blank (x ∷ l) new =
      ap (λ k. drop k (x ∷ (l ++ space ∷ new))) (shifted (length l)) ∙ drop_blank l new
    where
      shifted : (k : ℕ) → suc k + 1 ≡ suc (k + 1)
      shifted k = omega arith

  longer : (new : Text) → ltb (length (existing ++ space ∷ new)) (length existing + 1) ≡ false
  longer new = ground (arith, length-append existing (space ∷ new))

  -- At a CPUT, a text that is the old value alone ends the server; with the old value, a blank and
  -- a new value the command is passed on, unless both values are the same.
  pub compare_value-old :
      (new : Text)
      → (compare_value env c hash message existing existing n ≡ stopped)
        × (compare_value env c hash message existing (existing ++ space ∷ new) n ≡ (
            if new =? existing
            then ok (reply c (codes "+OK table entry did not change.\r\n") n)
            else pass_on env c hash message n))
  unfolding answer
  compare_value-old new = (
    compare_value-answer existing (drop (length existing + 1) existing) true (take_all existing)
        (ground arith) refl,
    compare_value-answer (existing ++ space ∷ new) new false (take-append existing (space ∷ new))
        (longer new) (drop_blank existing new),
  )

-- `TSEQNUMRETURN tpc_seq last_seq`
abbrev pub numbers : ℕ → ℕ → Text
numbers a b = codes "TSEQNUMRETURN " ++ (to_string a ++ space ∷ to_string b)

split-last : (n : ℕ) → split space (to_string n) ≡ to_string n ∷ []
split-last n =
    let (x, s, e) = to_string-cons n in
    subst (λ t. split space t ≡ t ∷ []) (sym e)
      (split-Lacks space x s (subst (Lacks space) e (to_string-Lacks space n (omega arith))))

split-numbers :
    (a b : ℕ) → split space (numbers a b) ≡ codes "TSEQNUMRETURN" ∷ to_string a ∷ to_string b ∷ []
split-numbers a b =
    split-append space (codes "TSEQNUMRETURN") (to_string a ++ space ∷ to_string b) (omega arith)
    ∙ ap (λ l. codes "TSEQNUMRETURN" ∷ l)
        (split-append space (to_string a) (to_string b) (to_string-Lacks space a (omega arith))
          ∙ ap (λ l. to_string a ∷ l) (split-last b))

-- The line that the primary `p` answers to `TSEQNUM` is read by the replica `n` as the primary's
-- two numbers, if an `int` holds them: the replica raises its own to them.
pub take_numbers-send_numbers :
    (c : Connection) (p n : Node)
    → p.server.tpc.tpc_seq < 2147483648
    → p.server.tpc.last_seq < 2147483648
    → (send_numbers c p
        ≡ reply c (numbers p.server.tpc.tpc_seq p.server.tpc.last_seq ++ codes "\r\n") p)
      × (take_numbers (split space (numbers p.server.tpc.tpc_seq p.server.tpc.last_seq)) n
          ≡ ok (
              on_server n (record n.server {
                tpc = record n.server.tpc {
                  tpc_seq = max n.server.tpc.tpc_seq p.server.tpc.tpc_seq;
                  last_seq = max n.server.tpc.last_seq p.server.tpc.last_seq;
                };
              })))
unfolding send_numbers take_numbers
take_numbers-send_numbers c p n h g = (
  ap (λ (l : Text). reply c (codes "TSEQNUMRETURN " ++ l) p)
      (sym (
        append_assoc (to_string p.server.tpc.tpc_seq) (space ∷ to_string p.server.tpc.last_seq)
          (codes "\r\n"))),
  rw (
    split-numbers p.server.tpc.tpc_seq p.server.tpc.last_seq,
    take_numbers,
    stoi-to_string p.server.tpc.tpc_seq h,
    stoi-to_string p.server.tpc.last_seq g,
  ),
)
