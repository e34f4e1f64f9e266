-- ===== src/Smtp/Names.antt =====
-- The client's name, which the coordinator is asked with: the mail server and
-- backend/coordinator.cpp together.
use penn_mail_and_penn_drive.Base.{
  ℕ, ◌≡◌, refl, sym, ap, ◌∙◌, List, [], ◌++◌, nat_eq, list_eq, pair_eq, Outcome, ok, blocked,
  stopped, ◌>>=◌, >>=-result, ok-injective,
}
use penn_mail_and_penn_drive.Base.Text.{codes, has_text, split}
use penn_mail_and_penn_drive.Coordinator.{Coordinator}
use penn_mail_and_penn_drive.Coordinator.Requests.{frontend_message, helo_request}
use penn_mail_and_penn_drive.Smtp.{Session, answer, reply_ok, free_slots, reset}
use penn_mail_and_penn_drive.Smtp.Delivery.{Services, Letter, helo_line, deliver_all, finish_mail}

-- A reset clears the name.
reset-my_name : (c : Session) (d : Session) → reset c ≡ ok d → d.my_name ≡ []
unfolding reset
reset-my_name c =
    >>=-result (λ (d : Session). d.my_name ≡ []) (free_slots c.slots) _
      (λ slots d e. sym (ap (λ (z : Session). z.my_name) (ok-injective e)))

abbrev replied : {T : Type 0} → T → Session → Outcome (Session × T)
replied t z = ok (answer reply_ok z, t)

named_after :
    {T : Type 0} (m : Outcome Session) (t u : T) (d : Session)
    → ((z : Session) → m ≡ ok z → z.my_name ≡ [])
    → (m >>= replied t) ≡ ok (d, u)
    → d.my_name ≡ []
unfolding answer
named_after {T} (ok z) t u d h e =
    ap (λ (q : Session × T). (q.0).my_name) (sym (ok-injective e)) ∙ h z refl
named_after blocked t u d h e = cc
named_after stopped t u d h e = cc

finish_mail-my_name :
    {T : Type 0} (services : Services T) (letter : Letter) (c d : Session) (t u : T)
    → finish_mail services letter (c, t) ≡ ok (d, u)
    → d.my_name ≡ []
unfolding finish_mail
finish_mail-my_name {T} services letter c d t u =
    >>=-result (λ (q : Session × T). (q.0).my_name ≡ [])
      (deliver_all services c.rcpt_to_buffer_idx c.slots letter (c, t)) _
      (λ (q, v) (z, w) e. named_after (reset q) v w z (reset-my_name q) e) (d, u)

nameless :
    (count : ℕ) (rand : List ℕ) (fd : ℕ) (c : Coordinator)
    → frontend_message count rand fd (codes "HELO passwd ") c ≡ stopped
unfolding frontend_message helo_request has_text split
nameless count rand fd c = refl

-- After a mail that was sent the client's name is gone: the line that the session then asks the
-- coordinator with stops the coordinator, whatever state that is in.
pub finish_mail-stops :
    {T : Type 0} (services : Services T) (letter : Letter) (c d : Session) (t u : T) (count : ℕ)
    (rand : List ℕ) (fd : ℕ) (coordinator : Coordinator)
    → finish_mail services letter (c, t) ≡ ok (d, u)
    → frontend_message count rand fd (helo_line d) coordinator ≡ stopped
unfolding helo_line
finish_mail-stops services letter c d t u count rand fd coordinator e =
    ap (λ n. frontend_message count rand fd (codes "HELO passwd " ++ n) coordinator)
      (finish_mail-my_name services letter c d t u e)
    ∙ nameless count rand fd coordinator
