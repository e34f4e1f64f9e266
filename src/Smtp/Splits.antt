-- ===== src/Smtp/Splits.antt =====
-- frontend/smtp_server.cc: the loop of `worker` over bytes that come in one read or in two.
use penn_mail_and_penn_drive.Base.{
  ◌+◌, ◌≤◌, ◌≡◌, ◌≢◌, refl, sym, ap, ◌∙◌, false, List, ◌∷◌, ◌++◌, if◌then◌else◌, nat_eq, list_eq,
  pair_eq, length, Outcome, ok, ◌>>=◌,
}
use penn_mail_and_penn_drive.Base.Text.{Text}
use penn_mail_and_penn_drive.Smtp.{Session, Stage, new, ready, transaction, mail_data}
use penn_mail_and_penn_drive.Smtp.Delivery.{Services, read_data}
use penn_mail_and_penn_drive.Smtp.Worker.{read_lines, worker_round, worker_loop}
use penn_mail_and_penn_drive.Smtp.Reads.{read_lines-append}

module _ {T : Type 0} (services : Services T) where
  -- A read in another stage than that of the data, as the loop goes on after it.
  abbrev lines_read : Text → Session × Text × T → Outcome (Session × Text × T)
  lines_read chunk (c, buffer, table) =
      read_lines chunk (c, buffer) >>= λ (d, rest). ok (d, rest, table)

  at_stage :
      (current_time chunk buffer : Text) (c : Session) (table : T) (g : Stage)
      → g ≢ mail_data
      → (elim g as (λ _. Outcome (Session × Text × T)) [
        | mail_data ↦
            read_data services current_time chunk (c, table) >>= λ (d, u). ok (d, buffer, u)
        | _ ↦ read_lines chunk (c, buffer) >>= λ (d, rest). ok (d, rest, table)
      ])
        ≡ lines_read chunk (c, buffer, table)
  at_stage current_time chunk buffer c table new h = refl
  at_stage current_time chunk buffer c table ready h = refl
  at_stage current_time chunk buffer c table transaction h = refl
  at_stage current_time chunk buffer c table mail_data h = absurd (h refl)

  one_round :
      (current_time chunk buffer : Text) (more : List (Text × Text)) (c : Session) (table : T)
      → c.stage ≢ mail_data
      → c.close_connection ≡ false
      → worker_loop services ((current_time, chunk) ∷ more) (c, buffer, table)
        ≡ (lines_read chunk (c, buffer, table) >>= worker_loop services more)
  unfolding worker_loop worker_round
  one_round current_time chunk buffer more c table g live =
      ap
        (λ b.
          if b
          then ok (c, buffer, table)
          else (worker_round services current_time chunk (c, buffer, table)
              >>= worker_loop services more))
        live
      ∙ ap (λ m. m >>= worker_loop services more)
          (at_stage current_time chunk buffer c table c.stage g)

  -- It does not matter to the loop of `worker` whether bytes come in one read or in two, whenever
  -- the reads happen and whatever is read later, if the lines of the first part neither close the
  -- connection nor start a mail's data, nor did the lines before, and the buffer has room for all.
  pub worker_loop-append :
      (t0 t1 t2 a b buffer rest : Text) (more : List (Text × Text)) (c d : Session) (table : T)
      → length buffer + length a + length b ≤ 2000
      → c.stage ≢ mail_data
      → c.close_connection ≡ false
      → read_lines a (c, buffer) ≡ ok (d, rest)
      → d.stage ≢ mail_data
      → d.close_connection ≡ false
      → worker_loop services ((t0, a ++ b) ∷ more) (c, buffer, table)
        ≡ worker_loop services ((t1, a) ∷ (t2, b) ∷ more) (c, buffer, table)
  worker_loop-append t0 t1 t2 a b buffer rest more c d table room g live first k still =
      let then_on : (List (Text × Text)) → Outcome (Session × Text) → Outcome (Session × Text × T) =
        λ l m. (m >>= λ (e, left). ok (e, left, table)) >>= worker_loop services l in
      one_round t0 (a ++ b) buffer more c table g live
      ∙ ap (then_on more) (read_lines-append a b buffer c room ∙ ap (λ m. m >>= read_lines b) first)
      ∙ sym (
          one_round t1 a buffer ((t2, b) ∷ more) c table g live
          ∙ ap (then_on ((t2, b) ∷ more)) first
          ∙ one_round t2 b rest more d table k still)
