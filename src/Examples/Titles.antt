-- ===== src/Examples/Titles.antt =====
-- A subject of 130 bytes.
use penn_mail_and_penn_drive.Base.{ℕ, zero, suc, ◌≡◌, [], ◌∷◌, arith, ok}
use penn_mail_and_penn_drive.Base.Text.{Text, before}
use penn_mail_and_penn_drive.Smtp.{start_session}
use penn_mail_and_penn_drive.Smtp.Worker.{read_lines}
use penn_mail_and_penn_drive.Mailbox.Sending.{title_line}
use penn_mail_and_penn_drive.Mailbox.Sending.Titles.{title_line-waits}

abbrev letters : ℕ → Text
letters zero = []
letters (suc n) = b'a' ∷ letters n

title_line-waits_example :
    read_lines (title_line (letters 130)) (start_session, [])
    ≡ ok (start_session, title_line (letters 130))
unfolding before
title_line-waits_example = title_line-waits (letters 130) start_session (ground arith) (omega arith)
