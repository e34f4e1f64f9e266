-- ===== src/Mailbox/Sending.antt =====
-- `/send-email` of `handle_POST` in frontend/src/http.cc, and what it calls of
-- frontend/src/email.cc: the conversation with a mail server.
pub mod Titles
use penn_mail_and_penn_drive.Base.{
  ℕ, Bool, Option, none, some, List, [], ◌∷◌, ◌++◌, take, if◌then◌else◌, ◌=?◌, nat_eq, list_eq,
  Outcome, ok, ◌>>=◌,
}
use penn_mail_and_penn_drive.Base.Text.{Text, codes, after, starts_with}
use penn_mail_and_penn_drive.Base.Maps.{Map}
use penn_mail_and_penn_drive.Frontend.Json.{parse_json_string}
use penn_mail_and_penn_drive.Smtp.{c_string}
use penn_mail_and_penn_drive.Drive.{entry, create_http_response, login_failure}

-- The mail servers behind their sockets. `mail_exchanger` is the first host of the sorted answer of
-- the domain name system; `receive` gives the bytes of one read, `do_read` those up to a line end.
pub record Hosts (T : Type 0) : Type 0 where
  pub mail_exchanger : Text → Option Text
  pub connect_smtp_server : Text → T → Option T
  pub create_connect_socket : T → Option T
  pub send : Text → T → T
  pub receive : T → Text × T
  pub do_read : T → Text × T

-- `snprintf` into 128 bytes, the last of which is the zero.
unfoldable pub snprintf : Text → Text
snprintf s = take 127 s

abbrev pub peer_helo_line : Text → Text
peer_helo_line recipient = c_string (codes "HELO " ++ (recipient ++ codes "\r\n"))

unfoldable pub mail_from_line : Text → Text
unfolding snprintf
mail_from_line user = snprintf (codes "MAIL FROM:<" ++ (c_string user ++ codes ">\r\n"))

unfoldable pub title_line : Text → Text
unfolding snprintf
title_line subject = snprintf (codes "TITLE " ++ (c_string subject ++ codes "\r\n"))

unfoldable pub rcpt_to_line : Text → Text
unfolding snprintf
rcpt_to_line recipient = snprintf (codes "RCPT TO:<" ++ (c_string recipient ++ codes ">\r\n"))

-- The mail for another host; `now` is the time as a number, `current_time` that of `ctime`.
unfoldable pub outgoing_message : Text → Text → Text → Text → Text → Text → Text
outgoing_message now current_time user recipient subject message =
    codes "From: <"
    ++ (user
        ++ (codes ">\r\nTo: <"
            ++ (recipient
                ++ (codes ">\r\nSubject: "
                    ++ (subject
                        ++ (codes "\r\nDate: "
                            ++ (current_time
                                ++ (codes "Message-ID: <"
                                    ++ (now
                                        ++ (codes "."
                                            ++ (now
                                                ++ (codes "@penncloud.com>\r\n\r\n\r\n"
                                                    ++ (c_string message
                                                        ++ codes "\r\n")))))))))))))

module _ {T : Type 0} (hosts : Hosts T) (host user recipient subject message : Text) where
  -- A command, and what is read behind it.
  abbrev ask : Text → T → Text × T
  ask command t = hosts.receive (hosts.send command t)

  abbrev ask_line : Text → T → Text × T
  ask_line line t = hosts.do_read (hosts.send line t)

  -- Of the answers only the last counts.
  unfoldable pub send_external : Text → Text → T → Outcome (Text × T)
  unfolding after outgoing_message starts_with create_http_response
  send_external now current_time t =
      let domain = after b'@' recipient in
      elim (hosts.mail_exchanger domain) as (λ _. Outcome (Text × T)) [
        | none ↦ create_http_response 404 [] host >>= λ r. ok (r, t)
        | some mx ↦ elim (hosts.connect_smtp_server mx t) as (λ _. Outcome (Text × T)) [
          | none ↦ create_http_response 500 [] host >>= λ r. ok (r, t)
          | some t1 ↦
              let t2 = (hosts.receive t1).1 in
              let t3 = (ask (codes "EHLO " ++ (domain ++ codes "\r\n")) t2).1 in
              let t4 = (ask (codes "MAIL FROM:<" ++ (user ++ codes ">\r\n")) t3).1 in
              let t5 = (ask (codes "RCPT TO:<" ++ (recipient ++ codes ">\r\n")) t4).1 in
              let t6 = (ask (codes "DATA\r\n") t5).1 in
              let t7 =
                hosts.send (outgoing_message now current_time user recipient subject message) t6 in
              let (status, t8) = ask (codes ".\r\n") t7 in
              create_http_response (if starts_with (codes "250") status then 200 else 500) [] host
              >>= λ r. ok (r, t8)
        ]
      ]

  -- The mail server of the program. An answer that is neither `+OK` nor `-ERR`, here `none`, leads
  -- to the redirection behind all requests.
  unfoldable pub send_internal : T → Outcome (Option Text × T)
  unfolding mail_from_line title_line rcpt_to_line starts_with create_http_response
  send_internal t = elim (hosts.create_connect_socket t) as (λ _. Outcome (Option Text × T)) [
    | none ↦ create_http_response 500 [] host >>= λ r. ok (some r, t)
    | some t1 ↦
        let t2 = (hosts.do_read t1).1 in
        let t3 = (ask_line (peer_helo_line recipient) t2).1 in
        let t4 = (ask_line (mail_from_line user) t3).1 in
        let t5 = (ask_line (title_line subject) t4).1 in
        let t6 = (ask_line (rcpt_to_line recipient) t5).1 in
        let t7 = (ask_line (codes "DATA\r\n") t6).1 in
        let t8 = hosts.send (c_string message ++ codes "\r\n") t7 in
        let (status, t9) = ask_line (codes ".\r\n") t8 in
        if starts_with (codes "+OK") status
        then (create_http_response 200 [] host >>= λ r. ok (some r, t9))
        else if starts_with (codes "-ERR") status
        then (create_http_response 500 [] host >>= λ r. ok (some r, t9))
        else ok (none, t9)
  ]

-- A request of `user`, who has to be logged in.
unfoldable pub send_email :
    {T : Type 0} → Hosts T → Text → Text → Text → Text → Text → Text → T → Outcome (Option Text × T)
unfolding login_failure parse_json_string entry after send_external send_internal
send_email hosts now current_time vno host [] body t = ok (some (login_failure vno), t)
send_email hosts now current_time vno host (x ∷ user) body t = parse_json_string body >>= λ params.
    let recipient = entry (codes "recipient") params in
    let subject = entry (codes "subject") params in
    let message = entry (codes "message") params in
    if after b'@' recipient =? codes "penncloud.com"
    then send_internal hosts host (x ∷ user) recipient subject message t
    else (send_external hosts host (x ∷ user) recipient subject message now current_time t
        >>= λ (r, u). ok (some r, u))
