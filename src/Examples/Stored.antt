-- ===== src/Examples/Stored.antt =====
-- A user's mails, files and session in one storage server, as Examples/Backed has it.
use penn_mail_and_penn_drive.Base.{
  ◌+◌, ℕ, ◌<◌, ◌≡◌, refl, true, [], ◌∷◌, some, arith, if◌then◌else◌, ◌==◌, nat_eq, list_eq, pair_eq,
  ok, ◌>>=◌, length, get_elem?, ◌∙◌, beq_refl,
}
use penn_mail_and_penn_drive.Base.Text.{
  Text, codes, after, find, has_text, is_space, split, starts_with, stoi, stol,
}
use penn_mail_and_penn_drive.Base.Maps.{lookup, insert, erase, update}
use penn_mail_and_penn_drive.Server.{Store}
use penn_mail_and_penn_drive.Command.{get_tablet, generate_client_response}
use penn_mail_and_penn_drive.Store.{
  get, get_command_locks, execute_command, make_lock, unlock, put_value, erase_value, join_values,
}
use penn_mail_and_penn_drive.Frontend.Bytes.{stobs, bytob64}
use penn_mail_and_penn_drive.Frontend.Url.{params_from_url, url_decode}
use penn_mail_and_penn_drive.Smtp.{Session, live, verify_domain}
use penn_mail_and_penn_drive.Smtp.Delivery.{Services, deliver_one, deliver_all, more_eids}
use penn_mail_and_penn_drive.Smtp.Mails.{IsTable, IsStored, deliver_all-IsStored}
use penn_mail_and_penn_drive.Drive.{add_file, entry}
use penn_mail_and_penn_drive.Drive.Moves.{file_response, send_file}
use penn_mail_and_penn_drive.Drive.Renames.{send_file-add_file}
use penn_mail_and_penn_drive.Mailbox.{email_list}
use penn_mail_and_penn_drive.Mailbox.Lists.{
  email_list-deliver_one, services_of, delivered, letter_of, answered,
}
use penn_mail_and_penn_drive.Accounts.{Backend, auth_user, hash_at, success}
use penn_mail_and_penn_drive.Accounts.Login.{cookie_char, generate_cookie, set_cookies, login}
use penn_mail_and_penn_drive.Accounts.Cookies.{cookie_header}
use penn_mail_and_penn_drive.Accounts.Sessions.{IsBackend, login-auth_user}
use penn_mail_and_penn_drive.Examples.{empty_store}
use penn_mail_and_penn_drive.Examples.Mails.{sending, mail}
use penn_mail_and_penn_drive.Examples.Files.{ada}
use penn_mail_and_penn_drive.Examples.Mailboxes.{mailbox, path}
use penn_mail_and_penn_drive.Examples.Logins.{users}
use penn_mail_and_penn_drive.Examples.Backed.{backed, backed-IsTable, cell_in, filled, put_cell}

send_file-add_file_example :
    (r : Text) × (u : Store) × (add_file backed
        (codes "penn")
        ada
        (codes "/")
        (codes "/a")
        (stobs (codes "hi"))
        filled
      ≡ ok (r, u))
    × (send_file backed (codes "penn") ada (codes "/a") u
        ≡ ◌>>=◌ {B = Text × Store}
            (file_response (codes "/a") (bytob64 (codes "hi")))
            (λ response. ok (response, u)))
unfolding has_text lookup find is_space stobs get_tablet get_command_locks execute_command split
    make_lock insert erase unlock put_value erase_value join_values get update starts_with
    generate_client_response
send_file-add_file_example =
    send_file-add_file backed backed-IsTable ada (codes "/") (codes "/a") b'p' (codes "enn")
      (codes "hi") filled (omega arith) (λ e. cc) refl (refl, refl)

abbrev mail_server : Services Store
mail_server = services_of backed (λ s. codes "0f")

abbrev served-IsTable : IsTable mail_server
served-IsTable = record { cell = cell_in; get_cell = λ row col t key. refl; put_cell = put_cell }

deliver_all-IsStored_example :
    (d : Session) × (u : Store) × (deliver_all mail_server 1
        (live (codes "bob@penn") ∷ [])
        mail
        (sending, empty_store)
      ≡ ok (d, u))
    × (length d.replies ≡ length sending.replies + 1)
    × ((i : ℕ) (a : Text)
        → i < 1
        → get_elem? (live (codes "bob@penn") ∷ []) i ≡ some (live a)
        → IsStored mail_server served-IsTable mail u a)
unfolding verify_domain has_text find is_space lookup more_eids deliver_one get_tablet
    get_command_locks execute_command split make_lock insert erase unlock put_value join_values get
    update starts_with generate_client_response
deliver_all-IsStored_example =
    deliver_all-IsStored mail_server served-IsTable mail 1 (live (codes "bob@penn") ∷ []) sending
      empty_store (λ e. cc) refl ((refl, refl), tt)

abbrev with_mails : Store
with_mails = record empty_store { table = λ t. if t == get_tablet ada then mailbox else [] }

abbrev after_delivery : Store
after_delivery =
    delivered backed backed-IsTable (λ s. s) (letter_of (codes "0f") (codes "{}") true) ada
      with_mails

email_list-deliver_one_example :
    email_list backed (codes "penn") ada path after_delivery
    ≡ answered backed (codes "penn") ada (codes "{}") after_delivery
unfolding params_from_url after entry stol stoi is_space has_text find stobs lookup more_eids
    get_tablet get_command_locks execute_command split make_lock insert erase unlock put_value
    join_values get update starts_with generate_client_response
email_list-deliver_one_example =
    email_list-deliver_one backed backed-IsTable (λ s. s) (codes "penn") ada path (codes "{}") true
      b'0' (codes "f") ((codes "limit", codes "1") ∷ (codes "offset", codes "0") ∷ []) with_mails
      after_delivery (omega arith) (omega arith) (omega arith) (λ e. cc) (refl, refl) refl
      (λ col. refl) refl refl refl

abbrev form_server : Backend Store
form_server = record {
  bend_connect = λ user s. ok (some s);
  bend_get = backed.bend_get;
  bend_put = backed.bend_put;
  hash = λ s. codes "0f";
}

form_server-IsBackend : IsBackend form_server
form_server-IsBackend = record {
  cell = cell_in;
  get_cell = λ row col t key. refl;
  put_cell = λ row col val t taken.
      put_cell row col val row col t taken ∙ rw (beq_refl row, beq_refl col) refl;
}

abbrev with_users : Store
with_users = record empty_store { table = λ t. if t == get_tablet (codes "ada") then users else [] }

abbrev with_cookie : Store
with_cookie =
    (form_server.bend_put (codes "ada") (codes "cookie") (generate_cookie (7 ∷ 40 ∷ []))
      with_users).1

login-auth_user_example :
    (u : Store) × (login form_server
        (generate_cookie (7 ∷ 40 ∷ []))
        (codes "email=ada&password=pw")
        with_users
      ≡ ok (
        (
          codes "Set-Cookie",
          set_cookies (generate_cookie (7 ∷ 40 ∷ [])) (codes "ada") (codes "Ada L"),
        )
            ∷ success (codes "0"),
        u,
      ))
    × (auth_user form_server
          ((
            codes "Cookie",
            cookie_header (generate_cookie (7 ∷ 40 ∷ [])) (codes "ada") (codes "Ada L"),
          )
            ∷ [])
          u
        ≡ ok (codes "ada", with_cookie))
unfolding lookup params_from_url url_decode entry hash_at is_space has_text find insert cookie_char
    get_tablet get_command_locks execute_command split make_lock unlock put_value join_values get
    update starts_with generate_client_response form_server-IsBackend
login-auth_user_example =
    login-auth_user form_server form_server-IsBackend (codes "email=ada&password=pw") (codes "ada")
      7 (40 ∷ []) ((codes "email", codes "ada") ∷ (codes "password", codes "pw") ∷ []) with_users
      with_users with_cookie refl refl refl refl refl refl refl refl refl
      (
        (omega arith, omega arith, refl),
        ((omega arith, omega arith, refl), ((omega arith, omega arith, refl), tt)),
      )
      (omega arith)
