-- ===== src/Examples/Mailboxes.antt =====
-- A user's mails and files, in a table that is a map.
use penn_mail_and_penn_drive.Base.{
  ◌≡◌, refl, true, ◌&&◌, [], ◌∷◌, arith, if◌then◌else◌, ◌=?◌, nat_eq, list_eq, pair_eq, ok, stopped,
  ◌>>=◌,
}
use penn_mail_and_penn_drive.Base.Text.{
  Text, codes, before, after, find, has_text, is_space, stoi, stol,
}
use penn_mail_and_penn_drive.Base.Maps.{lookup, insert, erase}
use penn_mail_and_penn_drive.Frontend.Bytes.{stobs, bytob64}
use penn_mail_and_penn_drive.Frontend.Strings.{ends_in, replace}
use penn_mail_and_penn_drive.Frontend.Url.{params_from_url}
use penn_mail_and_penn_drive.Drive.{entry, add_file}
use penn_mail_and_penn_drive.Drive.Moves.{
  is_err, file_response, send_file, rename_in, rename_moved_folder,
}
use penn_mail_and_penn_drive.Drive.Renames.{rename_in-renamed, send_file-add_file}
use penn_mail_and_penn_drive.Smtp.Delivery.{more_eids}
use penn_mail_and_penn_drive.Mailbox.{page_of, email_list, delete_email}
use penn_mail_and_penn_drive.Mailbox.Lists.{email_list-deliver_one, delivered, letter_of, answered}
use penn_mail_and_penn_drive.Examples.Mails.{Cells, cell_of}
use penn_mail_and_penn_drive.Examples.Files.{storage, cells-IsTable, ada, files}

abbrev pub mailbox : Cells
mailbox = ((ada, codes "eid_vector"), codes "00,01") ∷ []

abbrev pub path : Text
path = codes "/email-list?offset=0&limit=1"

abbrev after_delivery : Cells
after_delivery =
    delivered storage cells-IsTable (λ s. s) (letter_of (codes "0f") (codes "{}") true) ada mailbox

newest_mail :
    email_list storage (codes "penn") ada path after_delivery
    ≡ answered storage (codes "penn") ada (codes "{}") after_delivery
unfolding params_from_url after entry stol stoi is_space has_text find stobs lookup more_eids
newest_mail =
    email_list-deliver_one storage cells-IsTable (λ s. s) (codes "penn") ada path (codes "{}") true
      b'0' (codes "f") ((codes "limit", codes "1") ∷ (codes "offset", codes "0") ∷ []) mailbox
      after_delivery (omega arith) (omega arith) (omega arith) (λ e. cc) (refl, refl) refl
      (λ col. refl) refl refl refl

newest_first : page_of 1 2 (codes "1" ∷ codes "2" ∷ codes "3" ∷ []) ≡ codes "2" ∷ codes "1" ∷ []
unfolding page_of
newest_first = refl

-- The array for the text of the digest is overrun.
delete_overruns :
    delete_email storage
      (λ s. s)
      (codes "HTTP/1.1")
      (codes "penn")
      ada
      (codes "{\"sender\":\"a\",\"subject\":\"b\",\"timestamp\":\"c\"}")
      mailbox
    ≡ stopped
unfolding delete_email before
delete_overruns = refl

notes_renamed :
    (r : Text) × (u : Cells) × (rename_in storage
        (codes "penn")
        ada
        (codes "/")
        (codes "/notes")
        (codes "/text")
        files
      ≡ ok (r, u))
    × ((row col : Text)
        → cell_of u row col ≡ (
            if (ada =? row) && (codes "/text" =? col)
            then codes "01"
            else if (ada =? row) && (codes "/notes" =? col)
            then codes "-ERR 204 specific row and column does not exist."
            else if (ada =? row) && (codes "/" =? col)
            then codes "/text"
            else cell_of files row col))
unfolding has_text ends_in is_err lookup replace find is_space
notes_renamed =
    rename_in-renamed storage cells-IsTable ada b'p' (codes "enn") (codes "/") (codes "/notes")
      (codes "/text") files refl refl refl (λ e. cc) (refl, refl, refl, refl)

uploaded_and_sent :
    (r : Text) × (u : Cells) × (add_file storage
        (codes "penn")
        ada
        (codes "/")
        (codes "/a")
        (stobs (codes "hi"))
        files
      ≡ ok (r, u))
    × (send_file storage (codes "penn") ada (codes "/a") u
        ≡ ◌>>=◌ {B = Text × Cells}
            (file_response (codes "/a") (bytob64 (codes "hi")))
            (λ response. ok (response, u)))
unfolding has_text lookup find is_space stobs
uploaded_and_sent =
    send_file-add_file storage cells-IsTable ada (codes "/") (codes "/a") b'p' (codes "enn")
      (codes "hi") files (omega arith) (λ e. cc) refl (refl, refl)

-- Both files of a folder that is moved get the same path, and the second takes the first one's
-- place.
moved_together :
    rename_moved_folder storage ada
      (codes "../,/b/x,/b/y")
      (codes "b/")
      (codes "/c/")
      (((ada, codes "/b/x"), codes "0") ∷ ((ada, codes "/b/y"), codes "1") ∷ [])
    ≡ ok (codes "../,/c/b/,/c/b/", ((ada, codes "/c/b/"), codes "1") ∷ [])
unfolding rename_moved_folder insert erase lookup
moved_together = refl
