-- ===== src/Examples/Files.antt =====
-- A user's files, in a table that is a map.
use penn_mail_and_penn_drive.Base.{
  ◌≡◌, refl, ap, ◌∙◌, Bool, true, false, ◌&&◌, Option, none, some, [], ◌∷◌, arith, if◌then◌else◌,
  ◌=?◌, nat_eq, list_eq, pair_eq, ok, stopped,
}
use penn_mail_and_penn_drive.Base.Text.{Text, codes, is_space, find, has_text}
use penn_mail_and_penn_drive.Base.Maps.{lookup, insert, erase, lookup-insert, lookup-erase}
use penn_mail_and_penn_drive.Smtp.Delivery.{no_such_cell}
use penn_mail_and_penn_drive.Frontend.Json.{parse_json_string}
use penn_mail_and_penn_drive.Drive.{
  Storage, entry, names_body, erase_path, delete_file, remove_file, add_file,
}
use penn_mail_and_penn_drive.Drive.Lists.{IsTable}
use penn_mail_and_penn_drive.Drive.Files.{add_file-remove_file, delete_file-missing}
use penn_mail_and_penn_drive.Examples.Mails.{Cells, cell_of}

abbrev pub storage : Storage Cells
storage = record {
  reach = λ user t. ok t;
  bend_get = λ row col t. (cell_of t row col, t);
  bend_put = λ row col val t. (codes "+OK", insert (row, col) val t);
  bend_delete = λ row col t. (codes "+OK", erase (row, col) t);
}

pub either :
    (b : Bool) (o p : Option Text)
    → (elim (if b then o else p) [ none ↦ no_such_cell | some v ↦ v ]) ≡ (
        if b
        then elim o [ none ↦ no_such_cell | some v ↦ v ]
        else (elim p [ none ↦ no_such_cell | some v ↦ v ]))
either true o p = refl
either false o p = refl

abbrev pub cells-IsTable : IsTable storage
cells-IsTable = record {
  cell = cell_of;
  get_cell = λ row col t key. refl;
  put_cell = λ row col val row' col' t taken.
      ap (λ o. elim o [ none ↦ no_such_cell | some v ↦ v ])
        (lookup-insert (row, col) (row', col') val t)
      ∙ either ((row =? row') && (col =? col')) (some val) (lookup (row', col') t);
  delete_cell = λ row col row' col' t taken.
      ap (λ o. elim o [ none ↦ no_such_cell | some v ↦ v ]) (lookup-erase (row, col) (row', col') t)
      ∙ either ((row =? row') && (col =? col')) none (lookup (row', col') t);
}

abbrev pub ada : Text
ada = codes "ada@penn"

abbrev pub files : Cells
files = ((ada, codes "/"), codes "/notes") ∷ ((ada, codes "/notes"), codes "01") ∷ []

-- The path that is deleted is found in front of a longer one, which goes instead.
erase_part : erase_path (codes "/a") (codes "/ab,/a") ≡ ok (codes ",/a")
unfolding erase_path find
erase_part = refl

listed : names_body (codes "/notes,/b/") ≡ codes "[{\"name\": \"notes\"},{\"name\": \"b/\"}]"
unfolding names_body
listed = refl

uploaded_and_deleted :
    (r : Text) × (u : Cells) × (s : Text) × (v : Cells) × (add_file storage
        (codes "penn")
        ada
        (codes "/")
        (codes "/a")
        (codes "10")
        files
      ≡ ok (r, u))
    × (remove_file storage (codes "penn") ada (codes "/") (codes "/a") u ≡ ok (s, v))
    × ((row col : Text) → cell_of v row col ≡ cell_of files row col)
unfolding has_text lookup is_space find
uploaded_and_deleted =
    add_file-remove_file storage cells-IsTable ada (codes "/") (codes "/a") b'p' (codes "enn")
      (codes "10") files (omega arith, (omega arith, tt)) (λ e. cc) (λ e. cc) (λ e. cc) (λ e. cc)
      refl refl (refl, refl) (refl, refl)

missing_file :
    delete_file storage
      (codes "HTTP/1.1")
      (codes "penn")
      ada
      (codes "{\"folder\":\"/\",\"file\":\"/a\"}")
      files
    ≡ stopped
unfolding parse_json_string entry has_text is_space
missing_file =
    delete_file-missing storage cells-IsTable ada (codes "/") (codes "/a") (codes "HTTP/1.1")
      (codes "penn") (codes "{\"folder\":\"/\",\"file\":\"/a\"}") b'a' (codes "da@penn") files files
      ((codes "file", codes "/a") ∷ (codes "folder", codes "/") ∷ []) refl refl refl refl refl refl
      refl
