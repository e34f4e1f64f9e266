-- ===== src/Drive/Renames.antt =====
-- Renaming and downloading a file: what the two do to the table, and what is answered.
use penn_mail_and_penn_drive.Base.{
  ℕ, ◌≡◌, refl, ◌∙◌, arith, ◌≢◌, true, false, ◌&&◌, ◌∷◌, ◌++◌, if◌then◌else◌, ◌=?◌, nat_eq, list_eq,
  pair_eq, beq_refl, All, ok, ◌>>=◌,
}
use penn_mail_and_penn_drive.Base.Text.{Text, has_text}
use penn_mail_and_penn_drive.Frontend.Strings.{ends_in, replace}
use penn_mail_and_penn_drive.Frontend.Bytes.{stobs, bytob64}
use penn_mail_and_penn_drive.Frontend.Bytes.Laws.{Byte, bstoby-stobs}
use penn_mail_and_penn_drive.Smtp.Delivery.{no_such_cell}
use penn_mail_and_penn_drive.Drive.{Storage, add_file, store_value, stored_code}
use penn_mail_and_penn_drive.Drive.Lists.{IsTable, answered, unlike, stobs-ne-no_such_cell}
use penn_mail_and_penn_drive.Frontend.Cells.{is_key, put_taken, delete_taken}
use penn_mail_and_penn_drive.Drive.Files.{IsUploadTaken, uploaded, add_file-runs}
use penn_mail_and_penn_drive.Drive.Moves.{
  is_err, file_response, decoded_response, send_file, replace_cell, rename_listed, rename_in,
}

module _ {T : Type 0} (storage : Storage T) (table : IsTable storage) (user : Text) where
  -- The table after a file was renamed.
  abbrev renamed : Text → Text → Text → T → T
  renamed parent old new t =
      let fids = replace (table.cell t user parent) old new in
      let s = (storage.bend_put user parent fids t).1 in
      (storage.bend_put user new (table.cell t user old) (storage.bend_delete user old s).1).1

  -- The PUT of the list, the DELETE of the old path and the PUT of the new one can be carried and
  -- are answered +OK, and the answer to the DELETE is no error.
  abbrev pub IsRenamingTaken : Text → Text → Text → T → Type 0
  IsRenamingTaken parent old new t =
      let fids = replace (table.cell t user parent) old new in
      let (status, s) = storage.bend_put user parent fids t in
      let (deleted, v) = storage.bend_delete user old s in
      (put_taken user parent fids status ≡ true)
      × (delete_taken user old deleted ≡ true)
      × (is_err deleted ≡ false)
      × (put_taken user new (table.cell t user old)
            (storage.bend_put user new (table.cell t user old) v).0
          ≡ true)

  renamed-cell :
      (parent old new row col : Text) (t : T)
      → IsRenamingTaken parent old new t
      → table.cell (renamed parent old new t) row col ≡ (
          if (user =? row) && (new =? col)
          then table.cell t user old
          else if (user =? row) && (old =? col)
          then no_such_cell
          else if (user =? row) && (parent =? col)
          then replace (table.cell t user parent) old new
          else table.cell t row col)
  renamed-cell parent old new row col t taken =
      let fids = replace (table.cell t user parent) old new in
      let s = (storage.bend_put user parent fids t).1 in
      rw
        (
          table.put_cell user new (table.cell t user old) row col (storage.bend_delete user old s).1
              taken.3,
          table.delete_cell user old row col s taken.1,
          table.put_cell user parent fids row col t taken.0,
        )
        refl

  replace_cell-runs :
      (x : ℕ) (host old new value : Text) (t : T)
      → is_err (storage.bend_delete user old t).0 ≡ false
      → (r : Text) × (replace_cell storage (x ∷ host) user old new value t
          ≡ ok (r, (storage.bend_put user new value (storage.bend_delete user old t).1).1))
  unfolding replace_cell store_value
  replace_cell-runs x host old new value t fine =
      let (status, u) = storage.bend_put user new value (storage.bend_delete user old t).1 in
      let (r, e) = answered (stored_code status) x host u in (r, rw (replace_cell, fine) e)

  pub rename_in-renamed :
      (x : ℕ) (host parent old new : Text) (t : T)
      → has_text new (table.cell t user parent) ≡ false
      → has_text old (table.cell t user parent) ≡ true
      → ends_in b'/' old ≡ false
      → parent ≢ old
      → IsRenamingTaken parent old new t
      → (r : Text) × (u : T) × (rename_in storage (x ∷ host) user parent old new t ≡ ok (r, u))
        × ((row col : Text)
            → table.cell u row col ≡ (
                if (user =? row) && (new =? col)
                then table.cell t user old
                else if (user =? row) && (old =? col)
                then no_such_cell
                else if (user =? row) && (parent =? col)
                then replace (table.cell t user parent) old new
                else table.cell t row col))
  unfolding rename_in rename_listed
  rename_in-renamed x host parent old new t fresh listed plain apart taken =
      let fids = replace (table.cell t user parent) old new in
      let s = (storage.bend_put user parent fids t).1 in
      let same : table.cell s user old ≡ table.cell t user old =
        (table.put_cell user parent fids user old t taken.0
          ∙ rw (beq_refl user, unlike parent old apart) refl) in
      let (r, e) = replace_cell-runs x host old new (table.cell t user old) s taken.2 in
      let at_parent : is_key user parent ≡ true = ground (arith, taken.0) in
      let at_old : is_key user old ≡ true = ground (arith, taken.1) in
      (
        r,
        renamed parent old new t,
        rw
            (
              rename_in,
              table.get_cell user parent t at_parent,
              fresh,
              listed,
              rename_listed,
              plain,
              table.get_cell user old s at_old,
              same,
            )
            e,
        λ row col. renamed-cell parent old new row col t taken,
      )

module _ {T : Type 0} (storage : Storage T) (table : IsTable storage)
    (user folder path : Text) where
  -- A file that was uploaded is downloaded with its bytes: the upload is answered, and the download
  -- answers with the bytes in base 64. The folder has a list, in which the path is not found. The
  -- two PUTs of the upload are answered +OK, and a command can carry their keys and values: the user,
  -- the folder and the path are not empty and hold no white space, the user is not `passwd`, and the
  -- values are not empty, hold no line end and do not end in white space.
  pub send_file-add_file :
      (x : ℕ) (host body : Text) (t : T)
      → All Byte body
      → table.cell t user folder ≢ no_such_cell
      → has_text path (table.cell t user folder) ≡ false
      → IsUploadTaken storage table user folder path
          (table.cell t user folder ++ b',' ∷ path)
          (stobs body)
          t
      → (r : Text) × (u : T) × (add_file storage (x ∷ host) user folder path (stobs body) t
          ≡ ok (r, u))
        × (send_file storage (x ∷ host) user path u
            ≡ ◌>>=◌ {B = Text × T}
                (file_response path (bytob64 body))
                (λ response. ok (response, u)))
  unfolding send_file decoded_response
  send_file-add_file x host body t bytes some_list fresh taken =
      let at_folder : is_key user folder ≡ true = ground (arith, taken.0) in
      let at_path : is_key user path ≡ true = ground (arith, taken.1) in
      let longer = table.cell t user folder ++ b',' ∷ path in
      let u = uploaded storage table user folder path longer (stobs body) t in
      let (r, e) =
        add_file-runs storage table user folder path x host (stobs body) t at_folder some_list
          fresh in
      let stored : table.cell u user path ≡ stobs body =
        (table.put_cell user path (stobs body) user path (storage.bend_put user folder longer t).1
            taken.1
          ∙ rw (beq_refl user, beq_refl path) refl) in
      (
        r,
        u,
        e,
        rw
            (
              send_file,
              table.get_cell user path u at_path,
              stored,
              unlike (stobs body) no_such_cell (stobs-ne-no_such_cell body),
              bstoby-stobs body bytes,
            )
            refl,
      )
