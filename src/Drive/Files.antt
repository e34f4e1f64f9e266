-- ===== src/Drive/Files.antt =====
-- Uploading and deleting a file: what the two do to the table.
use penn_mail_and_penn_drive.Frontend.Cells.{is_key, put_taken, delete_taken}
use penn_mail_and_penn_drive.Base.{
  ℕ, true, arith, ◌≡◌, refl, sym, subst, ◌≢◌, inl, inr, false, ◌&&◌, [], ◌∷◌, ◌++◌, Bool-cases,
  ◌=?◌, nat_eq, list_eq, pair_eq, beq_refl, ok, stopped,
}
use penn_mail_and_penn_drive.Base.Text.{Text, Lacks, codes, has_text}
use penn_mail_and_penn_drive.Smtp.Delivery.{no_such_cell}
use penn_mail_and_penn_drive.Base.Maps.{Map}
use penn_mail_and_penn_drive.Frontend.Json.{parse_json_string}
use penn_mail_and_penn_drive.Drive.{
  Storage, entry, erase_path, put_paths, stored_code, deleted_code, remove_file, add_file,
  store_value, delete_file,
}
use penn_mail_and_penn_drive.Drive.Lists.{
  IsTable, erase_path-added, erase_path-missing, answered, unlike, both,
}

module _ {T : Type 0} (storage : Storage T) (table : IsTable storage)
    (user folder path : Text) where
  -- What an upload and a deletion put into the table.
  abbrev pub uploaded : Text → Text → T → T
  uploaded paths value t =
      (storage.bend_put user path value (storage.bend_put user folder paths t).1).1

  abbrev removed : Text → T → T
  removed paths t = (storage.bend_delete user path (storage.bend_put user folder paths t).1).1

  -- Both PUTs of an upload can be carried and are answered +OK.
  abbrev pub IsUploadTaken : Text → Text → T → Type 0
  IsUploadTaken paths value t =
      let (status, u) = storage.bend_put user folder paths t in
      (put_taken user folder paths status ≡ true)
      × (put_taken user path value (storage.bend_put user path value u).0 ≡ true)

  -- The PUT and the DELETE of a deletion can be carried and are answered +OK.
  abbrev pub IsRemovalTaken : Text → T → Type 0
  IsRemovalTaken paths t =
      let (status, u) = storage.bend_put user folder paths t in
      (put_taken user folder paths status ≡ true)
      × (delete_taken user path (storage.bend_delete user path u).0 ≡ true)

  folder_uploaded :
      (paths value : Text) (t : T)
      → IsUploadTaken paths value t
      → path ≢ folder
      → table.cell (uploaded paths value t) user folder ≡ paths
  folder_uploaded paths value t taken apart =
      rw
        (
          table.put_cell user path value user folder (storage.bend_put user folder paths t).1
              taken.1,
          unlike path folder apart,
          beq_refl user,
          table.put_cell user folder paths user folder t taken.0,
          beq_refl user,
          beq_refl folder,
        )
        refl

  -- The two together change no cell.
  removed-uploaded :
      (longer value row col : Text) (t : T)
      → IsUploadTaken longer value t
      → IsRemovalTaken (table.cell t user folder) (uploaded longer value t)
      → table.cell t user path ≡ no_such_cell
      → table.cell (removed (table.cell t user folder) (uploaded longer value t)) row col
        ≡ table.cell t row col
  removed-uploaded longer value row col t put_both removal h =
      let u = uploaded longer value t in
      let v = (storage.bend_put user folder (table.cell t user folder) u).1 in
      elim (Bool-cases ((user =? row) && (path =? col))) [
        | inl e ↦
            let (p, q) = both user row path col e in
            rw (table.delete_cell user path row col v removal.1, e)
              (subst (λ c. no_such_cell ≡ table.cell t row c) q
                (subst (λ r. no_such_cell ≡ table.cell t r path) p (sym h)))
        | inr e ↦ elim (Bool-cases ((user =? row) && (folder =? col))) [
          | inl g ↦
              let (p, q) = both user row folder col g in
              rw
                (
                  table.delete_cell user path row col v removal.1,
                  e,
                  table.put_cell user folder (table.cell t user folder) row col u removal.0,
                  g,
                )
                (subst (λ c. table.cell t user folder ≡ table.cell t row c) q
                  (subst (λ r. table.cell t user folder ≡ table.cell t r folder) p refl))
          | inr g ↦
              rw
                (
                  table.delete_cell user path row col v removal.1,
                  e,
                  table.put_cell user folder (table.cell t user folder) row col u removal.0,
                  g,
                  table.put_cell user path value row col (storage.bend_put user folder longer t).1
                      put_both.1,
                  e,
                  table.put_cell user folder longer row col t put_both.0,
                  g,
                )
                refl
        ]
      ]

  pub add_file-runs :
      (x : ℕ) (host value : Text) (t : T)
      → is_key user folder ≡ true
      → table.cell t user folder ≢ no_such_cell
      → has_text path (table.cell t user folder) ≡ false
      → (r : Text) × (add_file storage (x ∷ host) user folder path value t
          ≡ ok (r, uploaded (table.cell t user folder ++ b',' ∷ path) value t))
  unfolding add_file store_value
  add_file-runs x host value t key some_list fresh =
      let longer = table.cell t user folder ++ b',' ∷ path in
      let (status, u) =
        storage.bend_put user path value (storage.bend_put user folder longer t).1 in
      let (r, e) = answered (stored_code status) x host u in
      (
        r,
        rw
            (
              add_file,
              table.get_cell user folder t key,
              unlike (table.cell t user folder) no_such_cell some_list,
              fresh,
            )
            e,
      )

  remove_file-runs :
      (x : ℕ) (host paths : Text) (t : T)
      → is_key user folder ≡ true
      → paths ≢ []
      → erase_path path (table.cell t user folder) ≡ ok paths
      → (r : Text) × (remove_file storage (x ∷ host) user folder path t ≡ ok (r, removed paths t))
  unfolding remove_file put_paths
  remove_file-runs x host [] t key full e = absurd (full refl)
  remove_file-runs x host (y ∷ paths) t key full e =
      let (status, u) =
        storage.bend_delete user path (storage.bend_put user folder (y ∷ paths) t).1 in
      let (r, g) = answered (deleted_code status) x host u in
      (r, rw (remove_file, table.get_cell user folder t key, e) g)

  -- Uploading a file and deleting it again gives the table that was there before: both requests
  -- are answered, and then every cell has what it had. The folder has a list, in which the path is
  -- not found, the path is not empty, holds no comma and is not that of the folder, and nothing
  -- is stored under it. The three PUTs and the DELETE of the two requests are answered +OK, and a
  -- command can carry their keys and values: the user, the folder and the path are not empty and
  -- hold no white space, the user is not `passwd`, and the values are not empty, hold no line end and
  -- do not end in white space.
  pub add_file-remove_file :
      (x : ℕ) (host value : Text) (t : T)
      → Lacks b',' path
      → path ≢ []
      → path ≢ folder
      → table.cell t user folder ≢ []
      → table.cell t user folder ≢ no_such_cell
      → has_text path (table.cell t user folder) ≡ false
      → table.cell t user path ≡ no_such_cell
      → IsUploadTaken (table.cell t user folder ++ b',' ∷ path) value t
      → IsRemovalTaken
          (table.cell t user folder)
          (uploaded (table.cell t user folder ++ b',' ∷ path) value t)
      → (r : Text) × (u : T) × (s : Text) × (v : T) × (add_file storage
            (x ∷ host)
            user
            folder
            path
            value
            t
          ≡ ok (r, u))
        × (remove_file storage (x ∷ host) user folder path u ≡ ok (s, v))
        × ((row col : Text) → table.cell v row col ≡ table.cell t row col)
  add_file-remove_file x host value t lacks named apart full some_list fresh free put_both removal =
      let paths = table.cell t user folder in
      let longer = paths ++ b',' ∷ path in
      let u = uploaded longer value t in
      let key : is_key user folder ≡ true = ground (arith, put_both.0) in
      let (r, e) = add_file-runs x host value t key some_list fresh in
      let (s, g) = remove_file-runs x host paths u key full (
        rw (folder_uploaded longer value t put_both apart)
          (erase_path-added path paths lacks named fresh)) in
      (
        r,
        u,
        s,
        removed paths u,
        e,
        g,
        λ row col. removed-uploaded longer value row col t put_both removal free,
      )

  -- Deleting a file that its folder's list does not name is answered by nothing: the program ends.
  -- The user is logged in and reaches a storage server, and the body names the folder and the file.
  pub delete_file-missing :
      (vno host body : Text) (x : ℕ) (name : Text) (t u : T) (params : Map Text Text)
      → user ≡ x ∷ name
      → storage.reach user t ≡ ok u
      → parse_json_string body ≡ ok params
      → entry (codes "folder") params ≡ folder
      → entry (codes "file") params ≡ path
      → is_key user folder ≡ true
      → has_text path (table.cell u user folder) ≡ false
      → delete_file storage vno host user body t ≡ stopped
  unfolding delete_file remove_file
  delete_file-missing vno host body x name t u params user_name reached parsed e g key missing =
      subst (λ w. delete_file storage vno host w body t ≡ stopped) (sym user_name)
        (rw
          (
            delete_file,
            subst (λ w. storage.reach w t ≡ ok u) user_name reached,
            parsed,
            e,
            g,
            table.get_cell (x ∷ name) folder u (subst (λ w. is_key w folder ≡ true) user_name key),
            erase_path-missing path (table.cell u (x ∷ name) folder)
                (subst (λ w. has_text path (table.cell u w folder) ≡ false) user_name missing),
          )
          refl)
