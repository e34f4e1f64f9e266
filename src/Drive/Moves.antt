-- ===== src/Drive/Moves.antt =====
-- `/rename-file`, `/move-file` and `/download` of `frontend/src/http.cc`, and `renameFolder` and
-- `renameMovedFolder` of `frontend/src/stringutils.cc`.
use penn_mail_and_penn_drive.Base.{
  ℕ, Bool, not, ◌&&◌, Option, none, some, List, [], ◌∷◌, ◌++◌, ltb, if◌then◌else◌, ◌=?◌, nat_eq,
  list_eq, pair_eq, length, drop, Outcome, ok, stopped, ◌>>=◌,
}
use penn_mail_and_penn_drive.Base.Text.{Text, codes, after, starts_with, has_text, split, to_string}
use penn_mail_and_penn_drive.Frontend.Bytes.{bstoby, bytob64}
use penn_mail_and_penn_drive.Frontend.Chunks.{write_to_chunk_transfer}
use penn_mail_and_penn_drive.Frontend.Json.{parse_json_string}
use penn_mail_and_penn_drive.Frontend.Strings.{drop_last, ends_in, file_name_from_path, replace}
use penn_mail_and_penn_drive.Frontend.Url.{params_from_url}
use penn_mail_and_penn_drive.Smtp.Delivery.{no_such_cell}
use penn_mail_and_penn_drive.Drive.{
  Storage, entry, create_http_response, login_failure, erase_path, store_value,
}

-- `status.rfind("-ERR") == 0`: the last one stands at the start.
unfoldable pub is_err : Text → Bool
is_err status = starts_with (codes "-ERR") status && not (has_text (codes "-ERR") (drop 1 status))

-- `new_file_data.pop_back()` of an empty text is undefined.
unfoldable pub popped : Text → Outcome Text
unfolding drop_last
popped [] = stopped
popped (x ∷ s) = ok (drop_last (x ∷ s))

-- The header of a download, with a length or in chunks.
unfoldable pub file_response : Text → Text → Outcome Text
unfolding write_to_chunk_transfer file_name_from_path to_string
file_response file base64 =
    let head =
      codes
        "HTTP/1.1 200 OK\r\nAccess-Control-Allow-Origin: *\r\nAccess-Control-Allow-Methods: DELETE, POST, GET, OPTIONS\r\nAccess-Control-Allow-Headers: content-type, x-file-name, x-file-path\r\nContent-Type: application/octet-stream\r\nContent-Disposition: attachment; filename=\""
      ++ (file_name_from_path file ++ codes "\"\r\n") in
    if ltb (length base64) 1048576
    then ok (
        head
        ++ (codes "Content-Length: "
            ++ (to_string (length base64) ++ (codes "\r\n\r\n" ++ base64))))
    else (write_to_chunk_transfer base64 65536 >>= λ chunks.
        ok (head ++ (codes "Transfer-Encoding: chunked\r\n\r\n" ++ chunks)))

-- Bits that are not 0 or 1 throw.
unfoldable pub decoded_response : Text → Option (List ℕ) → Outcome Text
unfolding file_response bytob64
decoded_response file none = stopped
decoded_response file (some bytes) = file_response file (bytob64 bytes)

module _ {T : Type 0} (storage : Storage T) where
  unfoldable pub send_file : Text → Text → Text → T → Outcome (Text × T)
  unfolding decoded_response create_http_response
  send_file host user file t =
      let r = storage.bend_get user file t in
      (if r.0 =? no_such_cell
        then create_http_response 404 [] host
        else decoded_response file (bstoby r.0))
      >>= λ response. ok (response, r.1)

  -- `/download`
  unfoldable pub download : Text → Text → Text → Text → T → Outcome (Text × T)
  unfolding login_failure after params_from_url entry send_file
  download vno host [] path t = ok (login_failure vno, t)
  download vno host (x ∷ user) path t = do
    u ← storage.reach (x ∷ user) t
    params ← params_from_url (after b'?' path)
    send_file host (x ∷ user) (entry (codes "file") params) u

  -- A file gets another path.
  unfoldable pub move_cell : Text → Text → Text → T → T
  move_cell user path full_name t =
      let r = storage.bend_get user path t in
      (storage.bend_put user full_name r.0 (storage.bend_delete user path r.1).1).1

  -- The entries of a folder, each with a comma behind it. `name` gives a file's new path; a folder
  -- in the folder leaves an empty entry, and `back` of an empty entry is undefined.
  unfoldable pub rename_entries : (Text → Text) → Text → List Text → T → Outcome (Text × T)
  unfolding ends_in move_cell
  rename_entries name user [] t = ok ([], t)
  rename_entries name user ([] ∷ paths) t = stopped
  rename_entries name user ((x ∷ path) ∷ paths) t =
      let i = x ∷ path in
      let kept = rename_entries name user paths t in
      let moved = rename_entries name user paths (move_cell user i (name i) t) in
      if i =? codes "../"
      then (kept >>= λ r. ok (i ++ b',' ∷ r.0, r.1))
      else if ends_in b'/' i
      then (kept >>= λ r. ok (b',' ∷ r.0, r.1))
      else (moved >>= λ r. ok (name i ++ b',' ∷ r.0, r.1))

  unfoldable pub rename_folder : Text → Text → Text → Text → T → Outcome (Text × T)
  unfolding split file_name_from_path rename_entries popped
  rename_folder user file_data new_file_name parent_path t = do
    r ←
        rename_entries
          (λ i. parent_path ++ (file_name_from_path new_file_name ++ file_name_from_path i)) user
          (split b',' file_data) t
    new_file_data ← popped r.0
    ok (new_file_data, r.1)

  -- Every file gets the same new path.
  unfoldable pub rename_moved_folder : Text → Text → Text → Text → T → Outcome (Text × T)
  unfolding split rename_entries popped
  rename_moved_folder user file_data file_name new_path t = do
    r ← rename_entries (λ i. new_path ++ file_name) user (split b',' file_data) t
    new_file_data ← popped r.0
    ok (new_file_data, r.1)

  -- The old cell is deleted, and the new one is written.
  unfoldable pub replace_cell : Text → Text → Text → Text → Text → T → Outcome (Text × T)
  unfolding is_err store_value create_http_response
  replace_cell host user old new value t =
      let r = storage.bend_delete user old t in
      if is_err r.0
      then (create_http_response 500 [] host >>= λ response. ok (response, r.1))
      else store_value storage host user new value r.1

  -- What `/rename-file` does to a file or a folder that its parent's list names.
  unfoldable pub rename_listed : Text → Text → Text → Text → Text → Text → T → Outcome (Text × T)
  unfolding replace ends_in rename_folder replace_cell
  rename_listed host user parent_path old new fids t =
      let s = (storage.bend_put user parent_path (replace fids old new) t).1 in
      let r = storage.bend_get user old s in
      if ends_in b'/' old
      then (rename_folder user r.0 new parent_path r.1 >>= λ f.
          replace_cell host user old new f.0 f.1)
      else replace_cell host user old new r.0 r.1

  unfoldable pub rename_in : Text → Text → Text → Text → Text → T → Outcome (Text × T)
  unfolding has_text create_http_response rename_listed
  rename_in host user parent_path old new t =
      let r = storage.bend_get user parent_path t in
      if has_text new r.0
      then (create_http_response 409 [] host >>= λ response. ok (response, r.1))
      else if has_text old r.0
      then rename_listed host user parent_path old new r.0 r.1
      else (create_http_response 404 [] host >>= λ response. ok (response, r.1))

  -- `/rename-file`
  unfoldable pub rename_file : Text → Text → Text → Text → T → Outcome (Text × T)
  unfolding login_failure parse_json_string entry rename_in
  rename_file vno host [] body t = ok (login_failure vno, t)
  rename_file vno host (x ∷ user) body t = do
    u ← storage.reach (x ∷ user) t
    params ← parse_json_string body
    let parent_path = entry (codes "parentPath") params
    rename_in host (x ∷ user) parent_path (parent_path ++ entry (codes "oldFileName") params)
        (parent_path ++ entry (codes "newFileName") params) u

  -- The second half of `/move-file`: the new folder's list has the file. The data that
  -- `renameMovedFolder` gives are not used.
  unfoldable pub move_listed : Text → Text → Text → Text → Text → T → Outcome (Text × T)
  unfolding ends_in rename_moved_folder replace_cell
  move_listed host user full_path new_path file_name t =
      let r = storage.bend_get user full_path t in
      let new = new_path ++ file_name in
      if ends_in b'/' file_name
      then (rename_moved_folder user r.0 file_name new_path r.1 >>= λ f.
          replace_cell host user full_path new r.0 f.1)
      else replace_cell host user full_path new r.0 r.1

  -- The path is taken out of the old list first; `file_name.back()` of an empty name is undefined.
  unfoldable pub move_between : Text → Text → Text → Text → Text → Text → T → Outcome (Text × T)
  unfolding erase_path has_text create_http_response move_listed
  move_between host user full_path file_name old_path new_path t =
      let r = storage.bend_get user old_path t in
      erase_path full_path r.0 >>= λ left.
      let s = storage.bend_get user new_path (storage.bend_put user old_path left r.1).1 in
      if has_text full_path s.0
      then (create_http_response 409 [] host >>= λ response. ok (response, s.1))
      else if file_name =? []
      then stopped
      else move_listed host user full_path new_path file_name
          (storage.bend_put user new_path (s.0 ++ b',' ∷ (new_path ++ file_name)) s.1).1

  -- `/move-file`
  unfoldable pub move_file : Text → Text → Text → Text → T → Outcome (Text × T)
  unfolding login_failure parse_json_string entry move_between
  move_file vno host [] body t = ok (login_failure vno, t)
  move_file vno host (x ∷ user) body t = do
    u ← storage.reach (x ∷ user) t
    params ← parse_json_string body
    move_between host (x ∷ user) (entry (codes "fullPath") params) (entry (codes "fileName") params)
        (entry (codes "oldPath") params) (entry (codes "newPath") params) u
