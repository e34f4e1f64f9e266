-- ===== src/Drive.antt =====
-- The files of a user: the requests of `frontend/src/http.cc` for uploading, listing and deleting
-- files and for new folders, and the responses of `frontend/src/ioutils.cc`. A folder's cell holds
-- the paths of its entries with commas between them.
pub mod Lists
pub mod Files
pub mod Moves
pub mod Renames
use penn_mail_and_penn_drive.Base.{
  ℕ, Bool, true, false, none, some, List, [], ◌∷◌, ◌++◌, if◌then◌else◌, ◌=?◌, nat_eq, list_eq,
  pair_eq, ◌==◌, length, drop, Outcome, ok, stopped, ◌>>=◌,
}
use penn_mail_and_penn_drive.Base.Text.{Text, codes, find, has_text, split, to_string}
use penn_mail_and_penn_drive.Base.Maps.{Map, lookup}
use penn_mail_and_penn_drive.Frontend.Strings.{drop_last, file_name_from_path}
use penn_mail_and_penn_drive.Frontend.Bytes.{stobs}
use penn_mail_and_penn_drive.Frontend.Json.{parse_json_string}
use penn_mail_and_penn_drive.Smtp.Delivery.{no_such_cell, is_ok}

-- The storage servers behind their sockets. `reach` stands for `get_table_fd`: the coordinator's
-- answer for a user, and the connection to the server that it names.
pub record Storage (T : Type 0) : Type 0 where
  pub reach : Text → T → Outcome T
  pub bend_get : Text → Text → T → Text × T
  pub bend_put : Text → Text → Text → T → Text × T
  pub bend_delete : Text → Text → T → Text × T

-- `params[key]`
unfoldable pub entry : Text → Map Text Text → Text
unfolding lookup
entry key params = elim (lookup key params) [ none ↦ [] | some v ↦ v ]

unfoldable pub status_word : ℕ → Text
status_word code =
    if code == 200
    then codes "OK"
    else if code == 204
    then codes "No Content"
    else if code == 400
    then codes "Bad Request"
    else if code == 404
    then codes "Not Found"
    else if code == 500
    then codes "Internal Server Error"
    else if code == 409
    then codes "Conflict"
    else codes "Unknown Status"

-- Without a host the process ends.
unfoldable pub create_http_response : ℕ → Text → Text → Outcome Text
unfolding status_word to_string
create_http_response code body [] = stopped
create_http_response code body (x ∷ host) = ok (
    codes "HTTP/1.1 "
    ++ (to_string code
        ++ b' '
          ∷ (status_word code
              ++ (codes "\r\nContent-Type: text/plain\r\nAccess-Control-Allow-Origin: "
                  ++ (x ∷ host
                      ++ (codes
                            "\r\nAccess-Control-Allow-Methods: DELETE, POST, HEAD, GET, OPTIONS\r\nAccess-Control-Allow-Headers: content-type, x-file-name, x-file-path, cookie\r\nAccess-Control-Allow-Credentials: true\r\nContent-Length: "
                          ++ (to_string (length body) ++ (codes "\r\n\r\n" ++ body))))))))

unfoldable pub login_failure : Text → Text
login_failure vno =
    vno
    ++ codes
        " 303 See Other\r\nLocation: /?success=1&login_failure=true\r\nContent-Type: text/html; charset=UTF-8\r\nContent-Length: 0"

-- A path and the comma in front of it, or behind it where it is the first. Without the path
-- `erase(npos - 1, ...)` throws, and nothing catches it.
unfoldable pub erase_path : Text → Text → Outcome Text
unfolding find drop_last
erase_path path paths = elim (find path paths) [
  | none ↦ stopped
  | some ([], b) ↦ ok (drop 1 b)
  | some (x ∷ a, b) ↦ ok (drop_last (x ∷ a) ++ b)
]

-- The code of the response to what a `DELETE` answers.
unfoldable pub deleted_code : Text → ℕ
unfolding is_ok
deleted_code status = if status =? no_such_cell then 500 else if is_ok status then 200 else 404

unfoldable pub stored_code : Text → ℕ
unfolding is_ok
stored_code status = if is_ok status then 200 else 500

-- The elements of a folder's list, each with a comma behind it.
unfoldable pub name_items : List Text → Text
unfolding file_name_from_path
name_items [] = []
name_items (path ∷ paths) =
    codes "{\"name\": \"" ++ (file_name_from_path path ++ (codes "\"}," ++ name_items paths))

-- `pop_back` takes the last comma, or the bracket where there is no element.
unfoldable pub names_body : Text → Text
unfolding name_items drop_last split
names_body paths = drop_last (b'[' ∷ name_items (split b',' paths)) ++ codes "]"

module _ {T : Type 0} (storage : Storage T) where
  -- An empty list is deleted.
  unfoldable pub put_paths : Text → Text → Text → T → T
  put_paths user folder [] t = (storage.bend_delete user folder t).1
  put_paths user folder (x ∷ paths) t = (storage.bend_put user folder (x ∷ paths) t).1

  -- The path is taken out of its folder's list, then the file is deleted.
  unfoldable pub remove_file : Text → Text → Text → Text → T → Outcome (Text × T)
  unfolding erase_path put_paths deleted_code create_http_response
  remove_file host user folder file t =
      let (paths, u) = storage.bend_get user folder t in
      erase_path file paths >>= λ left.
      let (status, v) = storage.bend_delete user file (put_paths user folder left u) in
      create_http_response (deleted_code status) [] host >>= λ response. ok (response, v)

  -- `/delete-file` of `handle_DELETE`. The user is empty where nobody is logged in.
  unfoldable pub delete_file : Text → Text → Text → Text → T → Outcome (Text × T)
  unfolding login_failure parse_json_string entry remove_file
  delete_file vno host [] body t = ok (login_failure vno, t)
  delete_file vno host (x ∷ user) body t = do
    u ← storage.reach (x ∷ user) t
    params ← parse_json_string body
    remove_file host (x ∷ user) (entry (codes "folder") params) (entry (codes "file") params) u

  unfoldable pub store_value : Text → Text → Text → Text → T → Outcome (Text × T)
  unfolding stored_code create_http_response
  store_value host user path value t =
      let (status, u) = storage.bend_put user path value t in
      create_http_response (stored_code status) [] host >>= λ response. ok (response, u)

  -- The path is put behind its folder's list, unless it is found in it; then it gets its value.
  unfoldable pub add_file : Text → Text → Text → Text → Text → T → Outcome (Text × T)
  unfolding store_value has_text create_http_response
  add_file host user folder path value t =
      let (paths, u) = storage.bend_get user folder t in
      if paths =? no_such_cell
      then store_value host user path value (storage.bend_put user folder path u).1
      else if has_text path paths
      then (create_http_response 409 [] host >>= λ response. ok (response, u))
      else store_value host user path value
          (storage.bend_put user folder (paths ++ b',' ∷ path) u).1

  -- `/upload-file` of `handle_POST`
  unfoldable pub upload_file : Text → Text → Text → Text → Text → Text → T → Outcome (Text × T)
  unfolding login_failure add_file stobs
  upload_file vno host [] x_file_path x_file_name body t = ok (login_failure vno, t)
  upload_file vno host (x ∷ user) x_file_path x_file_name body t =
      storage.reach (x ∷ user) t >>= λ u.
      add_file host (x ∷ user) x_file_path (x_file_path ++ x_file_name) (stobs body) u

  -- `/create-folder` of `handle_POST`
  unfoldable pub create_folder : Text → Text → Text → Text → T → Outcome (Text × T)
  unfolding login_failure parse_json_string entry add_file
  create_folder vno host [] body t = ok (login_failure vno, t)
  create_folder vno host (x ∷ user) body t = do
    u ← storage.reach (x ∷ user) t
    params ← parse_json_string body
    add_file host (x ∷ user) (entry (codes "parentPath") params) (entry (codes "name") params)
        (codes "../") u

  -- What `/files-list` of `handle_GET` answers for a folder.
  unfoldable pub list_files : Text → Text → Text → T → Outcome (Text × T)
  unfolding names_body create_http_response
  list_files host user folder t =
      let (paths, u) = storage.bend_get user folder t in
      (if paths =? no_such_cell
        then create_http_response 404 [] host
        else create_http_response 200 (names_body paths) host)
      >>= λ response. ok (response, u)
