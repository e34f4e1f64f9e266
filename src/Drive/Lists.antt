-- ===== src/Drive/Lists.antt =====
-- A folder's list after an upload and after a deletion.
use penn_mail_and_penn_drive.Base.{
  ◌+◌, ◌/◌, ◌%◌, ℕ, ◌≡◌, refl, sym, ap, ◌∙◌, ◌≢◌, inl, inr, true, false, ◌&&◌, none, some, [], ◌∷◌,
  ◌++◌, append-nil, arith, if◌then◌else◌, Bool-cases, Option-cases, ◌=?◌, nat_eq, list_eq, pair_eq,
  list_beq_iff, ok, stopped, ◌>>=◌,
}
use penn_mail_and_penn_drive.Base.Text.{Text, Lacks, find, has_text}
use penn_mail_and_penn_drive.Base.Text.Laws.{find_at_start}
use penn_mail_and_penn_drive.Base.Text.Search.{find_barrier}
use penn_mail_and_penn_drive.Frontend.Strings.Laws.{drop_last-slash}
use penn_mail_and_penn_drive.Smtp.Delivery.{no_such_cell}
use penn_mail_and_penn_drive.Frontend.Cells.{is_key, put_taken, delete_taken}
use penn_mail_and_penn_drive.Frontend.Bytes.{stobs, byte_bits}
use penn_mail_and_penn_drive.Drive.{Storage, create_http_response, erase_path}

-- What the front end relies on in a table: with keys and values that a command can carry, a value
-- whose PUT was answered +OK is read where it was put, until a DELETE of it is answered +OK, and
-- neither changes another cell. `cell` is what is stored at a row and a column, with the answer to
-- the `GET` of a missing one.
pub record IsTable {T : Type 0} (storage : Storage T) : Type 0 where
  pub cell : T → Text → Text → Text
  pub get_cell :
      (row col : Text) (t : T)
      → is_key row col ≡ true
      → storage.bend_get row col t ≡ (cell t row col, t)
  pub put_cell :
      (row col val row' col' : Text) (t : T)
      → put_taken row col val (storage.bend_put row col val t).0 ≡ true
      → cell ((storage.bend_put row col val t).1) row' col'
        ≡ (if (row =? row') && (col =? col') then val else cell t row' col')
  pub delete_cell :
      (row col row' col' : Text) (t : T)
      → delete_taken row col (storage.bend_delete row col t).0 ≡ true
      → cell ((storage.bend_delete row col t).1) row' col'
        ≡ (if (row =? row') && (col =? col') then no_such_cell else cell t row' col')

unfound : (p s : Text) → has_text p s ≡ false → find p s ≡ none
unfolding has_text
unfound p s h = elim (Option-cases (find p s)) [ inl e ↦ e | inr (r, e) ↦ ground arith ]

erase_found :
    (path paths a b : Text) (x : ℕ)
    → find path paths ≡ some (a ++ x ∷ [], b)
    → erase_path path paths ≡ ok (a ++ b)
unfolding erase_path
erase_found path paths [] b x h = rw (erase_path, h) refl
erase_found path paths (y ∷ a) b x h =
    rw (erase_path, h) (ap (λ t. ok (t ++ b)) (drop_last-slash (y ∷ a) x))

-- A path that was put behind a list is taken out of it again.
pub erase_path-added :
    (path paths : Text)
    → Lacks b',' path
    → path ≢ []
    → has_text path paths ≡ false
    → erase_path path (paths ++ b',' ∷ path) ≡ ok paths
erase_path-added path paths l n h =
    erase_found path (paths ++ b',' ∷ path) paths [] b',' (
      find_barrier b',' path paths path l n (unfound path paths h)
      ∙ rw (ap (find path) (sym (append-nil path)), find_at_start path [])
          (ap (λ t. some (t, [])) (append-nil (paths ++ b',' ∷ []))))
    ∙ ap ok (append-nil paths)

pub erase_path-missing :
    (path paths : Text) → has_text path paths ≡ false → erase_path path paths ≡ stopped
unfolding erase_path
erase_path-missing path paths h = rw (erase_path, unfound path paths h) refl

pub answered :
    {T : Type 0} (code x : ℕ) (host : Text) (t : T)
    → (r : Text) × (◌>>=◌ {B = Text × T}
          (create_http_response code [] (x ∷ host))
          (λ response. ok (response, t))
        ≡ ok (r, t))
unfolding create_http_response
answered code x host t = (_, refl)

pub unlike : (a b : Text) → a ≢ b → (a =? b) ≡ false
unlike a b h = elim (Bool-cases (a =? b)) [
  | inl e ↦ absurd (h ((list_beq_iff a b).0 e))
  | inr e ↦ e
]

pub both : (a b c d : Text) → (a =? b) && (c =? d) ≡ true → (a ≡ b) × (c ≡ d)
both a b c d h = elim (Bool-cases (a =? b)) [
  | inl e ↦ ((list_beq_iff a b).0 e, (list_beq_iff c d).0 (ground arith))
  | inr e ↦ ground arith
]

abbrev first_or : Text → ℕ
first_or [] = 0
first_or (x ∷ s) = x

-- The bits of a file are not the answer for a cell that is not there.
pub stobs-ne-no_such_cell : (s : Text) → stobs s ≢ no_such_cell
unfolding stobs byte_bits
stobs-ne-no_such_cell [] e = cc
stobs-ne-no_such_cell (y ∷ s) e =
    let starts : b'0' + y / 128 % 2 ≡ b'-' = ap first_or e in omega (arith, starts)
