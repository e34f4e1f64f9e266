-- ===== src/Frontend/Cells.antt =====
-- The keys and values that the PUT, GET and DELETE commands of a storage server carry as they are
-- meant: handle_message and execute_command of backend/src cut them at blanks, and cut white space
-- off the end of a command.
use penn_mail_and_penn_drive.Base.{
  Bool, true, false, ◌&&◌, not, [], ◌∷◌, ◌==◌, ◌=?◌, nat_eq, list_eq,
}
use penn_mail_and_penn_drive.Base.Text.{Text, codes, is_space, has_text}

-- No white space.
abbrev pub no_space : Text → Bool
no_space [] = true
no_space (x ∷ s) = not (is_space x) && no_space s

abbrev pub is_name : Text → Bool
is_name [] = false
is_name (x ∷ s) = no_space (x ∷ s)

-- `GET passwd null` asks for all cells.
abbrev is_row : Text → Bool
is_row row = is_name row && not (row =? codes "passwd")

-- Not empty, in one line, and without white space at the end.
abbrev pub is_value : Text → Bool
is_value [] = false
is_value (x ∷ []) = not (is_space x)
is_value (x ∷ y ∷ s) = not (x == b'\n') && (not (x == b'\r') && is_value (y ∷ s))

-- A row and a column that a command can name.
abbrev pub is_key : Text → Text → Bool
is_key row col = is_row row && is_name col

-- A PUT that can be carried, with an answer that reports success.
abbrev pub put_taken : Text → Text → Text → Text → Bool
put_taken row col val status = is_key row col && (is_value val && has_text (codes "OK") status)

-- A DELETE that can be carried, with an answer that reports success.
abbrev pub delete_taken : Text → Text → Text → Bool
delete_taken row col status = is_key row col && has_text (codes "OK") status
