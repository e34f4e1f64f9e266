-- ===== src/Command.antt =====
-- The parts of a command line and the replies to it: `get_tablet`
-- and `generate_client_response` of backend/src/utils.cpp.
use penn_mail_and_penn_drive.Base.{
  ℕ, ◌+◌, ◌%◌, Bool, true, false, [], ◌∷◌, ◌++◌, ◌==◌, if◌then◌else◌, ◌=?◌, nat_eq, list_eq,
}
use penn_mail_and_penn_drive.Base.Text.{Text, codes, before}

abbrev pub space : ℕ
space = 32

abbrev pub newline : ℕ
newline = 10

abbrev pub put : Text
put = codes "PUT"

abbrev pub cput : Text
cput = codes "CPUT"

abbrev pub delete : Text
delete = codes "DELETE"

-- `PUT row col val`
abbrev pub put_command : Text → Text → Text → Text
put_command row col val = put ++ space ∷ (row ++ space ∷ (col ++ space ∷ val))

-- `CPUT row col old new`
abbrev pub cput_command : Text → Text → Text → Text → Text
cput_command row col old new =
    cput ++ space ∷ (row ++ space ∷ (col ++ space ∷ (old ++ space ∷ new)))

-- `DELETE row col`
abbrev pub delete_command : Text → Text → Text
delete_command row col = delete ++ space ∷ (row ++ space ∷ col)

-- The loop of `get_tablet` over a C string, which ends at a zero byte. The sum is an unsigned long.
byte_sum : ℕ → Text → ℕ
byte_sum sum [] = sum
byte_sum sum (c ∷ s) = elim (c == 0) [
  | true ↦ sum
  | false ↦ byte_sum ((sum + c % 256) % 18446744073709551616) s
]

unfoldable pub get_tablet : Text → ℕ
unfolding byte_sum
get_tablet row = byte_sum 0 row % 5

reply_text : Bool → ℕ → Text
reply_text true opt = elim (opt == 1) [
  | true ↦ codes "PUT SUCCESSFUL."
  | false ↦
      if opt == 2
      then codes "Replaced value one with value two in table."
      else if opt == 3
      then codes "DELETE successful."
      else codes "Unknown operation."
]
reply_text false opt = elim (opt == 1) [
  | true ↦ codes "PUT FAILED."
  | false ↦
      if opt == 2
      then codes "Could not replace value one with value two in table."
      else if opt == 3
      then codes "DELETE FAILED."
      else codes "Unknown operation failed."
]

unfoldable pub generate_client_response : Bool → ℕ → Text
unfolding reply_text
generate_client_response success opt =
    (if success then codes "+OK " else codes "-ERR ") ++ (reply_text success opt ++ codes "\r\n")

-- 1, 2, 3 for the operations; the source's -1 is 0 here.
unfoldable pub opt_of : Text → ℕ
opt_of message =
    let op = before space message in
    if op =? put then 1 else if op =? cput then 2 else if op =? delete then 3 else 0
