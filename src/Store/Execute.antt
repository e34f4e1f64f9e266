-- ===== src/Store/Execute.antt =====
-- `execute_command` of backend/src/utils.cpp on printed commands.
use penn_mail_and_penn_drive.Base.{
  ℕ, ◌+◌, ◌≡◌, ◌≢◌, refl, sym, ◌∙◌, ◌++◌, List, [], ◌∷◌, some, Bool, false, arith, ok, length,
  length-append, drop-append, nat_eq, list_eq, pair_eq, append_assoc, append-nil, Bool-cases, inl,
  inr, ◌==◌,
}
use mathlib.Core.Path.{subst}
use penn_mail_and_penn_drive.Base.Maps.{lookup, insert}
use penn_mail_and_penn_drive.Base.Text.{Text, Lacks, find, split, tokens}
use penn_mail_and_penn_drive.Base.Text.Laws.{
  tokens_at_separator, tokens_at_other, split-append, split-Lacks, split-ne-nil, find_sound,
}
use penn_mail_and_penn_drive.Server.{Key, Store}
use penn_mail_and_penn_drive.Command.{
  space, put, cput, delete, put_command, cput_command, delete_command,
}
use penn_mail_and_penn_drive.Store.{
  put_value, erase_value, unlock, join_values, substr_from, behind, execute_command,
}
use penn_mail_and_penn_drive.Store.Ops.{
  Op, puts, cputs, deletes, print, key, NoBlankEnd, cput_prefix, IsPlain, IsReady, executed,
}

pub split-put_command :
    (row col val : Text)
    → Lacks space row
    → Lacks space col
    → split space (put_command row col val) ≡ put ∷ row ∷ col ∷ split space val
split-put_command row col val r c = rw (
  split-append space put _ (omega arith),
  split-append space row _ r,
  split-append space col val c,
)

pub split-cput_command :
    (row col old new : Text)
    → Lacks space row
    → Lacks space col
    → split space (cput_command row col old new)
      ≡ cput ∷ row ∷ col ∷ split space (old ++ space ∷ new)
split-cput_command row col old new r c = rw (
  split-append space cput _ (omega arith),
  split-append space row _ r,
  split-append space col _ c,
)

pub split-delete_command :
    (row col : Text)
    → Lacks space row
    → Lacks space col
    → col ≢ []
    → split space (delete_command row col) ≡ delete ∷ row ∷ col ∷ []
split-delete_command row [] r c h = absurd (h refl)
split-delete_command row (x ∷ col) r c h = rw (
  split-append space delete _ (omega arith),
  split-append space row _ r,
  split-Lacks space x col c,
)

join-cons : (t : Text) (l : List Text) → l ≢ [] → join_values (t ∷ l) ≡ t ++ space ∷ join_values l
unfolding join_values
join-cons t [] h = absurd (h refl)
join-cons t (u ∷ l) h = refl

NoBlankEnd-append : (a : Text) (x : ℕ) (s : Text) → NoBlankEnd (a ++ x ∷ s) → NoBlankEnd (x ∷ s)
NoBlankEnd-append [] x s h = h
NoBlankEnd-append (y ∷ []) x s h = h
NoBlankEnd-append (y ∷ z ∷ a) x s h = NoBlankEnd-append (z ∷ a) x s h

-- Putting the tokens together again gives the text, if it does not end in a blank.
join-tokens :
    (s token : Text) → NoBlankEnd (token ++ s) → join_values (tokens space s token) ≡ token ++ s
unfolding tokens split
join-tokens [] [] h = unfold join_values in refl
join-tokens [] (x ∷ token) h = unfold join_values in ground (arith, append-nil token)
join-tokens (x ∷ []) token h = elim (Bool-cases (x == space)) [
  | inl e ↦ absurd (NoBlankEnd-append token x [] h (ground arith))
  | inr e ↦
      let shift : token ++ x ∷ [] ≡ (token ++ x ∷ []) ++ [] = sym (append-nil (token ++ x ∷ [])) in
      ground (arith, join-tokens [] (token ++ x ∷ []) (subst NoBlankEnd shift h), shift)
]
join-tokens (x ∷ y ∷ s) token h = elim (Bool-cases (x == space)) [
  | inl e ↦
      let x_blank : x ≡ space = ground arith in
      let rest : join_values (split space (y ∷ s)) ≡ y ∷ s =
        join-tokens (y ∷ s) [] (NoBlankEnd-append token x (y ∷ s) h) in
      rw (
        tokens_at_separator space x (y ∷ s) token e,
        join-cons token (split space (y ∷ s)) (split-ne-nil space y s),
        rest,
        x_blank,
      )
  | inr e ↦
      let shift : token ++ x ∷ (y ∷ s) ≡ (token ++ x ∷ []) ++ (y ∷ s) =
        sym (append_assoc token (x ∷ []) (y ∷ s)) in
      rw (
        tokens_at_other space x (y ∷ s) token e,
        join-tokens (y ∷ s) (token ++ x ∷ []) (subst NoBlankEnd shift h),
        append_assoc,
      )
]

join-split : (s : Text) → NoBlankEnd s → join_values (split space s) ≡ s
unfolding split
join-split s h = join-tokens s [] h

unlock_there :
    (s : Store) (k : Key) (l : Bool)
    → lookup k s.row_locks ≡ some l
    → unlock s k ≡ ok (record s { row_locks = insert k false s.row_locks })
unfolding unlock
unlock_there s k l h = rw (h, unlock)

substr_from-append : (p b : Text) → substr_from (length p) (p ++ b) ≡ ok b
unfolding substr_from
substr_from-append p b = ground (arith, length-append p b, drop-append p b)

-- The text behind the byte that follows the first match.
pub behind-found :
    (old text a b : Text) (x : ℕ) → find old text ≡ some (a, x ∷ b) → behind old text ≡ ok b
unfolding behind
behind-found old text a b x h =
    rw (h, behind) (rw (whole, ← size) (substr_from-append (a ++ (old ++ x ∷ [])) b))
  where
    whole : text ≡ (a ++ (old ++ x ∷ [])) ++ b
    whole = find_sound old text a (x ∷ b) h ∙ simp append_assoc

    size : length (a ++ (old ++ x ∷ [])) ≡ length a + length old + 1
    size = omega (arith, length-append a (old ++ x ∷ []), length-append old (x ∷ []))

-- A command that is `IsPlain`, and whose lock was made, is executed: it changes the one
-- entry that it names as the client asked, and frees the lock. The old value of a CPUT must be in
-- the table, and must occur first where the command has it.
pub execute-print :
    (op : Op) (s : Store) (l : Bool)
    → IsPlain op
    → IsReady op s
    → lookup (key op) s.row_locks ≡ some l
    → execute_command (print op) s ≡ ok (executed op s)
unfolding execute_command put_value erase_value
execute-print (puts row col val) s l (r, c, v) ready h =
    rw (split-put_command row col val r c, execute_command, join-split val v)
      (unlock_there (put_value s (row, col) val) (row, col) l h)
execute-print (cputs row col old new) s l (r, c, v) ready h =
    rw
      (
        split-cput_command row col old new r c,
        execute_command,
        ready,
        behind-found old (cput_command row col old new) (cput_prefix row col) new space v,
      )
      (unlock_there (put_value s (row, col) new) (row, col) l h)
execute-print (deletes row col) s l (r, c, v) ready h = rw (
  split-delete_command row col r c v,
  execute_command,
  unlock_there (erase_value s (row, col)) (row, col) l h,
)
