-- ===== src/Frontend/Chunks.antt =====
-- The chunked transfer encoding (`frontend/src/chunk.cc`), as far as it writes.
pub mod Laws
use penn_mail_and_penn_drive.Base.{
  ℕ, zero, suc, ◌+◌, ◌-◌, ◌*◌, ◌/◌, ◌%◌, ◌≤◌, ◌<◌, ◌≡◌, refl, sym, ap, ◌∙◌, subst, ◌≢◌, ◌↔◌, ◌⊎◌,
  inl, inr, Bool, true, false, not, ◌&&◌, ◌||◌, Option, none, some, List, [], ◌∷◌, ◌++◌, map,
  append_assoc, append-nil, arith, ltb, leb, ◌==◌, if◌then◌else◌, ==_iff, Bool-cases, Option-cases,
  Eq, ◌=?◌, nat_eq, list_eq, pair_eq, beq_refl, length, get_elem?, take, drop, length-append,
  drop-append, drop-length, take-append, All, All-append, Outcome, ok, blocked, stopped, ◌>>=◌,
  ◌>>◌, >>=-result, ok-injective, blocked-ne-ok,
}
use penn_mail_and_penn_drive.Base.Text.{
  Text, codes, Lacks, before, after?, after, before_last?, before_last, after_last, starts_with,
  find, has_text, tokens, split, is_digit, is_space, trim_end, to_string, value, atoi, stoi,
}

unfoldable pub hex_char : ℕ → ℕ
hex_char rem = rem + 48 + (if leb 10 rem then 7 else 0)

-- The digits of `n` in front of those found so far, which the source reverses in the end.
unfoldable pub hex_digits : ℕ → ℕ → Text → Text
unfolding hex_char
hex_digits zero n hex = hex
hex_digits (suc fuel) n hex =
    let more = hex_digits fuel (n / 16) (hex_char (n % 16) ∷ hex) in if n == 0 then hex else more

unfoldable pub dec_to_hex : ℕ → Text
unfolding hex_digits
dec_to_hex n = hex_digits n n []

abbrev pub crlf : Text
crlf = 13 ∷ 10 ∷ []

abbrev pub min_size : ℕ → ℕ → ℕ
min_size a b = if ltb a b then a else b

-- The chunks of `data`, in front of the last 0. A chunk size of 0 takes nothing away from the
-- data, and the loop does not end; otherwise as many rounds as there are bytes are enough.
unfoldable pub write_chunks : ℕ → Text → ℕ → Outcome Text
unfolding dec_to_hex
write_chunks fuel [] chunksize = ok (b'0' ∷ [])
write_chunks zero (x ∷ payload) chunksize = blocked
write_chunks (suc fuel) (x ∷ payload) chunksize =
    let sz = min_size chunksize (length (x ∷ payload)) in
    write_chunks fuel (drop sz (x ∷ payload)) chunksize >>= λ rest.
    ok (dec_to_hex sz ++ (crlf ++ (take sz (x ∷ payload) ++ (crlf ++ rest))))

unfoldable pub write_to_chunk_transfer : Text → ℕ → Outcome Text
unfolding write_chunks
write_to_chunk_transfer payload chunksize = write_chunks (length payload) payload chunksize
