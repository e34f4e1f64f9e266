-- ===== src/Frontend/Chunks/Laws.antt =====
-- A reader of the chunked encoding gets back what was written.
use penn_mail_and_penn_drive.Base.{
  ℕ, zero, suc, ◌+◌, ◌-◌, ◌*◌, ◌<◌, ◌≡◌, true, false, ◌&&◌, [], ◌∷◌, ◌++◌, leb, nat_eq, list_eq,
  pair_eq, length, take, drop, ok,
}
use penn_mail_and_penn_drive.Base.Text.{Text}
use penn_mail_and_penn_drive.Frontend.Chunks.{write_chunks}

-- The number at the start of a text, in hexadecimal digits as RFC 9112 wants them, and the text
-- behind it.
abbrev pub hex_number : ℕ → Text → ℕ × Text
hex_number n [] = (n, [])
hex_number n (x ∷ s) = elim (leb b'0' x && leb x b'9') [
  | true ↦ hex_number (n * 16 + (x - 48)) s
  | false ↦ elim (leb b'A' x && leb x b'F') [
    | true ↦ hex_number (n * 16 + (x - 55)) s
    | false ↦ (n, x ∷ s)
  ]
]

-- A reader of the chunks: a size, a line end, as many bytes, and a line end; the size 0 ends it.
abbrev pub read_chunk : (Text → Text) → ℕ × Text → Text
read_chunk more (zero, s) = []
read_chunk more (suc n, s) = take (suc n) (drop 2 s) ++ more (drop 2 (drop (suc n) (drop 2 s)))

abbrev pub read_chunks : ℕ → Text → Text
read_chunks zero s = []
read_chunks (suc fuel) s = read_chunk (read_chunks fuel) (hex_number 0 s)

abbrev IsWritten : Text → ℕ → ℕ → Type 0
IsWritten d fuel chunksize =
    (out : Text) × (write_chunks fuel d chunksize ≡ ok out)
    × ((f : ℕ) → length d < f → read_chunks f out ≡ d)
