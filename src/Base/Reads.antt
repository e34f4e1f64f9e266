-- ===== src/Base/Reads.antt =====
-- Bytes that come in by reads, and are taken line by line.
use Prim.Native.Nat.{ℕ, zero, suc, ◌+◌, ◌≤◌, ◌<◌}
use native.Mathlib.Omega.{arith}
use mathlib.Core.Path.{◌≡◌, refl, sym, ap, ◌∙◌}
use mathlib.Core.Logic.{inl, inr}
use mathlib.Core.Option.{none, some}
use mathlib.Core.List.{◌++◌, append_assoc}
use penn_mail_and_penn_drive.Base.Tests.{Option-cases}
use penn_mail_and_penn_drive.Base.Lists.{length, length-append}
use penn_mail_and_penn_drive.Base.Runs.{Outcome, ok, blocked, stopped, bind_eq, bind_assoc, ◌>>=◌}
use penn_mail_and_penn_drive.Base.Text.{Text, codes, find}
use penn_mail_and_penn_drive.Base.Text.Laws.{find_longer, find_sound}

-- Each line that a line end closes is taken by `step`; the rest is left. `fuel` bounds the number of
-- lines.
unfoldable pub each_line {ℓ} :
    {S : Type ℓ} → (Text → S → Outcome S) → ℕ → Text → S → Outcome (S × Text)
unfolding find
each_line step zero text c = blocked
each_line step (suc fuel) text c = elim (find (codes "\r\n") text) [
  | none ↦ ok (c, text)
  | some (line, rest) ↦ step line c >>= each_line step fuel rest
]

found_shorter : (s a b : Text) → find (codes "\r\n") s ≡ some (a, b) → length b < length s
found_shorter s a b h =
    omega
      (arith, ap length (find_sound (codes "\r\n") s a b h), length-append a (codes "\r\n" ++ b))

module _ {ℓ} {S : Type ℓ} (step : Text → S → Outcome S) where
  -- Any number of rounds that exceeds the number of bytes is enough.
  each_line_enough :
      (n m : ℕ) (text : Text) (c : S)
      → length text < n
      → length text < m
      → each_line step n text c ≡ each_line step m text c
  unfolding each_line
  each_line_enough zero m text c h l = absurd (omega arith)
  each_line_enough (suc n) zero text c h l = absurd (omega arith)
  each_line_enough (suc n) (suc m) text c h l = elim (Option-cases (find (codes "\r\n") text)) [
    | inl e ↦ rw (each_line, e) refl
    | inr (r, e) ↦
        let shorter = found_shorter text (r.0) (r.1) e in
        rw (each_line, e)
          (bind_eq (step (r.0) c) (each_line step n (r.1)) (each_line step m (r.1))
            (λ d _. each_line_enough n m (r.1) d (omega (arith, shorter)) (omega (arith, shorter))))
  ]

  abbrev go_on : ℕ → Text → S × Text → Outcome (S × Text)
  go_on k b (d, rest) = each_line step k (rest ++ b) d

  -- The lines of a text, and then those of what is left with more text behind it.
  each_line-append :
      (n m k : ℕ) (a b : Text) (c : S)
      → length (a ++ b) < n
      → length a < m
      → length (a ++ b) < k
      → each_line step n (a ++ b) c ≡ (each_line step m a c >>= go_on k b)
  unfolding each_line
  each_line-append zero m k a b c h l j = absurd (omega arith)
  each_line-append (suc n) zero k a b c h l j = absurd (omega arith)
  each_line-append (suc n) (suc m) k a b c h l j = elim (Option-cases (find (codes "\r\n") a)) [
    | inl e ↦ rw (each_line, e) (each_line_enough (suc n) k (a ++ b) c h j)
    | inr (r, e) ↦
        let shorter = found_shorter a (r.0) (r.1) e in
        let sizes = length-append a b in
        let rest = length-append (r.1) b in
        rw (each_line, find_longer (codes "\r\n") a b (r.0) (r.1) e, e)
          (bind_eq (step (r.0) c) (each_line step n (r.1 ++ b))
              (λ d. each_line step m (r.1) d >>= go_on k b)
              (λ d _.
                each_line-append n m k (r.1) b d (omega (arith, shorter, sizes, rest))
                  (omega (arith, shorter)) (omega (arith, shorter, sizes, rest)))
            ∙ sym (bind_assoc (step (r.0) c) (each_line step m (r.1)) (go_on k b)))
  ]

  -- What the first part leaves is no longer than it.
  each_line_rest :
      (n : ℕ) (a : Text) (c d : S) (rest : Text)
      → each_line step n a c ≡ ok (d, rest)
      → length rest ≤ length a
  unfolding each_line
  each_line_rest zero a c d rest h = cc
  each_line_rest (suc n) a c d rest h = elim (Option-cases (find (codes "\r\n") a)) [
    | inl e ↦ ground arith
    | inr (r, e) ↦
        left (r.1) (step (r.0) c) (ground arith) (found_shorter a (r.0) (r.1) e)
          (λ g. each_line_rest n (r.1) g d rest)
  ]
    where
      left :
          (r : Text) (m : Outcome S)
          → (m >>= each_line step n r) ≡ ok (d, rest)
          → length r < length a
          → ((g : S) → each_line step n r g ≡ ok (d, rest) → length rest ≤ length r)
          → length rest ≤ length a
      left r (ok g) h l k = omega (arith, k g h)
      left r blocked h l k = cc
      left r stopped h l k = cc

  -- All the lines of what is buffered and what comes in.
  unfoldable pub receive : Text → S × Text → Outcome (S × Text)
  receive chunk (c, buffer) = each_line step (length (buffer ++ chunk) + 1) (buffer ++ chunk) c

  -- What is left is no longer than what there was.
  pub receive_rest :
      (a buffer : Text) (c d : S) (rest : Text)
      → receive a (c, buffer) ≡ ok (d, rest)
      → length rest ≤ length (buffer ++ a)
  unfolding receive
  receive_rest a buffer c d rest h =
      each_line_rest (length (buffer ++ a) + 1) (buffer ++ a) c d rest h

  -- Two reads are one read of both parts.
  pub receive-append :
      (a b buffer : Text) (c : S)
      → receive (a ++ b) (c, buffer) ≡ (receive a (c, buffer) >>= receive b)
  unfolding receive
  receive-append a b buffer c =
      let k = length ((buffer ++ a) ++ b) + 1 in
      ap (λ t. each_line step (length t + 1) t c) (sym (append_assoc buffer a b))
      ∙ each_line-append k (length (buffer ++ a) + 1) k (buffer ++ a) b c (omega arith)
          (omega arith) (omega arith)
      ∙ bind_eq (each_line step (length (buffer ++ a) + 1) (buffer ++ a) c) (go_on k b) (receive b)
          (λ (d, rest) e.
            let less = each_line_rest (length (buffer ++ a) + 1) (buffer ++ a) c d rest e in
            each_line_enough k (length (rest ++ b) + 1) (rest ++ b) d
              (omega (arith, less, length-append rest b, length-append (buffer ++ a) b))
              (omega arith))
