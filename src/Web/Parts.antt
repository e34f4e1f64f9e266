-- ===== src/Web/Parts.antt =====
-- Requests that come in several reads (frontend/src/http.cc).
use penn_mail_and_penn_drive.Base.{
  ℕ, ◌+◌, ◌<◌, ◌≤◌, ◌≡◌, ◌≢◌, refl, ap, sym, ◌∙◌, subst, Bool, true, false, none, some, List, [],
  ◌∷◌, ◌++◌, append_assoc, append-nil, leb, ◌==◌, arith, length, length-append, if◌then◌else◌, ◌=?◌,
  nat_eq, list_eq, Outcome, ok, stopped, ◌>>=◌,
}
use penn_mail_and_penn_drive.Base.Text.{Text, codes, find, stoi, starts_with}
use penn_mail_and_penn_drive.Base.Text.Laws.{find_longer}
use penn_mail_and_penn_drive.Base.Maps.{Map, lookup}
use penn_mail_and_penn_drive.Drive.{entry}
use penn_mail_and_penn_drive.Accounts.{get_client_params, is_full_body, body_sidx}
use penn_mail_and_penn_drive.Web.{
  Handlers, Client, read_from_chunk_transfer, read_transfer, finish_request, when_full, dispatch,
  serve_read, serve_reads, readline, concat,
}

tried :
    (a b : Bool) (rest : Outcome (Unit {0}))
    → rest ≢ ok tt
    → (if a then stopped else if b then stopped else rest) ≢ ok tt
tried true b rest h g = cc
tried false true rest h g = cc
tried false false rest h g = h g

-- The chunks of a request are never read to their end.
pub read_from_chunk_transfer-fails :
    (lines : List Text) (buf : Text) → read_from_chunk_transfer lines buf ≢ ok tt
unfolding read_from_chunk_transfer
read_from_chunk_transfer-fails [] buf e = cc
read_from_chunk_transfer-fails (line ∷ lines) buf e =
    tried ((buf ++ line) =? codes "\r\n") (length (buf ++ line) == 1)
      (read_from_chunk_transfer lines (buf ++ line))
      (read_from_chunk_transfer-fails lines (buf ++ line)) e

-- A client that is served, and sent `buf` of its next request.
abbrev pub holding : Text → Map Text Text → Bool → Text → Client
holding buf params flag sent = record {
  buf = buf;
  reqdata = params;
  do_close_connection = flag;
  closed = false;
  sent = sent;
}

-- The header of a request ends behind `a` in `buf`, and says that `n` bytes follow, not in chunks.
abbrev pub HasHeader : ℕ → Text → Text → Map Text Text → Type 0
HasHeader n a buf params =
    (stoi (entry (codes "Content-Length") params) ≡ some n)
    × (lookup (codes "Transfer-Encoding") params ≡ none)
    × (b : Text) × (find (codes "\r\n\r\n") buf ≡ some (a, b))

header_longer :
    (n : ℕ) (a buf x : Text) (params : Map Text Text)
    → HasHeader n a buf params
    → HasHeader n a (buf ++ x) params
header_longer n a buf x params (h, g, b, f) =
    (h, g, b ++ x, find_longer (codes "\r\n\r\n") buf x a b f)

module _ {T : Type 0} (handlers : Handlers T) (n : ℕ) (a : Text) (flag : Bool) (sent : Text) where
  full_body :
      (buf : Text) (params : Map Text Text)
      → HasHeader n a buf params
      → is_full_body buf params ≡ ok (leb (n + (length a + 4)) (length buf))
  unfolding is_full_body body_sidx
  full_body buf params (h, g, b, f) = rw (is_full_body, body_sidx, h, f) refl

  abbrev done : Text → Map Text Text → T → Outcome (Client × T)
  done buf params t = handlers.handle_post buf params flag t >>= λ q.
      ok (finish_request (holding buf params flag sent) q)

  dispatch-post :
      (r : Text) (params : Map Text Text) (t : T)
      → HasHeader n a (codes "POST " ++ r) params
      → dispatch handlers (holding (codes "POST " ++ r) params flag sent) t ≡ (
          if leb (n + (length a + 4)) (length (codes "POST " ++ r))
          then done (codes "POST " ++ r) params t
          else ok (holding (codes "POST " ++ r) params flag sent, t))
  unfolding dispatch when_full starts_with
  dispatch-post r params t h =
      ap
        (λ (o : Outcome Bool). o >>= λ full.
          (if full
            then done (codes "POST " ++ r) params t
            else ok (holding (codes "POST " ++ r) params flag sent, t)))
        (full_body (codes "POST " ++ r) params h)

  dispatch-part :
      (r : Text) (params : Map Text Text) (t : T)
      → HasHeader n a (codes "POST " ++ r) params
      → length (codes "POST " ++ r) < n + (length a + 4)
      → dispatch handlers (holding (codes "POST " ++ r) params flag sent) t
        ≡ ok (holding (codes "POST " ++ r) params flag sent, t)
  dispatch-part r params t h k =
      dispatch-post r params t h ∙ rw (not_yet (length (codes "POST " ++ r)) k) refl
    where
      not_yet : (l : ℕ) → l < n + (length a + 4) → leb (n + (length a + 4)) l ≡ false
      not_yet l k = ground (arith, k)

  dispatch-full :
      (r : Text) (params : Map Text Text) (t : T)
      → HasHeader n a (codes "POST " ++ r) params
      → n + (length a + 4) ≤ length (codes "POST " ++ r)
      → dispatch handlers (holding (codes "POST " ++ r) params flag sent) t
        ≡ done (codes "POST " ++ r) params t
  dispatch-full r params t h k =
      dispatch-post r params t h ∙ rw (enough (length (codes "POST " ++ r)) k) refl
    where
      enough : (l : ℕ) → n + (length a + 4) ≤ l → leb (n + (length a + 4)) l ≡ true
      enough l k = ground (arith, k)

  -- The header is parsed on the first read.
  read_first :
      (lines : List Text) (r : Text) (t : T)
      → HasHeader n a (codes "POST " ++ r) (get_client_params (codes "POST " ++ r))
      → serve_read handlers lines (codes "POST " ++ r) (holding [] [] flag sent) t
        ≡ dispatch handlers
            (holding (codes "POST " ++ r) (get_client_params (codes "POST " ++ r)) flag sent)
            t
  unfolding serve_read read_transfer
  read_first lines r t (h, g, b, f) = rw (serve_read, read_transfer, g) refl

  read_later :
      (lines : List Text) (r chunk : Text) (x : ℕ) (params : Map Text Text) (t : T)
      → HasHeader n a (codes "POST " ++ r) params
      → serve_read handlers lines (x ∷ chunk) (holding (codes "POST " ++ r) params flag sent) t
        ≡ dispatch handlers (holding (codes "POST " ++ (r ++ x ∷ chunk)) params flag sent) t
  unfolding serve_read read_transfer entry stoi
  read_later lines r chunk x [] t (h, g, b, f) = cc
  read_later lines r chunk x (p ∷ params) t (h, g, b, f) = rw (serve_read, read_transfer, g) refl

  read_part :
      (lines : List Text) (r chunk : Text) (params : Map Text Text) (t : T)
      → HasHeader n a (codes "POST " ++ r) params
      → length (codes "POST " ++ (r ++ chunk)) < n + (length a + 4)
      → serve_read handlers lines chunk (holding (codes "POST " ++ r) params flag sent) t
        ≡ ok (holding (codes "POST " ++ (r ++ chunk)) params flag sent, t)
  unfolding serve_read
  read_part lines r [] params t h k =
      ap (λ z. ok (holding (codes "POST " ++ z) params flag sent, t)) (sym (append-nil r))
  read_part lines r (x ∷ chunk) params t h k =
      read_later lines r chunk x params t h
      ∙ dispatch-part (r ++ x ∷ chunk) params t
          (header_longer n a (codes "POST " ++ r) (x ∷ chunk) params h) k

  read_parts :
      (parts : List Text) (r last : Text) (rest : List Text) (params : Map Text Text) (t : T)
      → HasHeader n a (codes "POST " ++ r) params
      → length (codes "POST " ++ (r ++ concat parts)) < n + (length a + 4)
      → n + (length a + 4) ≤ length (codes "POST " ++ (r ++ (concat parts ++ last)))
      → serve_reads handlers
          (parts ++ last ∷ rest)
          (holding (codes "POST " ++ r) params flag sent)
          t
        ≡ (done (codes "POST " ++ (r ++ (concat parts ++ last))) params t >>= λ (d, u).
            serve_reads handlers rest d u)
  unfolding serve_reads
  read_parts [] r [] rest params t h k l = absurd (too_short l k)
    where
      too_short : {x y : ℕ} → x ≤ y → y < x → ⊥
      too_short l k = omega (arith, l, k)
  read_parts [] r (x ∷ last) rest params t h k l =
      ap (λ (o : Outcome (Client × T)). o >>= λ (d, u). serve_reads handlers rest d u)
        (read_later (readline (concat rest) []) r last x params t h
          ∙ dispatch-full (r ++ x ∷ last) params t
              (header_longer n a (codes "POST " ++ r) (x ∷ last) params h) l)
  read_parts (chunk ∷ parts) r last rest params t h k l =
      ap
        (λ (o : Outcome (Client × T)).
          o >>= λ (d, u). serve_reads handlers (parts ++ last ∷ rest) d u)
        (read_part (readline (concat (parts ++ last ∷ rest)) []) r chunk params t h (shorter r k))
      ∙ read_parts parts (r ++ chunk) last rest params t
          (header_longer n a (codes "POST " ++ r) chunk params h)
          (subst (λ z. length (codes "POST " ++ z) < n + (length a + 4))
            (sym (append_assoc r chunk (concat parts))) k)
          (subst (λ z. n + (length a + 4) ≤ length (codes "POST " ++ z)) regroup l)
      ∙ ap (λ z. done (codes "POST " ++ z) params t >>= λ (d, u). serve_reads handlers rest d u)
          (sym regroup)
    where
      regroup : r ++ ((chunk ++ concat parts) ++ last) ≡ (r ++ chunk) ++ (concat parts ++ last)
      regroup = simp (append_assoc)

      shorter :
          (r : Text)
          → length (codes "POST " ++ (r ++ (chunk ++ concat parts))) < n + (length a + 4)
          → length (codes "POST " ++ (r ++ chunk)) < n + (length a + 4)
      shorter r k = omega (
        arith,
        k,
        length-append r (chunk ++ concat parts),
        length-append chunk (concat parts),
        length-append r chunk,
      )

  -- A POST request that comes in several reads is handled once, whole, by the read that completes
  -- it, with the header as the first read had it; what comes later goes on behind the answer. The
  -- first read holds the whole header, which gives the length of the body and names no transfer
  -- encoding, and the reads in front of the last do not complete the body.
  pub post_in_parts :
      (parts : List Text) (r last : Text) (rest : List Text) (t : T)
      → HasHeader n a (codes "POST " ++ r) (get_client_params (codes "POST " ++ r))
      → length (codes "POST " ++ (r ++ concat parts)) < n + (length a + 4)
      → n + (length a + 4) ≤ length (codes "POST " ++ (r ++ (concat parts ++ last)))
      → serve_reads handlers
          ((codes "POST " ++ r) ∷ (parts ++ last ∷ rest))
          (holding [] [] flag sent)
          t
        ≡ (done
              (codes "POST " ++ (r ++ (concat parts ++ last)))
              (get_client_params (codes "POST " ++ r))
              t
            >>= λ (d, u). serve_reads handlers rest d u)
  unfolding serve_reads
  post_in_parts parts r last rest t h k l =
      ap
        (λ (o : Outcome (Client × T)).
          o >>= λ (d, u). serve_reads handlers (parts ++ last ∷ rest) d u)
        (read_first (readline (concat (parts ++ last ∷ rest)) []) r t h
          ∙ dispatch-part r (get_client_params (codes "POST " ++ r)) t h (shorter r k))
      ∙ read_parts parts r last rest (get_client_params (codes "POST " ++ r)) t h k l
    where
      shorter :
          (r : Text)
          → length (codes "POST " ++ (r ++ concat parts)) < n + (length a + 4)
          → length (codes "POST " ++ r) < n + (length a + 4)
      shorter r k = omega (arith, k, length-append r (concat parts))
