-- ===== src/Web.antt =====
-- A client's connection to the HTTP server: `handle_http_client` of frontend/src/http.cc with what
-- it calls of frontend/src/chunk.cc and frontend/src/ioutils.cc. The handlers of the methods stand
-- behind an interface.
pub mod Parts
pub mod Admin
pub mod Pages
use penn_mail_and_penn_drive.Base.{
  ℕ, Bool, true, false, ◌&&◌, leb, ◌+◌, ◌==◌, Option, none, some, List, [], ◌∷◌, ◌++◌, map,
  if◌then◌else◌, ◌=?◌, nat_eq, list_eq, length, Outcome, ok, blocked, stopped, ◌>>=◌,
}
use penn_mail_and_penn_drive.Base.Text.{Text, codes, before, starts_with}
use penn_mail_and_penn_drive.Base.Maps.{Map, lookup}
use penn_mail_and_penn_drive.Frontend.Strings.{ends_in}
use penn_mail_and_penn_drive.Frontend.Ordered.{store}
use penn_mail_and_penn_drive.Drive.{entry, create_http_response}
use penn_mail_and_penn_drive.Accounts.{get_client_params, is_full_body}

-- A handler gets `do_close_connection` and gives it back.
pub record Handlers (T : Type 0) : Type 0 where
  pub handle_get : Bool → Map Text Text → Bool → T → Outcome (Text × Bool × T)
  pub handle_post : Text → Map Text Text → Bool → T → Outcome (Text × Bool × T)
  pub handle_delete : Text → Map Text Text → Bool → T → Outcome (Text × Bool × T)

-- What the thread keeps between two reads, and what it wrote.
pub record Client : Type 0 where
  pub buf : Text
  pub reqdata : Map Text Text
  pub do_close_connection : Bool
  pub closed : Bool
  pub sent : Text

-- `read_from_chunk_transfer`, on the lines that the client sends. The size is never read: it stays
-- the largest number, and adding two wraps it around to 1. The blank line ends the process, popping
-- two bytes off a text of one is undefined, and the payload that grows is a copy.
unfoldable pub read_from_chunk_transfer : List Text → Text → Outcome (Unit {0})
read_from_chunk_transfer [] buf = blocked
read_from_chunk_transfer (line ∷ lines) buf =
    let more = read_from_chunk_transfer lines (buf ++ line) in
    if (buf ++ line) =? codes "\r\n"
    then stopped
    else if length (buf ++ line) == 1
    then stopped
    else more

-- What `readline` gives, one line after another. A line that has not ended is waited for.
unfoldable pub readline : Text → Text → List Text
unfolding ends_in
readline [] line = []
readline (c ∷ s) line =
    let ended = (line ++ c ∷ []) ∷ readline s [] in
    let longer = readline s (line ++ c ∷ []) in
    if (c == 10) && ends_in 13 line then ended else longer

-- What comes in by several reads.
abbrev pub concat : List Text → Text
concat [] = []
concat (chunk ∷ chunks) = chunk ++ concat chunks

abbrev to_lower : ℕ → ℕ
to_lower c = if leb b'A' c && leb c b'Z' then c + 32 else c

-- A chunked request goes on with what the client sends next, in lines.
unfoldable pub read_transfer : List Text → Map Text Text → Outcome (Map Text Text)
unfolding read_from_chunk_transfer store
read_transfer lines params = elim (lookup (codes "Transfer-Encoding") params) [
  | none ↦ ok params
  | some encoding ↦
      let lowered = store (codes "Transfer-Encoding") (map to_lower encoding) params in
      if map to_lower encoding =? codes "chunked"
      then (read_from_chunk_transfer lines [] >>= λ _. ok lowered)
      else ok lowered
]

-- `send_response` measures the text up to its first zero byte.
unfoldable pub send_response : Text → Client → Client
unfolding before
send_response response c = record c { sent = c.sent ++ before 0 response }

-- The answer goes out with a blank line behind it, and the request is forgotten.
unfoldable pub finish_request : {T : Type 0} → Client → Text × Bool × T → Client × T
unfolding send_response
finish_request c (response, do_close, t) = (
  send_response (response ++ codes "\r\n\r\n")
      (record c { buf = []; reqdata = []; do_close_connection = do_close; closed = do_close }),
  t,
)

module _ {T : Type 0} (handlers : Handlers T) where
  -- A handler with a body waits for all of it.
  unfoldable pub when_full : Client → T → Outcome (Text × Bool × T) → Outcome (Client × T)
  unfolding finish_request is_full_body
  when_full c t handled = is_full_body c.buf c.reqdata >>= λ full.
      if full then (handled >>= λ r. ok (finish_request c r)) else ok (c, t)

  -- The method stands first in the buffer. `handle_ERR` throws.
  unfoldable pub dispatch : Client → T → Outcome (Client × T)
  unfolding when_full finish_request starts_with entry create_http_response
  dispatch c t =
      let flag = c.do_close_connection in
      if starts_with (codes "GET ") c.buf
      then (handlers.handle_get false c.reqdata flag t >>= λ r. ok (finish_request c r))
      else if starts_with (codes "HEAD ") c.buf
      then (handlers.handle_get true c.reqdata flag t >>= λ r. ok (finish_request c r))
      else if starts_with (codes "POST ") c.buf
      then when_full c t (handlers.handle_post c.buf c.reqdata flag t)
      else if starts_with (codes "DELETE") c.buf
      then when_full c t (handlers.handle_delete c.buf c.reqdata flag t)
      else if starts_with (codes "OPTIONS ") c.buf
      then (create_http_response 200 [] (entry (codes "Host") c.reqdata) >>= λ response.
          ok (finish_request c (response, flag, t)))
      else stopped

  -- A read that got `chunk`; `lines` is what the client sends next. An empty read, or one that
  -- fails, is tried again. The header is parsed on the first read only.
  unfoldable pub serve_read : List Text → Text → Client → T → Outcome (Client × T)
  unfolding dispatch read_transfer get_client_params
  serve_read lines [] c t = ok (c, t)
  serve_read lines (x ∷ chunk) c t =
      let buf = c.buf ++ x ∷ chunk in
      let reqdata = elim c.reqdata as (λ _. Map Text Text) [
        | [] ↦ get_client_params buf
        | p ∷ params ↦ p ∷ params
      ] in
      read_transfer lines reqdata >>= λ params.
      dispatch (record c { buf = buf; reqdata = params }) t

  -- The reads of a connection, up to the request that closes it.
  unfoldable pub serve_reads : List Text → Client → T → Outcome (Client × T)
  unfolding serve_read readline
  serve_reads [] c t = ok (c, t)
  serve_reads (chunk ∷ chunks) c t =
      if c.closed
      then ok (c, t)
      else (serve_read (readline (concat chunks) []) chunk c t >>= λ (d, u). serve_reads chunks d u)
