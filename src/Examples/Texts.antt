-- ===== src/Examples/Texts.antt =====
-- The front end's helpers on short texts.
use penn_mail_and_penn_drive.Base.Text.{after}
use penn_mail_and_penn_drive.Base.Text.{atoi}
use penn_mail_and_penn_drive.Base.Text.{to_string}
use penn_mail_and_penn_drive.Base.Text.{has_text}
use penn_mail_and_penn_drive.Frontend.Messages.{ukv_line}
use penn_mail_and_penn_drive.Base.Text.{find}
use penn_mail_and_penn_drive.Base.Text.{split}
use penn_mail_and_penn_drive.Base.Text.{before}
use penn_mail_and_penn_drive.Base.Text.{stoi}
use penn_mail_and_penn_drive.Base.Text.{after?}
use penn_mail_and_penn_drive.Base.Text.{starts_with}
use penn_mail_and_penn_drive.Base.{
  ℕ, ◌*◌, ◌≤◌, ◌<◌, ◌≡◌, refl, ◌≢◌, some, [], ◌∷◌, arith, nat_eq, list_eq, pair_eq, ok, blocked,
  ◌⊎◌, stopped, ◌>>=◌,
}
use penn_mail_and_penn_drive.Base.Text.{Text, codes}
use penn_mail_and_penn_drive.Base.Maps.{Map, lookup}
use penn_mail_and_penn_drive.Frontend.Strings.{strip, count_substring, replace}
use penn_mail_and_penn_drive.Frontend.Strings.Laws.{count_substring_bound}
use penn_mail_and_penn_drive.Frontend.Bytes.{stobs, bstoby, bytob64}
use penn_mail_and_penn_drive.Frontend.Bytes.Laws.{from_base64, bytes_roundtrip}
use penn_mail_and_penn_drive.Frontend.Json.{parse_json_string, map_to_json}
use penn_mail_and_penn_drive.Frontend.Json.Laws.{parse-map_to_json, parse_json_string_ends}
use penn_mail_and_penn_drive.Frontend.Messages.{bend_address, shutdown_line, put_line, cut_at}
use penn_mail_and_penn_drive.Membership.{
  HttpServer, handle_fserver_state, get_roundrobin_redirect, redirect_to,
}
use penn_mail_and_penn_drive.Membership.Redirects.{
  IsFound, IsDead, place, get_roundrobin_redirect-alive,
}
use penn_mail_and_penn_drive.Command.{put_command}
use penn_mail_and_penn_drive.Frontend.Url.{params_to_url, params_from_url, url_decode}
use penn_mail_and_penn_drive.Frontend.Url.Laws.{params-printed}
use penn_mail_and_penn_drive.Frontend.Chunks.{write_to_chunk_transfer}

bytob64_man : bytob64 (codes "Man") ≡ codes "TWFu"
unfolding bytob64
bytob64_man = refl

bytob64_ma : bytob64 (codes "Ma") ≡ codes "TWE="
unfolding bytob64
bytob64_ma = refl

replace_first : replace (codes "a/b/a/c") (codes "a/") (codes "x/") ≡ codes "x/b/a/c"
unfolding replace
replace_first = refl

strip_blanks : strip (codes " a b\r\n") ≡ codes "ab"
unfolding strip
strip_blanks = refl

url_decode_escape : url_decode (codes "a%40b+c%") ≡ codes "a@b c%"
unfolding url_decode
url_decode_escape = refl

write_two_chunks : write_to_chunk_transfer (codes "hello") 4 ≡ ok (codes "4\r\nhell\r\n1\r\no\r\n0")
unfolding write_to_chunk_transfer
write_two_chunks = refl

parse_broken : parse_json_string (codes "{\"a\":1}") ≡ stopped
unfolding parse_json_string
parse_broken = refl

overlapping_runs : count_substring (codes "aaaa") (codes "aa") * 2 ≤ 4
overlapping_runs = count_substring_bound (codes "aaaa") (codes "aa")

hi_and_back :
    (bstoby (stobs (codes "hi")) ≡ some (codes "hi"))
    × (from_base64 (bytob64 (codes "hi")) ≡ codes "hi")
hi_and_back = bytes_roundtrip (codes "hi") (omega arith, (omega arith, tt))

abbrev entries : Map Text Text
entries = (codes "a", codes "x") ∷ (codes "b", codes "y") ∷ []

parse-map_to_json_example :
    (r : Map Text Text) × (parse_json_string (map_to_json entries) ≡ ok r)
    × ((k : Text) → lookup k r ≡ lookup k entries)
unfolding lookup
parse-map_to_json_example = parse-map_to_json entries (ground arith) (refl, (refl, tt))

parse_json_string_ends_example : parse_json_string (codes "{\"a\":\"b\"") ≢ blocked
parse_json_string_ends_example = parse_json_string_ends (codes "{\"a\":\"b\"")

params-printed_example :
    (r : Map Text Text) × ((params_to_url entries >>= params_from_url) ≡ ok r)
    × ((j : Text) → lookup j r ≡ lookup j entries)
unfolding lookup
params-printed_example =
    params-printed (codes "a") (codes "x") ((codes "b", codes "y") ∷ []) (ground arith)
      (refl, (refl, tt))

bend_address_answer : bend_address (codes "+OK 10.0.0.2:6000") ≡ ok (some (codes "10.0.0.2", 6000))
unfolding bend_address starts_with after? stoi before
bend_address_answer = refl

shutdown_line_status :
    shutdown_line (codes "1-10.0.0.1:1:2:3-ON") ≡ ok (codes "STOP passwd 10.0.0.1:1:2:3\r\n")
unfolding shutdown_line after? split
shutdown_line_status = refl

-- The line that the front end sends is the command that the storage server reads.
put_line_command :
    cut_at (codes "\r\n") (put_line (codes "ada") (codes "mail") (codes "hi"))
    ≡ put_command (codes "ada") (codes "mail") (codes "hi")
unfolding cut_at find ukv_line
put_line_command = refl

abbrev old_server : HttpServer
old_server = record {
  ipaddr = codes "127.0.0.1";
  port = 8000;
  last_heartbeat = 3;
  num_connections = 0;
}

abbrev fresh_server : HttpServer
fresh_server = record old_server { port = 8001; last_heartbeat = 20 }

redirect_past_old :
    get_roundrobin_redirect (old_server ∷ fresh_server ∷ []) 4 21 ≡ codes "http://localhost:8001/"
unfolding get_roundrobin_redirect has_text to_string
redirect_past_old = refl

heartbeat_added :
    handle_fserver_state
      (λ s. some 0)
      []
      20
      (codes "key")
      (codes "HTBTG key 0.0.0.0:8001\r\n")
      (record { s_addr = 1; sin_port = 9 })
      (old_server ∷ [])
    ≡ ok (old_server ∷ fresh_server ∷ [])
unfolding handle_fserver_state starts_with atoi after
heartbeat_added = refl

get_roundrobin_redirect-alive_example :
    ((s : HttpServer) × IsFound 2 4 21 (old_server ∷ fresh_server ∷ []) s
      × (get_roundrobin_redirect (old_server ∷ fresh_server ∷ []) 4 21 ≡ redirect_to s))
    ⊎ (((i : ℕ) → i < 2 → IsDead 21 (old_server ∷ fresh_server ∷ []) (place i 4 2))
        × (get_roundrobin_redirect (old_server ∷ fresh_server ∷ []) 4 21 ≡ []))
get_roundrobin_redirect-alive_example =
    get_roundrobin_redirect-alive (old_server ∷ fresh_server ∷ []) 4 21
