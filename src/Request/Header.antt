-- ===== src/Request/Header.antt =====
-- The request line and the headers of a request: mk_request_header_process of src/mk_request.c.
-- `method_p` and `protocol_p`, the texts of the method and the version, are those of check_str.
use monkey.Prelude.{
  ℕ, ◌+◌, ◌-◌, ◌%◌, ◌^◌, Bool, true, false, ◌&&◌, not, Option, none, some, [], ◌∷◌, take, drop, ltb,
  leb, ◌==◌, if◌then◌else◌, ℤ, pos, negsuc, minus_one, pos_part, leb_ℤ, ltb_ℤ, eq_ℤ, ◌+ℤ◌, ◌-ℤ◌,
  position,
}
use monkey.Libc.{Bytes, codes, cstr, strlen, index, isdigit}
use monkey.Libc.Numbers.{to_int, strtol}
use monkey.Text.{insensitive, char_search, char_search_r, string_search_n}
use monkey.Url.{url_decode}
use monkey.Types.{Pointer, SessionRequest, ServerConfig, protocol_10, protocol_11, sub_word}
use monkey.Toc.{toc_parse, header_get}
use monkey.Http.Methods.{protocol_check}

-- mk_pointer_create
unfoldable pub pointer_create : Bytes → ℕ → ℕ → Pointer
pointer_create buf init end = record {
  data_at = some (drop init buf);
  len = (if init == end then 1 else sub_word end init);
}

-- The positions of the first and the last byte of the URI, with its query. `fh_limit` is the
-- position of the first line's newline. Without a space the second search returns -1 too.
unfoldable pub uri_bounds : Bytes → ℕ → Option (ℕ × ℕ)
uri_bounds text fh_limit =
    let init = position (index text b' ') +ℤ pos 1 in
    let end = char_search_r text b' ' (pos fh_limit) -ℤ pos 1 in
    if leb_ℤ end (pos 0)
    then none
    else if ltb_ℤ end init
    then none
    else some (pos_part init, pos_part end)

-- The query string, and the last position of the URI in front of it.
unfoldable pub split_query : Bytes → ℕ → ℕ → Pointer → Pointer × ℕ
split_query text uri_init uri_end query_string =
    let query_init = char_search (drop uri_init text) b'?' (pos (uri_end + 2)) in
    let init = pos_part query_init + uri_init in
    if ltb_ℤ (pos 0) query_init && leb init uri_end
    then (pointer_create text (init + 1) (uri_end + 1), init - 1)
    else (query_string, uri_end)

abbrev pub or_processed : Option Bytes → Pointer → Pointer
or_processed none uri = uri
or_processed (some temp) uri = record { data_at = some temp; len = strlen temp }

abbrev pub bytes_of : Pointer → Bytes
bytes_of p = elim p.data_at [ none ↦ [] | some s ↦ s ]

-- The value of a header, and the request with the row marked.
abbrev pub lookup : Bytes → ℕ → SessionRequest → Pointer × SessionRequest
lookup key key_len sr =
    let found = header_get sr.headers_toc key key_len in
    (found.0, record sr { headers_toc = found.1 })

-- A long that is stored in a short.
unfoldable pub to_short : ℤ → ℤ
to_short (pos n) =
    if ltb (n % 2 ^ 16) (2 ^ 15) then pos (n % 2 ^ 16) else negsuc (2 ^ 16 - n % 2 ^ 16 - 1)
to_short (negsuc n) =
    if ltb (n % 2 ^ 16) (2 ^ 15) then negsuc (n % 2 ^ 16) else pos (2 ^ 16 - n % 2 ^ 16 - 1)

abbrev pub all_digits : Bytes → Bool
all_digits [] = true
all_digits (c ∷ s) = isdigit c && all_digits s

-- A host with a port behind position `pos_sep`. A negative length of the port is given to memcpy as a
-- huge one: the behaviour is undefined, which is `none`.
unfoldable pub host_port_at : Bytes → ℕ → ℕ → SessionRequest → Option (ℤ × SessionRequest)
host_port_at text len pos_sep sr =
    let port_len = to_short (pos (sub_word len (pos_sep + 1))) in
    let port = cstr (take (pos_part port_len) (drop (pos_sep + 1) text)) in
    let sr' : SessionRequest = record sr {
      host = record { data_at = some text; len = pos_sep };
      host_port = record { data_at = some text; len = len };
    } in
    if leb_ℤ (pos 6) port_len
    then some (minus_one, sr')
    else if ltb_ℤ port_len (pos 0)
    then none
    else if not (all_digits port)
    then some (minus_one, sr')
    else some (
      (if eq_ℤ (strtol port) (pos 0) then minus_one else pos 0),
      record sr' { port = strtol port },
    )

-- The host, with its port or the standard one.
unfoldable pub host_step : ServerConfig → Pointer → SessionRequest → Option (ℤ × SessionRequest)
host_step config host sr = elim host.data_at [
  | none ↦ some (pos 0, record sr { host = record sr.host { data_at = none } })
  | some text ↦ elim (char_search_r text b':' (to_int (pos host.len))) [
    | pos pos_sep ↦ host_port_at text host.len pos_sep sr
    | negsuc _ ↦ some (pos 0, record sr { host = host; port = pos config.standard_port })
  ]
]

abbrev pub with_close : Bool → SessionRequest → SessionRequest
with_close close sr = record sr { keep_alive = not close; close_now = close }

unfoldable pub default_keep_alive : SessionRequest → SessionRequest
default_keep_alive sr =
    if eq_ℤ sr.protocol protocol_10
    then with_close true sr
    else if eq_ℤ sr.protocol protocol_11
    then with_close false sr
    else sr

-- What the Connection header says.
unfoldable pub connection_step : SessionRequest → SessionRequest
connection_step sr = elim sr.connection.data_at [
  | none ↦ sr
  | some text ↦
      if leb_ℤ (pos 0)
        (string_search_n text (codes "Keep-Alive") insensitive (to_int (pos sr.connection.len)))
      then with_close false sr
      else if leb_ℤ (pos 0)
          (string_search_n text (codes "Close") insensitive (to_int (pos sr.connection.len)))
      then with_close true sr
      else record sr { connection = record sr.connection { len = 0 } }
]

-- The headers that the server uses itself, behind the host.
abbrev pub own_lookups : SessionRequest → SessionRequest
own_lookups sr =
    let connection = lookup (codes "Connection:") 11 sr in
    let range = lookup (codes "Range:") 6 connection.1 in
    let since = lookup (codes "If-Modified-Since:") 18 range.1 in
    record since.1 { connection = connection.0; range = range.0; if_modified_since = since.0 }

unfoldable pub own_headers : SessionRequest → SessionRequest
own_headers sr = connection_step (default_keep_alive (own_lookups sr))

-- The version, the decoded URI and the table of contents, for a URI from `uri_init` to `uri_end` and a
-- version from `prot_init` to `prot_end`. `headers_len` is an int; the table reads a negative one as 0.
unfoldable pub with_line : Bytes → ℕ → ℤ → Pointer → SessionRequest → SessionRequest
with_line text prot_init prot_end uri sr =
    let protocol =
      (if ltb_ℤ (pos 0) prot_end
        then protocol_check (drop prot_init text) (prot_end -ℤ pos prot_init)
        else sr.protocol) in
    let headers = pos_part (prot_end +ℤ pos 2) in
    let headers_len = to_int (pos (sub_word sr.body.len headers)) in
    record sr {
      uri = uri;
      protocol = protocol;
      uri_processed = or_processed (url_decode (bytes_of uri) uri.len) uri;
      headers_toc = toc_parse (drop headers text) (pos_part headers_len);
    }

-- The headers of a request whose first line is read.
unfoldable pub process_headers : ServerConfig → SessionRequest → Option (ℤ × SessionRequest)
process_headers config sr =
    let host = lookup (codes "Host:") 5 sr in
    elim (host_step config host.0 host.1) [
      | none ↦ none
      | some (r, sr') ↦
          if ltb_ℤ r (pos 0) then some (minus_one, sr') else some (pos 0, own_headers sr')
    ]

unfoldable pub process_line :
    ServerConfig → Bytes → ℕ → ℕ × ℕ → SessionRequest → Option (ℤ × SessionRequest)
process_line config text fh_limit (uri_init, uri_end) sr =
    let query = split_query text uri_init uri_end sr.query_string in
    let uri = pointer_create text uri_init (query.1 + 1) in
    let sr' : SessionRequest = record sr { query_string = query.0; uri = uri } in
    let prot_init = uri_end + 2 in
    let prot_end = pos fh_limit -ℤ pos 1 in
    if ltb uri.len 1
    then some (minus_one, sr')
    else if eq_ℤ (pos prot_init) prot_end
    then some (minus_one, sr')
    else process_headers config (with_line text prot_init prot_end uri sr')

unfoldable pub process_text : ServerConfig → Bytes → SessionRequest → Option (ℤ × SessionRequest)
process_text config text sr = elim (index text b'\n') [
  | none ↦ none
  | some fh_limit ↦ elim (uri_bounds text fh_limit) [
    | none ↦ some (minus_one, sr)
    | some bounds ↦ process_line config text fh_limit bounds sr
  ]
]

-- mk_request_header_process: the returned value and the request; `none` stands for undefined behaviour,
-- which a text without a newline has, or a port with a negative length.
unfoldable pub header_process : ServerConfig → SessionRequest → Option (ℤ × SessionRequest)
unfolding process_line process_text
header_process config sr = process_text config (bytes_of sr.body) sr
