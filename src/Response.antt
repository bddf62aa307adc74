-- ===== src/Response.antt =====
-- mk_header_send of src/mk_header.c: the status line and the headers of a response, as the entries of
-- an I/O vector of src/mk_iov.c.
pub mod Vectors
pub mod Entries
pub mod Length
use monkey.Prelude.{
  ℕ, ◌+◌, ◌-◌, ◌%◌, ◌^◌, Bool, true, false, ◌&&◌, ◌||◌, not, Option, none, some, List, [], ◌∷◌,
  ◌++◌, length, take, ltb, leb, ◌==◌, if◌then◌else◌, ℤ, pos, negsuc, minus_one, ltb_ℤ, leb_ℤ, eq_ℤ,
  ◌-ℤ◌, reverse,
}
use monkey.Libc.{Bytes, codes, cstr}
use monkey.Libc.Numbers.{to_int}
use monkey.Text.{digit_loop, string_itop}
use monkey.Types.{Pointer, ResponseHeaders, SessionRequest, ClientSession, ServerConfig, crlf, null}
use monkey.Session.{keepalive_check}
use monkey.Http.Status.{status_response, find_status}
use monkey.Date.{Tm, GmtCache, utime2gmt}

-- An I/O vector with its entries so far; `none` stands for an abort by mk_bug, or for an entry whose
-- length is not that of its text.
abbrev pub Vector : Type 0
Vector = Option (List Bytes)

-- The size that mk_cache_thread_init gives the vector of the headers.
abbrev pub iov_size : ℕ
iov_size = 32

abbrev pub entry_and : Bytes → Bytes → List Bytes
entry_and buf sep = buf ∷ (if ltb 0 (length sep) then sep ∷ [] else [])

-- mk_iov_add_entry
unfoldable pub add_entry : Bytes → Bytes → Vector → Vector
add_entry buf sep none = none
add_entry buf sep (some io) =
    let io' = io ++ entry_and buf sep in if ltb iov_size (length io') then none else some io'

-- The text of a pointer that is set.
abbrev pub text_of : Pointer → Bytes
text_of p = elim p.data_at [ none ↦ [] | some text ↦ take p.len text ]

-- MK_CUSTOM_STATUS
abbrev pub custom : ℕ
custom = 7

unfoldable pub status_line : ResponseHeaders → Option Bytes
status_line sh =
    if sh.status == custom
    then some (text_of sh.custom_status)
    else find_status sh.status status_response

unfoldable pub add_status : ResponseHeaders → Vector → Vector
add_status sh io = elim (status_line sh) [ none ↦ none | some response ↦ add_entry response [] io ]

-- A date that cannot be written would have the length -1.
unfoldable pub add_date : ℤ × Option Bytes → Vector → Vector
add_date (pos len, some text) io = add_entry (codes "Last-Modified: ") (take len text) io
add_date (_, _) io = none

unfoldable pub add_last_modified : (ℤ → ℤ × Option Bytes) → ResponseHeaders → Vector → Vector
unfolding add_date
add_last_modified gmt sh io =
    if ltb_ℤ (pos 0) sh.last_modified then add_date (gmt sh.last_modified) io else io

-- printf's `%i`, `%d` and `%ld`; a long has 19 digits at most.
unfoldable pub decimal : ℤ → Bytes
decimal (pos n) = reverse (digit_loop 20 n)
decimal (negsuc n) = b'-' ∷ reverse (digit_loop 20 (n + 1))

-- The requests that the client may still send on its connection.
abbrev pub left_of : ServerConfig → ClientSession → ℤ
left_of config cs = to_int (pos config.max_keep_alive_request -ℤ pos cs.counter_connections)

unfoldable pub add_connection : ServerConfig → ClientSession → SessionRequest → Vector → Vector
add_connection config cs sr io =
    if eq_ℤ sr.headers.connection (pos 0)
    then (if eq_ℤ (keepalive_check config cs) (pos 0)
        then (if ltb 0 sr.connection.len
            then add_entry (string_itop (left_of config cs))
                (codes "Connection: Keep-Alive" ++ crlf)
                (add_entry
                  (codes "Keep-Alive: timeout="
                    ++ decimal (pos config.keep_alive_timeout)
                    ++ codes ", max=")
                  [] io)
            else io)
        else add_entry (codes "Connection: Close" ++ crlf) [] io)
    else io

unfoldable pub add_location : ResponseHeaders → Vector → Vector
add_location sh io = elim sh.location [
  | none ↦ io
  | some location ↦ add_entry (cstr location) crlf (add_entry (codes "Location: ") [] io)
]

unfoldable pub add_content_type : ResponseHeaders → Vector → Vector
add_content_type sh io =
    if ltb 0 sh.content_type.len
    then add_entry (codes "Content-Type: ") (text_of sh.content_type) io
    else io

-- MK_HEADER_TE_TYPE_CHUNKED is 0.
unfoldable pub add_transfer_encoding : ResponseHeaders → Vector → Vector
add_transfer_encoding sh io =
    if (ltb sh.status 300 || ltb 305 sh.status) && eq_ℤ sh.transfer_encoding (pos 0)
    then add_entry (codes "Transfer-Encoding: Chunked" ++ crlf) [] io
    else io

unfoldable pub add_content_encoding : ResponseHeaders → Vector → Vector
add_content_encoding sh io =
    if ltb 0 sh.content_encoding.len
    then add_entry (text_of sh.content_encoding) [] (add_entry (codes "Content-Encoding: ") [] io)
    else io

-- mk_string_itop takes an int.
unfoldable pub add_content_length : ResponseHeaders → Vector → Vector
add_content_length sh io =
    if leb_ℤ (pos 0) sh.content_length
    then add_entry (codes "Content-Length: ") (string_itop (to_int sh.content_length)) io
    else io

abbrev pub content_range : ℤ → ℤ → ℤ → Bytes
content_range from to total =
    codes "Content-Range: bytes "
    ++ decimal from
    ++ (b'-' ∷ [])
    ++ decimal to
    ++ (b'/' ∷ [])
    ++ decimal total

-- The three forms of a range, each an `if` of its own in the source.
unfoldable pub add_range_open : ResponseHeaders → Vector → Vector
add_range_open sh io =
    if leb_ℤ (pos 0) sh.range_from && eq_ℤ sh.range_to minus_one
    then add_entry (content_range sh.range_from (sh.real_length -ℤ pos 1) sh.real_length) crlf io
    else io

unfoldable pub add_range_closed : ResponseHeaders → Vector → Vector
add_range_closed sh io =
    if leb_ℤ (pos 0) sh.range_from && leb_ℤ (pos 0) sh.range_to
    then add_entry (content_range sh.range_from sh.range_to sh.real_length) crlf io
    else io

unfoldable pub add_range_suffix : ResponseHeaders → Vector → Vector
add_range_suffix sh io =
    if eq_ℤ sh.range_from minus_one && ltb_ℤ (pos 0) sh.range_to
    then add_entry
        (content_range (sh.real_length -ℤ sh.range_to) (sh.real_length -ℤ pos 1) sh.real_length)
        crlf io
    else io

abbrev pub has_range : ServerConfig → ResponseHeaders → Bool
has_range config sh =
    not (eq_ℤ sh.content_length (pos 0))
    && (leb_ℤ (pos 0) sh.range_from || leb_ℤ (pos 0) sh.range_to)
    && config.resume

unfoldable pub add_content_range : ServerConfig → ResponseHeaders → Vector → Vector
add_content_range config sh io =
    if has_range config sh
    then add_range_suffix sh (add_range_closed sh (add_range_open sh io))
    else io

-- SH_NOCGI is 0, MK_HEADER_BREAKLINE is 1.
abbrev pub ends_headers : ResponseHeaders → Bool
ends_headers sh = sh.cgi == 0 || eq_ℤ sh.breakline (pos 1)

-- The empty line; it goes behind the rows that a plugin has added, if there are any, which are a vector
-- of their own.
unfoldable pub add_break : ResponseHeaders → Vector → Vector
add_break sh io =
    if ends_headers sh then elim sh.extra_rows [ none ↦ add_entry crlf [] io | some _ ↦ io ] else io

abbrev pub extra_entries : ResponseHeaders → List Bytes
extra_entries sh = elim sh.extra_rows [
  | none ↦ []
  | some rows ↦ if ends_headers sh then rows ++ (crlf ∷ []) else rows
]

-- What the headers of every response of a worker need: the server's line, the date of today as the
-- clock thread writes it, and the dates that mk_utils_utime2gmt writes.
pub record Banner : Type 0 where
  pub host_signature : Bytes
  pub current_time : Bytes
  pub gmtime : ℤ → Option Tm
  pub clock : Option ℤ
  pub cache : List GmtCache

abbrev pub gmt_of : Banner → ℤ → ℤ × Option Bytes
gmt_of b date = let r = utime2gmt b.gmtime b.clock date b.cache in (r.0, r.1)

-- The vector that mk_header_send fills; `cs` has the request in its list as it is now.
unfoldable pub header_vector : ServerConfig → Banner → ClientSession → SessionRequest → Vector
header_vector config b cs sr =
    let sh = sr.headers in
    add_break sh (
      add_content_range config sh (
        add_content_length sh (
          add_content_encoding sh (
            add_transfer_encoding sh (
              add_content_type sh (
                add_location sh (
                  add_connection config cs sr (
                    add_last_modified (gmt_of b) sh (
                      add_entry (codes "Date: ") b.current_time
                        (add_entry b.host_signature crlf (add_status sh (some []))))))))))))

-- mk_header_send: the entries that go to the socket, first those of the vector.
unfoldable pub header_send :
    ServerConfig → Banner → ClientSession → SessionRequest → Option (List Bytes)
header_send config b cs sr = elim (header_vector config b cs sr) [
  | none ↦ none
  | some io ↦ some (io ++ extra_entries sr.headers)
]
