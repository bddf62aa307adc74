-- ===== src/Response/Entries.antt =====
-- What mk_header_send sends: the entries of its vector as one list, and their number.
use monkey.Prelude.{
  ℕ, ◌≤◌, ◌≡◌, subst, sym, ap, ◌&&◌, ◌||◌, Bool, true, false, Option, none, some, List, [], ◌++◌,
  length, arith, ltb, if◌then◌else◌, ℤ, pos, minus_one, ltb_ℤ, leb_ℤ, eq_ℤ, ◌-ℤ◌, take,
}
use monkey.Libc.{Bytes, codes, cstr}
use monkey.Libc.Numbers.{to_int}
use monkey.Text.{string_itop}
use monkey.Types.{ResponseHeaders, SessionRequest, ClientSession, ServerConfig, crlf}
use monkey.Session.{keepalive_check}
use monkey.Response.Vectors.{Adds, Adds-skip, Adds-entry, Adds-alone, Adds-then, Adds-if}
use monkey.Response.{
  entry_and, add_entry, text_of, status_line, add_status, add_date, add_last_modified, decimal,
  left_of, add_connection, add_location, add_content_type, add_transfer_encoding,
  add_content_encoding, add_content_length, content_range, add_range_open, add_range_closed,
  add_range_suffix, has_range, add_content_range, ends_headers, add_break, extra_entries, Banner,
  gmt_of, header_vector, header_send,
}

abbrev when : Bool → List Bytes → List Bytes
when b part = if b then part else []

abbrev connection_part : ServerConfig → ClientSession → SessionRequest → List Bytes
connection_part config cs sr = when (eq_ℤ sr.headers.connection (pos 0)) (
    if eq_ℤ (keepalive_check config cs) (pos 0)
    then when (ltb 0 sr.connection.len) (
        entry_and
          (codes "Keep-Alive: timeout="
            ++ decimal (pos config.keep_alive_timeout)
            ++ codes ", max=")
          []
        ++ entry_and (string_itop (left_of config cs)) (codes "Connection: Keep-Alive" ++ crlf))
    else entry_and (codes "Connection: Close" ++ crlf) [])

abbrev location_part : Option Bytes → List Bytes
location_part none = []
location_part (some location) = entry_and (codes "Location: ") [] ++ entry_and (cstr location) crlf

abbrev range_part : ServerConfig → ResponseHeaders → List Bytes
range_part config sh = when (has_range config sh) (
    (when (leb_ℤ (pos 0) sh.range_from && eq_ℤ sh.range_to minus_one)
        (entry_and (content_range sh.range_from (sh.real_length -ℤ pos 1) sh.real_length) crlf)
      ++ when (leb_ℤ (pos 0) sh.range_from && leb_ℤ (pos 0) sh.range_to)
          (entry_and (content_range sh.range_from sh.range_to sh.real_length) crlf))
    ++ when (eq_ℤ sh.range_from minus_one && ltb_ℤ (pos 0) sh.range_to) (
        entry_and
          (content_range (sh.real_length -ℤ sh.range_to) (sh.real_length -ℤ pos 1) sh.real_length)
          crlf))

abbrev break_part : ResponseHeaders → List Bytes
break_part sh =
    when (ends_headers sh) (elim sh.extra_rows [ none ↦ entry_and crlf [] | some _ ↦ [] ])

connection-Adds :
    (config : ServerConfig) (cs : ClientSession) (sr : SessionRequest)
    → Adds 3 (connection_part config cs sr) (add_connection config cs sr)
unfolding add_connection
connection-Adds config cs sr =
    Adds-if (eq_ℤ sr.headers.connection (pos 0)) (go (eq_ℤ (keepalive_check config cs) (pos 0)))
  where
    go :
        (b : Bool)
        → Adds 3
            (if b
              then when (ltb 0 sr.connection.len) (
                  entry_and
                    (codes "Keep-Alive: timeout="
                      ++ decimal (pos config.keep_alive_timeout)
                      ++ codes ", max=")
                    []
                  ++ entry_and
                      (string_itop (left_of config cs))
                      (codes "Connection: Keep-Alive" ++ crlf))
              else entry_and (codes "Connection: Close" ++ crlf) [])
            (λ io.
              if b
              then (if ltb 0 sr.connection.len
                  then add_entry
                      (string_itop (left_of config cs))
                      (codes "Connection: Keep-Alive" ++ crlf)
                      (add_entry
                        (codes "Keep-Alive: timeout="
                          ++ decimal (pos config.keep_alive_timeout)
                          ++ codes ", max=")
                        []
                        io)
                  else io)
              else add_entry (codes "Connection: Close" ++ crlf) [] io)
    go true = Adds-if (ltb 0 sr.connection.len) (Adds-then (Adds-alone _) (Adds-entry _ _))
    go false = record {
      short = omega arith;
      runs = (Adds-alone (codes "Connection: Close" ++ crlf)).runs;
    }

location-Adds : (sh : ResponseHeaders) → Adds 3 (location_part sh.location) (add_location sh)
unfolding add_location
location-Adds sh = go sh.location
  where
    go :
        (o : Option Bytes)
        → Adds 3 (location_part o) (λ io. elim o [
          | none ↦ io
          | some location ↦ add_entry (cstr location) crlf (add_entry (codes "Location: ") [] io)
        ])
    go none = Adds-skip 3
    go (some location) = Adds-then (Adds-alone _) (Adds-entry _ _)

range-Adds :
    (config : ServerConfig) (sh : ResponseHeaders)
    → Adds 6 (range_part config sh) (add_content_range config sh)
unfolding add_content_range add_range_open add_range_closed add_range_suffix
range-Adds config sh = Adds-if (has_range config sh) (
    Adds-then
      (Adds-then
        (Adds-if (leb_ℤ (pos 0) sh.range_from && eq_ℤ sh.range_to minus_one) (Adds-entry _ _))
        (Adds-if (leb_ℤ (pos 0) sh.range_from && leb_ℤ (pos 0) sh.range_to) (Adds-entry _ _)))
      (Adds-if (eq_ℤ sh.range_from minus_one && ltb_ℤ (pos 0) sh.range_to) (Adds-entry _ _)))

break-Adds : (sh : ResponseHeaders) → Adds 1 (break_part sh) (add_break sh)
unfolding add_break
break-Adds sh = Adds-if (ends_headers sh) (go sh.extra_rows)
  where
    go :
        (o : Option (List Bytes))
        → Adds 1
            (elim o [ none ↦ entry_and crlf [] | some _ ↦ [] ])
            (λ io. elim o [ none ↦ add_entry crlf [] io | some _ ↦ io ])
    go none = Adds-alone _
    go (some _) = Adds-skip 1

abbrev first_part : Banner → Bytes → ResponseHeaders → ℕ → Bytes → List Bytes
first_part b response sh len date =
    ((entry_and response [] ++ entry_and b.host_signature crlf)
      ++ entry_and (codes "Date: ") b.current_time)
    ++ when (ltb_ℤ (pos 0) sh.last_modified) (entry_and (codes "Last-Modified: ") (take len date))

abbrev content_part : ResponseHeaders → List Bytes
content_part sh =
    ((when (ltb 0 sh.content_type.len)
          (entry_and (codes "Content-Type: ") (text_of sh.content_type))
        ++ when ((ltb sh.status 300 || ltb 305 sh.status) && eq_ℤ sh.transfer_encoding (pos 0))
            (entry_and (codes "Transfer-Encoding: Chunked" ++ crlf) []))
      ++ when (ltb 0 sh.content_encoding.len)
          (entry_and (codes "Content-Encoding: ") [] ++ entry_and (text_of sh.content_encoding) []))
    ++ when (leb_ℤ (pos 0) sh.content_length)
        (entry_and (codes "Content-Length: ") (string_itop (to_int sh.content_length)))

-- The entries of a response, for the text of its status and the date of its last modification.
pub header_entries :
    ServerConfig → Banner → ClientSession → SessionRequest → Bytes → ℕ → Bytes → List Bytes
header_entries config b cs sr response len date =
    (((first_part b response sr.headers len date ++ connection_part config cs sr)
        ++ location_part sr.headers.location)
      ++ content_part sr.headers)
    ++ range_part config sr.headers
    ++ break_part sr.headers

status-Adds :
    (sh : ResponseHeaders) (response : Bytes)
    → status_line sh ≡ some response
    → Adds 1 (entry_and response []) (add_status sh)
unfolding add_status
status-Adds sh response e =
    subst
      (λ o.
        Adds 1 (entry_and response [])
          (λ io. elim o [ none ↦ none | some text ↦ add_entry text [] io ]))
      (sym e) (Adds-alone response)

date-Adds :
    (gmt : ℤ → ℤ × Option Bytes) (sh : ResponseHeaders) (len : ℕ) (date : Bytes)
    → gmt sh.last_modified ≡ (pos len, some date)
    → Adds 2
        (when
          (ltb_ℤ (pos 0) sh.last_modified)
          (entry_and (codes "Last-Modified: ") (take len date)))
        (add_last_modified gmt sh)
unfolding add_last_modified add_date
date-Adds gmt sh len date e = Adds-if (ltb_ℤ (pos 0) sh.last_modified) (
    subst (λ r. Adds 2 (entry_and (codes "Last-Modified: ") (take len date)) (add_date r)) (sym e)
      (Adds-entry _ _))

content-Adds :
    (sh : ResponseHeaders)
    → Adds 7 (content_part sh) (λ io.
      add_content_length sh
        (add_content_encoding sh (add_transfer_encoding sh (add_content_type sh io))))
unfolding add_content_type add_transfer_encoding add_content_encoding add_content_length
content-Adds sh =
    Adds-then
      (Adds-then
        (Adds-then (Adds-if (ltb 0 sh.content_type.len) (Adds-entry _ _)) (
          Adds-if ((ltb sh.status 300 || ltb 305 sh.status) && eq_ℤ sh.transfer_encoding (pos 0))
            (Adds-alone _)))
        (Adds-if (ltb 0 sh.content_encoding.len) (Adds-then (Adds-alone _) (Adds-alone _))))
      (Adds-if (leb_ℤ (pos 0) sh.content_length) (Adds-entry _ _))

vector-Adds :
    (config : ServerConfig) (b : Banner) (cs : ClientSession) (sr : SessionRequest)
    (response : Bytes) (len : ℕ) (date : Bytes)
    → status_line sr.headers ≡ some response
    → gmt_of b sr.headers.last_modified ≡ (pos len, some date)
    → Adds 27 (header_entries config b cs sr response len date) (λ io.
      let sh = sr.headers in
      add_break sh (
        add_content_range config sh (
          add_content_length sh (
            add_content_encoding sh (
              add_transfer_encoding sh (
                add_content_type sh (
                  add_location sh (
                    add_connection config cs sr (
                      add_last_modified (gmt_of b) sh (
                        add_entry
                          (codes "Date: ")
                          b.current_time
                          (add_entry b.host_signature crlf (add_status sh io))))))))))))
unfolding header_entries
vector-Adds config b cs sr response len date e d =
    Adds-then
      (Adds-then
        (Adds-then
          (Adds-then
            (Adds-then
              (Adds-then
                (Adds-then (Adds-then (status-Adds sr.headers response e) (Adds-entry _ _))
                  (Adds-entry _ _))
                (date-Adds (gmt_of b) sr.headers len date d))
              (connection-Adds config cs sr))
            (location-Adds sr.headers))
          (content-Adds sr.headers))
        (range-Adds config sr.headers))
      (break-Adds sr.headers)

-- For a status that has a status line and a date of last modification that can be written,
-- mk_header_send does not abort and the vector of 32 entries does not overflow: it holds 27 entries at
-- most. What is sent are the status line, the server's and the date's lines, and then each further
-- header in its order, the connection's, the location's, the content's and the range's, followed by the
-- rows that a plugin has added.
pub header_send-entries :
    (config : ServerConfig) (b : Banner) (cs : ClientSession) (sr : SessionRequest)
    (response : Bytes) (len : ℕ) (date : Bytes)
    → status_line sr.headers ≡ some response
    → gmt_of b sr.headers.last_modified ≡ (pos len, some date)
    → (header_send config b cs sr
        ≡ some (header_entries config b cs sr response len date ++ extra_entries sr.headers))
      × (length (header_entries config b cs sr response len date) ≤ 27)
unfolding header_send header_vector
header_send-entries config b cs sr response len date e d =
    let a = vector-Adds config b cs sr response len date e d in
    (
      ap (λ v. elim v [ none ↦ none | some io ↦ some (io ++ extra_entries sr.headers) ])
          (a.runs [] (omega (arith, a.short))),
      a.short,
    )
