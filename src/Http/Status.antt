-- ===== src/Http/Status.antt =====
-- The status lines of src/mk_header.c.
use monkey.Prelude.{ℕ, Option, none, some, List, [], ◌∷◌, ◌++◌, ◌==◌, if◌then◌else◌}
use monkey.Libc.{Bytes, codes}
use monkey.Types.{crlf}

-- The entry of a status in `status_response`.
pub record StatusResponse : Type 0 where
  pub status : ℕ
  pub response : Bytes

abbrev status_entry : ℕ → Bytes → StatusResponse
status_entry num str = record { status = num; response = codes "HTTP/1.1 " ++ str ++ crlf }

unfoldable pub status_response : List StatusResponse
status_response =
    status_entry 200 (codes "200 OK")
    ∷ status_entry 404 (codes "404 Not Found")
    ∷ status_entry 100 (codes "100 Continue")
    ∷ status_entry 101 (codes "101 Switching Protocols")
    ∷ status_entry 201 (codes "201 Created")
    ∷ status_entry 202 (codes "202 Accepted")
    ∷ status_entry 203 (codes "203 Non-Authoritative Information")
    ∷ status_entry 204 (codes "204 No Content")
    ∷ status_entry 205 (codes "205 Reset Content")
    ∷ status_entry 206 (codes "206 Partial Content")
    ∷ status_entry 300 (codes "300 Multiple Choices")
    ∷ status_entry 301 (codes "301 Moved Permanently")
    ∷ status_entry 302 (codes "302 Found")
    ∷ status_entry 303 (codes "303 See Other")
    ∷ status_entry 304 (codes "304 Not Modified")
    ∷ status_entry 305 (codes "305 Use Proxy")
    ∷ status_entry 400 (codes "400 Bad Request")
    ∷ status_entry 401 (codes "401 Unauthorized")
    ∷ status_entry 402 (codes "402 Payment Required")
    ∷ status_entry 403 (codes "403 Forbidden")
    ∷ status_entry 405 (codes "405 Method Not Allowed")
    ∷ status_entry 406 (codes "406 Not Acceptable")
    ∷ status_entry 407 (codes "407 Proxy Authentication Required")
    ∷ status_entry 408 (codes "408 Request Timeout")
    ∷ status_entry 409 (codes "409 Conflict")
    ∷ status_entry 410 (codes "410 Gone")
    ∷ status_entry 411 (codes "411 Length Required")
    ∷ status_entry 412 (codes "412 Precondition Failed")
    ∷ status_entry 413 (codes "413 Request Entity Too Large")
    ∷ status_entry 414 (codes "414 Request-URI Too Long")
    ∷ status_entry 415 (codes "415 Unsupported Media Type")
    ∷ status_entry 500 (codes "500 Internal Server Error")
    ∷ status_entry 501 (codes "501 Not Implemented")
    ∷ status_entry 502 (codes "502 Bad Gateway")
    ∷ status_entry 503 (codes "503 Service Unavailable")
    ∷ status_entry 504 (codes "504 Gateway Timeout")
    ∷ status_entry 505 (codes "505 HTTP Version Not Supported")
    ∷ []

unfoldable pub find_status : ℕ → List StatusResponse → Option Bytes
find_status status [] = none
find_status status (s ∷ table) =
    if s.status == status then some s.response else find_status status table
