-- ===== src/Serve/Errors.antt =====
-- mk_request_error of src/mk_request.c, with the sending of a file that it shares with the static
-- content.
use monkey.Prelude.{
  ℕ, Bool, true, false, ◌&&◌, not, Option, none, some, List, [], ◌∷◌, ◌++◌, length, ◌==◌,
  if◌then◌else◌, ℤ, pos, minus_one, eq_ℤ,
}
use monkey.Libc.{Bytes, codes, cstr}
use monkey.Types.{Method, head, FileInfo, SessionRequest, null}
use monkey.Http.Send.{send_file, uncorks}
use monkey.Response.{text_of}
use monkey.Site.{ErrorPage, Host, System, file_get_info}
use monkey.Serve.Plugins.{
  Action, headers, content, opened, sent_file, uncork, Result, after, Server,
}

-- EXIT_NORMAL, EXIT_ERROR
abbrev pub exit_normal : ℤ
exit_normal = pos 0

abbrev pub exit_error : ℤ
exit_error = minus_one

-- mk_header_set_http_status
abbrev pub set_status : SessionRequest → ℕ → SessionRequest
set_status sr status = record sr { headers = record sr.headers { status = status } }

-- The request behind mk_header_send, which drops the rows that a plugin has added.
unfoldable pub headers_sent : SessionRequest → SessionRequest
headers_sent sr = record sr { headers = record sr.headers { extra_rows = none } }

-- mk_http_send_file, with what the transport returns.
unfoldable pub send_chunk : System → SessionRequest → Result
send_chunk sys sr =
    let nbytes = sys.sendfile sr.fd_file sr.bytes_offset sr.bytes_to_send in
    record {
      value = some (send_file sr nbytes).0;
      request = (send_file sr nbytes).1;
      log =
          sent_file sr.fd_file sr.bytes_offset sr.bytes_to_send nbytes
          ∷ (if uncorks sr nbytes then uncork ∷ [] else []);
    }

unfoldable pub page_for : ℕ → List ErrorPage → Option ErrorPage
page_for status [] = none
page_for status (p ∷ pages) = if p.status == status then some p else page_for status pages

-- A status for which a page of the host's own is looked up.
abbrev pub is_nice : ℕ → Bool
is_nice status = not (status == 411) && not (status == 400) && not (status == 413)

-- The page's file, when it can be examined and opened: its path, descriptor and information.
unfoldable pub open_page : Server → SessionRequest → ErrorPage → Option (Bytes × ℤ × FileInfo)
open_page srv sr p =
    let info = file_get_info srv.sys p.real_path sr.file_info in
    let fd = srv.sys.open_file (cstr p.real_path) srv.site.open_flags_no_atime in
    if eq_ℤ info.0 minus_one
    then none
    else if eq_ℤ fd minus_one
    then none
    else some (p.real_path, fd, info.1)

unfoldable pub custom_page : Server → Host → ℕ → SessionRequest → Option (Bytes × ℤ × FileInfo)
custom_page srv host status sr =
    if is_nice status
    then elim (page_for status host.error_pages) [ none ↦ none | some p ↦ open_page srv sr p ]
    else none

abbrev pub with_page_file : SessionRequest → ℤ → FileInfo → SessionRequest
with_page_file sr fd info = record sr {
  fd_file = fd;
  bytes_to_send = info.size;
  headers = record sr.headers { content_length = info.size; real_length = info.size };
  file_info = info;
}

unfoldable pub send_page_file : Server → SessionRequest → Bytes × ℤ × FileInfo → Result
send_page_file srv sr (path, fd, info) =
    let sr' = with_page_file sr fd info in
    after (opened path fd ∷ headers sr' ∷ []) (send_chunk srv.sys (headers_sent sr'))

-- mk_request_set_default_page, for the page of MK_REQUEST_DEFAULT_PAGE
unfoldable pub default_page : Bytes → Bytes → Host → Bytes
default_page title message host =
    codes "<HTML><HEAD><STYLE type=\"text/css\"> body {font-size: 12px;} </STYLE></HEAD><BODY><H1>"
    ++ title
    ++ codes "</H1>"
    ++ cstr message
    ++ codes "<BR><HR><ADDRESS>Powered by "
    ++ cstr host.host_signature
    ++ codes "</ADDRESS></BODY></HTML>"

-- The page of a status.
unfoldable pub page_of : ℕ → SessionRequest → Host → Option Bytes
page_of status sr host =
    if status == 400
    then some (default_page (codes "Bad Request") (text_of sr.uri) host)
    else if status == 403
    then some (default_page (codes "Forbidden") (text_of sr.uri) host)
    else if status == 404
    then some (
        default_page (codes "Not Found") (codes "The requested URL was not found on this server.")
          host)
    else if status == 413
    then some
        (default_page (codes "Entity too large") (codes "The request entity is too large.") host)
    else if status == 405
    then some (default_page (codes "Method Not Allowed") (text_of sr.uri) host)
    else if status == 501
    then some (default_page (codes "Method Not Implemented") (text_of sr.uri) host)
    else if status == 500
    then some (default_page (codes "Internal Server Error") (text_of sr.uri) host)
    else if status == 505
    then some (default_page (codes "HTTP Version Not Supported") [] host)
    else none

-- The headers for a page of `page`, or for none.
unfoldable pub with_page : Option Bytes → SessionRequest → SessionRequest
with_page none sr = record sr {
  headers = record sr.headers {
    location = none;
    cgi = 0;
    pconnections_left = pos 0;
    last_modified = minus_one;
    content_type = null;
  };
}
with_page (some page) sr = record sr {
  headers = record sr.headers {
    content_length = pos (length page);
    location = none;
    cgi = 0;
    pconnections_left = pos 0;
    last_modified = minus_one;
    content_type = record { data_at = some (codes "text/html\r\n"); len = 11 };
  };
}

abbrev pub is_head : Method → Bool
is_head head = true
is_head _ = false

unfoldable pub page_body : Option Bytes → SessionRequest → List Action
page_body none sr = []
page_body (some page) sr = if is_head sr.method then [] else content page ∷ []

unfoldable pub send_page : Option Bytes → SessionRequest → Result
send_page page sr =
    let sr' = with_page page sr in
    record {
      value = some exit_error;
      request = headers_sent sr';
      log = headers sr' ∷ (page_body page sr' ++ (uncork ∷ []));
    }

-- mk_request_error
unfoldable pub request_error : Server → Host → ℕ → SessionRequest → Result
request_error srv host status sr =
    let sr' = set_status sr status in
    elim (custom_page srv host status sr') [
      | some file ↦ send_page_file srv sr' file
      | none ↦ send_page (page_of status sr' host) sr'
    ]
