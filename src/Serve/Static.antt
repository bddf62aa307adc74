-- ===== src/Serve/Static.antt =====
-- mk_http_directory_redirect_check of src/mk_http.c, mk_request_index of src/mk_request.c, and the sending
-- of a file behind the checks of mk_http_init.
use monkey.Prelude.{
  ℕ, ◌-◌, Bool, true, false, ◌&&◌, ◌||◌, not, Option, none, some, List, [], ◌∷◌, ◌++◌, length, take,
  get_or, ltb, ◌==◌, if◌then◌else◌, ℤ, pos, minus_one, ltb_ℤ, leb_ℤ, eq_ℤ,
}
use monkey.Libc.{Bytes, codes, cstr}
use monkey.Types.{Pointer, Method, get, head, post, SessionRequest, ClientSession, null}
use monkey.Http.Range.{given, range_parse, range_set}
use monkey.Response.{text_of, decimal, left_of}
use monkey.Site.{Host, System, gmt2utime}
use monkey.Mime.{Mimetype}
use monkey.Serve.Plugins.{headers, opened, uncork, Result, after, Server}
use monkey.Serve.Errors.{exit_normal, set_status, headers_sent, send_chunk, request_error}

-- The port that the redirection names, or 0.
unfoldable pub port_redirect : Server → SessionRequest → ℤ
port_redirect srv sr =
    if given sr.host && ltb_ℤ (pos 0) sr.port && not (eq_ℤ sr.port (pos srv.config.standard_port))
    then sr.port
    else pos 0

-- `%s://%s:%i%s` or `%s://%s%s`, for the path with its slash.
unfoldable pub redirect_location : Server → SessionRequest → Bytes
redirect_location srv sr =
    cstr srv.site.transport
    ++ codes "://"
    ++ cstr (text_of sr.host)
    ++ (if ltb_ℤ (pos 0) (port_redirect srv sr)
        then (b':' ∷ decimal (port_redirect srv sr))
        else [])
    ++ cstr (text_of sr.uri_processed ++ (b'/' ∷ []))

abbrev pub with_redirect : Server → ClientSession → SessionRequest → SessionRequest
with_redirect srv cs sr = record sr {
  headers = record sr.headers {
    status = 301;
    content_length = pos 0;
    content_type = null;
    location = some (redirect_location srv sr);
    cgi = 0;
    pconnections_left = left_of srv.config cs;
  };
}

abbrev pub without_location : SessionRequest → SessionRequest
without_location sr = record sr { headers = record sr.headers { location = none } }

abbrev pub ends_with_slash : Pointer → Bool
ends_with_slash uri = get_or (text_of uri) (uri.len - 1) 0 == b'/'

abbrev pub redirected : Server → ClientSession → SessionRequest → Result
redirected srv cs sr = record {
  value = some minus_one;
  request = without_location (headers_sent (with_redirect srv cs sr));
  log = headers (with_redirect srv cs sr) ∷ uncork ∷ [];
}

-- mk_http_directory_redirect_check; `none` stands for a path that ends with a slash.
unfoldable pub directory_redirect_check : Server → ClientSession → SessionRequest → Option Result
directory_redirect_check srv cs sr =
    if ends_with_slash sr.uri_processed then none else some (redirected srv cs sr)

-- MAX_PATH
abbrev pub max_path : ℕ
max_path = 1024

-- What snprintf leaves in a buffer of MAX_PATH bytes, with the length that mk_request_index takes.
unfoldable pub index_name : Bytes → Bytes → Pointer
index_name pathfile entry =
    let name = cstr pathfile ++ cstr entry in
    record {
      data_at = some (take (max_path - 1) name);
      len = (if ltb max_path (length name) then max_path else length name);
    }

unfoldable pub index_loop : System → Bytes → List Bytes → Pointer
index_loop sys pathfile [] = null
index_loop sys pathfile (entry ∷ files) =
    if sys.access (take (max_path - 1) (cstr pathfile ++ cstr entry))
    then index_name pathfile entry
    else index_loop sys pathfile files

-- mk_request_index
unfoldable pub request_index : Server → Bytes → Pointer
request_index srv pathfile = elim srv.site.index_files [
  | none ↦ null
  | some files ↦ index_loop srv.sys pathfile files
]

abbrev pub path_of : SessionRequest → Bytes
path_of sr = elim sr.real_path.data_at [ none ↦ [] | some text ↦ text ]

abbrev pub is_get : Method → Bool
is_get get = true
is_get _ = false

-- Methods with a content type and a range, and methods with a body in the response.
abbrev pub has_type : Method → Bool
has_type get = true
has_type head = true
has_type _ = false

abbrev pub has_content : Method → Bool
has_content get = true
has_content post = true
has_content _ = false

-- Behind the headers: the range and the first part of the file.
unfoldable pub transfer : Server → Host → SessionRequest → Result
transfer srv host sr =
    let ranged = range_set srv.config sr sr.file_info.size in
    if eq_ℤ sr.headers.content_length (pos 0)
    then record { value = some (pos 0); request = sr; log = [] }
    else if has_content sr.method
    then (if eq_ℤ ranged.0 (pos 0)
        then send_chunk srv.sys ranged.1
        else request_error srv host 400 ranged.1)
    else record { value = some (pos 0); request = sr; log = [] }

unfoldable pub send_headers : Server → Host → SessionRequest → Result
send_headers srv host sr = after (headers sr ∷ []) (transfer srv host (headers_sent sr))

-- The opening of a file that is not empty.
unfoldable pub open_content : Server → Host → SessionRequest → Result
open_content srv host sr =
    let fd = srv.sys.open_file (cstr (path_of sr)) sr.file_info.no_atime in
    let sr' : SessionRequest = record sr { fd_file = fd } in
    if ltb_ℤ (pos 0) sr.file_info.size
    then (if eq_ℤ fd minus_one
        then after (opened (path_of sr) fd ∷ []) (request_error srv host 403 sr')
        else after (opened (path_of sr) fd ∷ []) (send_headers srv host sr'))
    else send_headers srv host sr

unfoldable pub with_range : Server → Host → SessionRequest → Result
with_range srv host sr =
    let parsed = range_parse sr in
    let sr' : SessionRequest = record sr { headers = parsed.1 } in
    if given sr.range && srv.config.resume
    then (if ltb_ℤ parsed.0 (pos 0)
        then request_error srv host 400 sr'
        else if leb_ℤ (pos 0) sr'.headers.range_from || leb_ℤ (pos 0) sr'.headers.range_to
        then open_content srv host (set_status sr' 206)
        else open_content srv host sr')
    else open_content srv host sr

-- The headers for the whole file.
abbrev pub with_file : SessionRequest → SessionRequest
with_file sr = record sr {
  headers = record sr.headers {
    status = 200;
    location = none;
    content_length = sr.file_info.size;
    real_length = sr.file_info.size;
  };
}

abbrev pub with_mime : Pointer → SessionRequest → SessionRequest
with_mime type sr = record sr { headers = record sr.headers { content_type = type } }

unfoldable pub serve_file : Server → Host → Mimetype → SessionRequest → Result
serve_file srv host mime sr =
    if has_type sr.method
    then with_range srv host (with_mime mime.mime_type (with_file sr))
    else open_content srv host (with_mime null (with_file sr))

-- The client has the file as it is: `since` is the value of If-Modified-Since.
unfoldable pub is_unmodified : Server → SessionRequest → Bool
is_unmodified srv sr = elim sr.if_modified_since.data_at [
  | none ↦ false
  | some since ↦
      let date_client = gmt2utime srv.sys since in
      is_get sr.method
      && leb_ℤ sr.file_info.last_modification date_client
      && ltb_ℤ (pos 0) date_client
      && leb_ℤ date_client srv.sys.now
]

abbrev pub dated : Server → ClientSession → SessionRequest → SessionRequest
dated srv cs sr = record sr {
  headers = record sr.headers {
    pconnections_left = left_of srv.config cs;
    last_modified = sr.file_info.last_modification;
  };
}

unfoldable pub serve_dated : Server → Host → Mimetype → SessionRequest → Result
serve_dated srv host mime sr =
    if is_unmodified srv sr
    then record {
      value = some exit_normal;
      request = headers_sent (set_status sr 304);
      log = headers (set_status sr 304) ∷ [];
    }
    else serve_file srv host mime sr
