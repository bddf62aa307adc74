-- ===== src/Serve/Init.antt =====
-- mk_http_init of src/mk_http.c: the checks between a request's URI and the file that answers it. The
-- path is one buffer here, be it the fixed array of the request or allocated memory.
use monkey.Prelude.{
  ℕ, ◌+◌, Bool, true, false, ◌&&◌, not, Option, none, some, [], ◌++◌, length, get_or, ltb, ◌==◌,
  if◌then◌else◌, ℤ, pos, ltb_ℤ, eq_ℤ,
}
use monkey.Libc.{Bytes, codes, cstr, memmem}
use monkey.Libc.Numbers.{to_int}
use monkey.Url.{buffer_cat}
use monkey.Types.{
  ret_continue, Pointer, Method, unknown, put, delete, SessionRequest, ClientSession,
}
use monkey.Response.{text_of}
use monkey.Site.{Host, file_get_info}
use monkey.Mime.{Mimetype, mimetype_find}
use monkey.Serve.Plugins.{
  Result, after, Server, Turn, not_me, keep_on, at_end, close_conx, invalid, run_stage_30,
}
use monkey.Serve.Errors.{exit_normal, exit_error, request_error}
use monkey.Serve.Static.{directory_redirect_check, request_index, path_of, dated, serve_dated}

abbrev pub ends : Option ℤ → SessionRequest → Result
ends value sr = record { value = value; request = sr; log = [] }

-- PUT, DELETE and unknown methods, which only plugins answer.
abbrev pub is_unserved : Method → Bool
is_unserved put = true
is_unserved delete = true
is_unserved unknown = true
is_unserved _ = false

unfoldable pub mime_of : Server → SessionRequest → Mimetype
mime_of srv sr = elim (mimetype_find srv.mimes (path_of sr) sr.real_path.len) [
  | none ↦ srv.mimes.mimetype_default
  | some mime ↦ mime
]

-- Behind the plugins.
unfoldable pub serve_static : Server → Host → ClientSession → SessionRequest → Result
serve_static srv host cs sr =
    if is_unserved sr.method
    then request_error srv host 501 sr
    else if not sr.file_info.read_access
    then request_error srv host 403 sr
    else if sr.file_info.is_directory
    then request_error srv host 403 sr
    else if ltb_ℤ sr.file_info.size (pos 0)
    then request_error srv host 404 sr
    else serve_dated srv host (mime_of srv sr) (dated srv cs sr)

-- The status of a plugin that closes the connection.
abbrev pub closing_status : SessionRequest → ℕ
closing_status sr = if ltb 0 sr.headers.status then sr.headers.status else 403

-- What the handlers' answer leads to; `declined` is what follows when no plugin handles the request.
unfoldable pub on_answer : Server → Host → (SessionRequest → Result) → Turn → Result
on_answer srv host declined t = elim t.answer [
  | keep_on ↦ after t.log (ends (some ret_continue) t.request)
  | close_conx ↦ after t.log (request_error srv host (closing_status t.request) t.request)
  | at_end ↦ after t.log (ends (some exit_normal) t.request)
  | not_me ↦ after t.log (declined t.request)
  | invalid ↦ after t.log (ends none t.request)
]

unfoldable pub ask_handlers : Server → Host → ClientSession → SessionRequest → Result
ask_handlers srv host cs sr = elim sr.stage30_blocked [
  | true ↦ serve_static srv host cs sr
  | false ↦ on_answer srv host (serve_static srv host cs) (run_stage_30 srv.stages.stage_30 cs sr)
]

-- A link: is it to be followed, and can it be read?
unfoldable pub check_link : Server → Host → ClientSession → SessionRequest → Result
check_link srv host cs sr =
    if sr.file_info.is_link
    then (if not srv.config.symlink
        then request_error srv host 403 sr
        else elim (srv.sys.readlink (cstr (path_of sr))) [
          | none ↦ request_error srv host 403 sr
          | some _ ↦ ask_handlers srv host cs sr
        ])
    else ask_handlers srv host cs sr

-- The index file of a directory takes the place of the path, if there is one.
unfoldable pub with_index : Server → SessionRequest → SessionRequest
with_index srv sr =
    let index_file = request_index srv (path_of sr) in
    elim index_file.data_at [
      | none ↦ sr
      | some name ↦ record sr {
        real_path = index_file;
        file_info = (file_get_info srv.sys name sr.file_info).1;
      }
    ]

unfoldable pub check_directory : Server → Host → ClientSession → SessionRequest → Result
check_directory srv host cs sr =
    if sr.file_info.is_directory
    then elim (directory_redirect_check srv cs sr) [
      | some redirect ↦ redirect
      | none ↦ check_link srv host cs (with_index srv sr)
    ]
    else check_link srv host cs sr

-- No plugin handles a path that cannot be examined.
unfoldable pub not_handled : Server → Host → ClientSession → SessionRequest → Result
not_handled srv host cs sr =
    if not sr.file_info.exists
    then request_error srv host 404 sr
    else if not sr.stage30_blocked
    then request_error srv host 403 sr
    else check_directory srv host cs sr

unfoldable pub look_up : Server → Host → ClientSession → SessionRequest → Result
look_up srv host cs sr =
    let info = file_get_info srv.sys (path_of sr) sr.file_info in
    let sr' : SessionRequest = record sr { file_info = info.1 } in
    if eq_ℤ info.0 (pos 0)
    then check_directory srv host cs sr'
    else on_answer srv host (not_handled srv host cs) (run_stage_30 srv.stages.stage_30 cs sr')

abbrev pub pointer_to : Bytes → Pointer
pointer_to text = record { data_at = some text; len = length text }

-- The root of the host: the path is the document root itself.
unfoldable pub root_path : Host → SessionRequest → SessionRequest
root_path host sr =
    if sr.uri_processed.len == 1 && get_or (text_of sr.uri_processed) 0 0 == b'/'
    then record sr { real_path = pointer_to host.documentroot }
    else sr

-- MK_PATH_BASE
abbrev pub path_base : ℕ
path_base = 128

-- The document root with the URI behind it, in the request's array where it fits; `none` stands for the
-- -1 of mk_buffer_cat.
unfoldable pub compose_path : Host → SessionRequest → Option SessionRequest
compose_path host sr =
    let uri = text_of sr.uri_processed in
    let root = host.documentroot in
    if sr.user_home
    then some sr
    else if ltb_ℤ (to_int (pos (length root + sr.uri_processed.len))) (pos path_base)
    then some (record sr { real_path = pointer_to (root ++ uri) })
    else elim (buffer_cat root (to_int (pos (length root))) uri
        (to_int (pos sr.uri_processed.len))) [
          | none ↦ none
          | some path ↦ some (record sr { real_path = pointer_to path })
        ]

-- HTTP_DIRECTORY_BACKWARD
abbrev pub directory_backward : Bytes
directory_backward = codes ".."

abbrev pub goes_backward : SessionRequest → Bool
goes_backward sr = memmem (text_of sr.uri_processed) directory_backward

unfoldable pub http_init : Server → Host → ClientSession → SessionRequest → Result
http_init srv host cs sr = elim (compose_path host (root_path host sr)) [
  | none ↦ ends (some exit_error) (root_path host sr)
  | some sr' ↦ if goes_backward sr' then request_error srv host 403 sr' else look_up srv host cs sr'
]
