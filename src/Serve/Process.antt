-- ===== src/Serve/Process.antt =====
-- mk_request_process of src/mk_request.c: a request from its headers to its answer.
use monkey.Prelude.{
  ℕ, Bool, true, false, ◌&&◌, not, Option, none, some, get_or, ltb, ◌==◌, if◌then◌else◌, ℤ, pos,
  minus_one, eq_ℤ, ltb_ℤ,
}
use monkey.Types.{Method, post, put, SessionRequest, ClientSession, protocol_11, protocol_unknown}
use monkey.Http.Range.{given}
use monkey.Http.Send.{exit_abort}
use monkey.MethodData.{rejected, accepted, parse_data}
use monkey.Request.Header.{header_process}
use monkey.Response.{text_of}
use monkey.Site.{Host, host_find}
use monkey.Serve.Plugins.{Result, after, Server, close_conx, run_stage_20}
use monkey.Serve.Errors.{exit_normal, set_status, request_error}
use monkey.Serve.Users.{user_init}
use monkey.Serve.Init.{ends, http_init}

-- The error is sent and the function returns `value` of its own.
abbrev pub error_with : ℤ → Server → Host → ℕ → SessionRequest → Result
error_with value srv host status sr = record (request_error srv host status sr) {
  value = some value;
}

abbrev pub has_data : Method → Bool
has_data post = true
has_data put = true
has_data _ = false

-- Stage 20 and the HTTP process.
unfoldable pub run_request : Server → Host → ClientSession → SessionRequest → Result
run_request srv host cs sr =
    let t = run_stage_20 srv.stages.stage_20 cs sr in
    elim t.answer [
      | close_conx ↦ after t.log (ends (some exit_abort) t.request)
      | _ ↦ after t.log (http_init srv host cs t.request)
    ]

-- The data of a POST or PUT request.
unfoldable pub take_data : Server → Host → ClientSession → SessionRequest → Result
take_data srv host cs sr =
    if has_data sr.method
    then elim (parse_data cs sr) [
      | rejected status ↦ error_with minus_one srv host status sr
      | accepted sr' ↦ run_request srv host cs sr'
    ]
    else run_request srv host cs sr

-- MK_USER_HOME
abbrev pub user_home_mark : ℕ
user_home_mark = b'~'

abbrev pub is_zero : Option ℤ → Bool
is_zero none = false
is_zero (some n) = eq_ℤ n (pos 0)

-- A user's home page, when the configuration has a directory for them.
unfoldable pub take_user : Server → Host → ClientSession → SessionRequest → Result
take_user srv host cs sr = elim srv.site.user_dir [
  | none ↦ take_data srv host cs sr
  | some user_dir ↦
      let uri = text_of sr.uri_processed in
      let user = user_init srv host user_dir uri sr in
      if ltb 2 sr.uri_processed.len && get_or uri 1 0 == user_home_mark
      then (if is_zero user.value
          then after user.log (take_data srv host cs user.request)
          else after user.log (error_with exit_abort srv host 404 user.request))
      else take_data srv host cs sr
]

-- The virtual host of the request.
unfoldable pub host_of : Server → SessionRequest → Host
host_of srv sr =
    if given sr.host
    then (host_find srv.site sr.host srv.site.default_host).1
    else srv.site.default_host

-- The checks on a request whose headers are read.
unfoldable pub validate : Server → ClientSession → SessionRequest → Result
validate srv cs sr =
    let first = srv.site.default_host in
    if not (get_or (text_of sr.uri_processed) 0 0 == b'/')
    then error_with exit_normal srv first 400 sr
    else if not (given sr.host) && eq_ℤ sr.protocol protocol_11
    then error_with exit_normal srv first 400 sr
    else if eq_ℤ sr.protocol protocol_unknown
    then error_with exit_abort srv first 505 sr
    else take_user srv (host_of srv sr) cs sr

unfoldable pub request_process : Server → ClientSession → SessionRequest → Result
request_process srv cs sr = elim (header_process srv.config sr) [
  | none ↦ ends none sr
  | some (status, sr') ↦
      if ltb_ℤ status (pos 0)
      then error_with exit_abort srv srv.site.default_host 400 (set_status sr' 400)
      else validate srv cs (record sr' { user_home = false })
]
