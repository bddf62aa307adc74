-- ===== src/Serve/Responses.antt =====
-- How many responses a request gets from src/mk_http.c, src/mk_request.c and src/mk_user.c, and what an
-- error response announces.
use monkey.Prelude.{
  ℕ, suc, ◌+◌, ◌<◌, ◌≡◌, refl, ap, ap₂, ◌∙◌, inl, inr, Bool, true, false, ◌&&◌, Option, none, some,
  List, [], ◌∷◌, ◌++◌, take, drop, get_or, arith, ltb, leb, ◌==◌, if◌then◌else◌, pos, eq_ℤ,
  Bool-cases, Option-cases,
}
use monkey.Libc.{Bytes, cstr}
use monkey.Types.{SessionRequest, ClientSession}
use monkey.Http.Range.{range_set}
use monkey.Http.Send.{uncorks, exit_abort}
use monkey.Response.{text_of}
use monkey.Site.{Host, System}
use monkey.Serve.Plugins.{Action, headers, content, opened, sent_file, uncork, Server}
use monkey.Serve.Errors.{
  set_status, headers_sent, send_chunk, custom_page, with_page_file, send_page_file, page_of,
  with_page, is_head, page_body, send_page, request_error,
}
use monkey.Serve.Static.{has_content, transfer, send_headers}
use monkey.Serve.Users.{user_limit, user_lookup, user_init}
use monkey.Serve.Process.{user_home_mark, is_zero, take_user}

-- The number of responses, each of which starts with mk_header_send.
unfoldable pub responses : List Action → ℕ
responses [] = 0
responses (headers sr ∷ l) = suc (responses l)
responses (content text ∷ l) = responses l
responses (opened path fd ∷ l) = responses l
responses (sent_file fd offset count n ∷ l) = responses l
responses (uncork ∷ l) = responses l

responses-append : (l m : List Action) → responses (l ++ m) ≡ responses l + responses m
unfolding responses
responses-append [] m = omega arith
responses-append (headers sr ∷ l) m = omega (arith, responses-append l m)
responses-append (content text ∷ l) m = responses-append l m
responses-append (opened path fd ∷ l) m = responses-append l m
responses-append (sent_file fd offset count n ∷ l) m = responses-append l m
responses-append (uncork ∷ l) m = responses-append l m

responses-send_chunk : (sys : System) (sr : SessionRequest) → responses (send_chunk sys sr).log ≡ 0
unfolding send_chunk responses
responses-send_chunk sys sr =
    go (uncorks sr (sys.sendfile sr.fd_file sr.bytes_offset sr.bytes_to_send))
  where
    go : (b : Bool) → responses (if b then uncork ∷ [] else []) ≡ 0
    go true = refl
    go false = refl

responses-send_page :
    (page : Option Bytes) (sr : SessionRequest) → responses (send_page page sr).log ≡ 1
unfolding send_page page_body responses
responses-send_page none sr = refl
responses-send_page (some page) sr = ap suc (go (is_head (with_page (some page) sr).method))
  where
    go : (b : Bool) → responses ((if b then [] else content page ∷ []) ++ (uncork ∷ [])) ≡ 0
    go true = refl
    go false = refl

pub responses-request_error :
    (srv : Server) (host : Host) (status : ℕ) (sr : SessionRequest)
    → responses (request_error srv host status sr).log ≡ 1
unfolding request_error send_page_file responses
responses-request_error srv host status sr =
    elim (Option-cases (custom_page srv host status (set_status sr status))) [
      | inl e ↦
          rw (e, request_error)
            (responses-send_page (page_of status (set_status sr status) host)
              (set_status sr status))
      | inr ((path, fd, info), e) ↦
          rw (e, request_error)
            (ap suc (
              responses-send_chunk srv.sys
                (headers_sent (with_page_file (set_status sr status) fd info))))
    ]

responses-transfer :
    (srv : Server) (host : Host) (sr : SessionRequest)
    → eq_ℤ sr.headers.content_length (pos 0) ≡ false
    → has_content sr.method ≡ true
    → responses (transfer srv host sr).log
      ≡ (if eq_ℤ (range_set srv.config sr sr.file_info.size).0 (pos 0) then 0 else 1)
unfolding transfer responses
responses-transfer srv host sr some_content body =
    let ranged = range_set srv.config sr sr.file_info.size in
    elim (Bool-cases (eq_ℤ ranged.0 (pos 0))) [
      | inl e ↦ rw (some_content, body, e) (responses-send_chunk srv.sys ranged.1)
      | inr e ↦ rw (some_content, body, e) (responses-request_error srv host 400 ranged.1)
    ]

-- The headers of a file are sent before its range is checked. When the response has a body, mk_http_init
-- sends one response from there on if mk_http_range_set accepts the range, and two if it does not: the
-- headers of the file, and then those of an error.
pub responses-send_headers :
    (srv : Server) (host : Host) (sr : SessionRequest)
    → eq_ℤ sr.headers.content_length (pos 0) ≡ false
    → has_content sr.method ≡ true
    → responses (send_headers srv host sr).log
      ≡ (if eq_ℤ (range_set srv.config (headers_sent sr) sr.file_info.size).0 (pos 0) then 1 else 2)
unfolding send_headers headers_sent responses
responses-send_headers srv host sr some_content body =
    ap suc (responses-transfer srv host (headers_sent sr) some_content body)
    ∙ suc_if (eq_ℤ (range_set srv.config (headers_sent sr) sr.file_info.size).0 (pos 0))
  where
    suc_if : (b : Bool) → suc (if b then 0 else 1) ≡ (if b then 1 else 2)
    suc_if true = refl
    suc_if false = refl

user_lookup_unknown :
    (srv : Server) (host : Host) (user_dir text : Bytes) (limit : ℕ) (sr : SessionRequest)
    → srv.sys.getpwnam (cstr (take limit (drop 2 text))) ≡ none
    → (is_zero (user_lookup srv host user_dir text limit sr).value ≡ false)
      × (responses (user_lookup srv host user_dir text limit sr).log ≡ 1)
unfolding user_lookup
user_lookup_unknown srv host user_dir text limit sr unknown =
    rw (unknown, user_lookup) (refl, responses-request_error srv host 404 sr)

user_init_unknown :
    (srv : Server) (host : Host) (user_dir text : Bytes) (sr : SessionRequest)
    → ltb 2 sr.uri_processed.len ≡ true
    → user_limit text sr.uri_processed.len < 253
    → srv.sys.getpwnam (cstr (take (user_limit text sr.uri_processed.len) (drop 2 text))) ≡ none
    → (is_zero (user_init srv host user_dir text sr).value ≡ false)
      × (responses (user_init srv host user_dir text sr).log ≡ 1)
unfolding user_init user_lookup
user_init_unknown srv host user_dir text sr long short unknown =
    let a : leb sr.uri_processed.len 2 ≡ false = ground arith in
    let b : leb 255 (user_limit text sr.uri_processed.len + 2) ≡ false = ground arith in
    rw (a, b)
      (user_lookup_unknown srv host user_dir text (user_limit text sr.uri_processed.len) sr unknown)

-- A request for the home page of a user that the system does not have is answered twice: mk_user_init
-- sends a 404 and so does mk_request_process behind it, which then gives up the connection.
pub take_user_unknown :
    (srv : Server) (host : Host) (cs : ClientSession) (user_dir : Bytes) (sr : SessionRequest)
    → srv.site.user_dir ≡ some user_dir
    → ltb 2 sr.uri_processed.len ≡ true
    → get_or (text_of sr.uri_processed) 1 0 ≡ user_home_mark
    → user_limit (text_of sr.uri_processed) sr.uri_processed.len < 253
    → srv.sys.getpwnam (
        cstr (
          take
            (user_limit (text_of sr.uri_processed) sr.uri_processed.len)
            (drop 2 (text_of sr.uri_processed))))
      ≡ none
    → (responses (take_user srv host cs sr).log ≡ 2)
      × ((take_user srv host cs sr).value ≡ some exit_abort)
unfolding take_user
take_user_unknown srv host cs user_dir sr dir long mark short unknown =
    let text = text_of sr.uri_processed in
    let user = user_init srv host user_dir text sr in
    let (failed, once) = user_init_unknown srv host user_dir text sr long short unknown in
    let m : (ltb 2 sr.uri_processed.len && get_or text 1 0 == user_home_mark) ≡ true =
      ground arith in
    rw (dir, m, failed, take_user)
      (
        responses-append user.log (request_error srv host 404 user.request).log
            ∙ ap₂ (λ x y. x + y) once (responses-request_error srv host 404 user.request),
        refl,
      )
