-- ===== src/Serve/Answered.antt =====
-- mk_http_init of src/mk_http.c returns, and each response it sends has a status that mk_header_send knows.
use monkey.Prelude.{
  ◌≡◌, refl, sym, subst, Bool, true, false, ◌&&◌, ◌||◌, not, Option, none, some, [], ◌∷◌, arith,
  if◌then◌else◌, pos, minus_one, ltb_ℤ, leb_ℤ, eq_ℤ,
}
use monkey.Libc.{Bytes, cstr}
use monkey.Types.{ret_continue, SessionRequest, ClientSession, null}
use monkey.Http.Range.{
  given, range_parse, range_parse_at, range_form, range_suffix, range_closed, range_open, range_set,
}
use monkey.Mime.{Mimetype}
use monkey.Site.{Host, file_get_info}
use monkey.Serve.Plugins.{
  headers, opened, Result, after, Server, Turn, Answer, not_me, keep_on, at_end, close_conx,
  invalid, run_stage_30,
}
use monkey.Serve.Errors.{exit_normal, exit_error, set_status, headers_sent, request_error}
use monkey.Serve.Static.{
  directory_redirect_check, redirected, ends_with_slash, path_of, has_type, has_content, transfer,
  send_headers, open_content, with_range, with_file, with_mime, serve_file, is_unmodified, dated,
  serve_dated,
}
use monkey.Serve.Init.{
  ends, is_unserved, mime_of, serve_static, closing_status, on_answer, ask_handlers, check_link,
  with_index, check_directory, not_handled, look_up, root_path, compose_path, goes_backward,
  http_init,
}
use monkey.Serve.Polite.{Polite, ArePolite, run_stage_30-Polite}
use monkey.Serve.Known.{
  Known, Known-errors, Known-content, Fine, after-Fine, some≢none, Fine-if, Fine-quiet,
  send_chunk-Fine, request_error-Fine,
}

range_parse_status : (sr : SessionRequest) → (range_parse sr).1.status ≡ sr.headers.status
unfolding range_parse range_parse_at range_form range_suffix range_closed range_open
range_parse_status sr = ground arith

module _ (srv : Server) (host : Host) where
  transfer-Fine : (sr : SessionRequest) → Fine (transfer srv host sr)
  unfolding transfer
  transfer-Fine sr = Fine-if (eq_ℤ sr.headers.content_length (pos 0)) (Fine-quiet (pos 0) sr) (
      Fine-if (has_content sr.method)
        (Fine-if (eq_ℤ (range_set srv.config sr sr.file_info.size).0 (pos 0))
          (send_chunk-Fine srv.sys (range_set srv.config sr sr.file_info.size).1)
          (request_error-Fine srv host 400 (range_set srv.config sr sr.file_info.size).1
            Known-errors.0))
        (Fine-quiet (pos 0) sr))

  send_headers-Fine :
      (sr : SessionRequest) → Known sr.headers.status → Fine (send_headers srv host sr)
  unfolding send_headers
  send_headers-Fine sr k =
      after-Fine (headers sr ∷ []) (transfer srv host (headers_sent sr)) (k, tt)
        (transfer-Fine (headers_sent sr))

  open_content-Fine :
      (sr : SessionRequest) → Known sr.headers.status → Fine (open_content srv host sr)
  unfolding open_content
  open_content-Fine sr k =
      let fd = srv.sys.open_file (cstr (path_of sr)) sr.file_info.no_atime in
      let sr' : SessionRequest = record sr { fd_file = fd } in
      Fine-if (ltb_ℤ (pos 0) sr.file_info.size)
        (Fine-if (eq_ℤ fd minus_one)
          (after-Fine (opened (path_of sr) fd ∷ []) (request_error srv host 403 sr') (tt, tt)
            (request_error-Fine srv host 403 sr' Known-errors.1))
          (after-Fine (opened (path_of sr) fd ∷ []) (send_headers srv host sr') (tt, tt)
            (send_headers-Fine sr' k)))
        (send_headers-Fine sr k)

  with_range-Fine : (sr : SessionRequest) → Known sr.headers.status → Fine (with_range srv host sr)
  unfolding with_range
  with_range-Fine sr k =
      let sr' : SessionRequest = record sr { headers = (range_parse sr).1 } in
      let k' : Known sr'.headers.status = subst Known (sym (range_parse_status sr)) k in
      Fine-if (given sr.range && srv.config.resume)
        (Fine-if (ltb_ℤ (range_parse sr).0 (pos 0))
          (request_error-Fine srv host 400 sr' Known-errors.0)
          (Fine-if (leb_ℤ (pos 0) sr'.headers.range_from || leb_ℤ (pos 0) sr'.headers.range_to)
            (open_content-Fine (set_status sr' 206) Known-content.1) (open_content-Fine sr' k')))
        (open_content-Fine sr k)

  serve_file-Fine : (mime : Mimetype) (sr : SessionRequest) → Fine (serve_file srv host mime sr)
  unfolding serve_file
  serve_file-Fine mime sr =
      Fine-if (has_type sr.method)
        (with_range-Fine (with_mime mime.mime_type (with_file sr)) Known-content.0)
        (open_content-Fine (with_mime null (with_file sr)) Known-content.0)

  serve_dated-Fine : (mime : Mimetype) (sr : SessionRequest) → Fine (serve_dated srv host mime sr)
  unfolding serve_dated
  serve_dated-Fine mime sr =
      Fine-if (is_unmodified srv sr)
        (record { returns = some≢none exit_normal; lines = (Known-content.3, tt) })
        (serve_file-Fine mime sr)

  module _ (cs : ClientSession) where
    serve_static-Fine : (sr : SessionRequest) → Fine (serve_static srv host cs sr)
    unfolding serve_static
    serve_static-Fine sr =
        Fine-if (is_unserved sr.method) (request_error-Fine srv host 501 sr Known-errors.3) (
          Fine-if (not sr.file_info.read_access) (request_error-Fine srv host 403 sr Known-errors.1)
            (Fine-if sr.file_info.is_directory (request_error-Fine srv host 403 sr Known-errors.1) (
              Fine-if (ltb_ℤ sr.file_info.size (pos 0))
                (request_error-Fine srv host 404 sr Known-errors.2)
                (serve_dated-Fine (mime_of srv sr) (dated srv cs sr)))))

    on_answer-Fine :
        (declined : SessionRequest → Result) (t : Turn)
        → Polite t
        → ((sr : SessionRequest) → Fine (declined sr))
        → Fine (on_answer srv host declined t)
    unfolding on_answer
    on_answer-Fine declined t p f = go t.answer refl
      where
        go :
            (a : Answer)
            → t.answer ≡ a
            → Fine (elim a [
              | keep_on ↦ after t.log (ends (some ret_continue) t.request)
              | close_conx ↦
                  after t.log (request_error srv host (closing_status t.request) t.request)
              | at_end ↦ after t.log (ends (some exit_normal) t.request)
              | not_me ↦ after t.log (declined t.request)
              | invalid ↦ after t.log (ends none t.request)
            ])
        go keep_on e =
            after-Fine t.log (ends (some ret_continue) t.request) p.lines
              (Fine-quiet ret_continue t.request)
        go close_conx e =
            after-Fine t.log (request_error srv host (closing_status t.request) t.request) p.lines
              (request_error-Fine srv host (closing_status t.request) t.request (p.status e))
        go at_end e =
            after-Fine t.log (ends (some exit_normal) t.request) p.lines
              (Fine-quiet exit_normal t.request)
        go not_me e = after-Fine t.log (declined t.request) p.lines (f t.request)
        go invalid e = absurd (p.valid e)

    module _ (polite : ArePolite srv.stages.stage_30) where
      ask_handlers-Fine : (sr : SessionRequest) → Fine (ask_handlers srv host cs sr)
      unfolding ask_handlers
      ask_handlers-Fine sr = go sr.stage30_blocked
        where
          go :
              (b : Bool)
              → Fine (elim b [
                | true ↦ serve_static srv host cs sr
                | false ↦
                    on_answer srv host
                      (serve_static srv host cs)
                      (run_stage_30 srv.stages.stage_30 cs sr)
              ])
          go true = serve_static-Fine sr
          go false =
              on_answer-Fine (serve_static srv host cs) (run_stage_30 srv.stages.stage_30 cs sr)
                (run_stage_30-Polite srv.stages.stage_30 cs sr polite) serve_static-Fine

      check_link-Fine : (sr : SessionRequest) → Fine (check_link srv host cs sr)
      unfolding check_link
      check_link-Fine sr =
          Fine-if sr.file_info.is_link
            (Fine-if (not srv.config.symlink) (request_error-Fine srv host 403 sr Known-errors.1)
              (go (srv.sys.readlink (cstr (path_of sr)))))
            (ask_handlers-Fine sr)
        where
          go :
              (o : Option Bytes)
              → Fine (elim o [
                | none ↦ request_error srv host 403 sr
                | some _ ↦ ask_handlers srv host cs sr
              ])
          go none = request_error-Fine srv host 403 sr Known-errors.1
          go (some _) = ask_handlers-Fine sr

      check_directory-Fine : (sr : SessionRequest) → Fine (check_directory srv host cs sr)
      unfolding check_directory directory_redirect_check
      check_directory-Fine sr =
          Fine-if sr.file_info.is_directory (go (ends_with_slash sr.uri_processed))
            (check_link-Fine sr)
        where
          go :
              (b : Bool)
              → Fine (elim (if b then none else some (redirected srv cs sr)) [
                | some redirect ↦ redirect
                | none ↦ check_link srv host cs (with_index srv sr)
              ])
          go true = check_link-Fine (with_index srv sr)
          go false = record { returns = some≢none minus_one; lines = (Known-content.2, (tt, tt)) }

      not_handled-Fine : (sr : SessionRequest) → Fine (not_handled srv host cs sr)
      unfolding not_handled
      not_handled-Fine sr =
          Fine-if (not sr.file_info.exists) (request_error-Fine srv host 404 sr Known-errors.2) (
            Fine-if (not sr.stage30_blocked) (request_error-Fine srv host 403 sr Known-errors.1)
              (check_directory-Fine sr))

      look_up-Fine : (sr : SessionRequest) → Fine (look_up srv host cs sr)
      unfolding look_up
      look_up-Fine sr =
          let info = file_get_info srv.sys (path_of sr) sr.file_info in
          let sr' : SessionRequest = record sr { file_info = info.1 } in
          Fine-if (eq_ℤ info.0 (pos 0)) (check_directory-Fine sr') (
            on_answer-Fine (not_handled srv host cs) (run_stage_30 srv.stages.stage_30 cs sr')
              (run_stage_30-Polite srv.stages.stage_30 cs sr' polite) not_handled-Fine)

      -- When the plugins of STAGE_30 answer with one of the four values, and only send responses or close
      -- connections with known statuses, mk_http_init returns, and each response that it sends has a
      -- status that mk_header_send has a line for, whatever the files of the system are.
      pub http_init-Fine : (sr : SessionRequest) → Fine (http_init srv host cs sr)
      unfolding http_init
      http_init-Fine sr = go (compose_path host (root_path host sr))
        where
          go :
              (o : Option SessionRequest)
              → Fine (elim o [
                | none ↦ ends (some exit_error) (root_path host sr)
                | some sr' ↦
                    if goes_backward sr'
                    then request_error srv host 403 sr'
                    else look_up srv host cs sr'
              ])
          go none = Fine-quiet exit_error (root_path host sr)
          go (some sr') =
              Fine-if (goes_backward sr') (request_error-Fine srv host 403 sr' Known-errors.1)
                (look_up-Fine sr')
