-- ===== src/Serve/Permitted.antt =====
-- What src/mk_http.c opens for a request that it serves itself.
use monkey.Prelude.{
  ℕ, ◌≡◌, refl, ◌⊎◌, inl, inr, Bool, true, false, ◌&&◌, ◌||◌, not, some, List, [], ◌∷◌, All, arith,
  if◌then◌else◌, ℤ, pos, minus_one, ltb_ℤ, leb_ℤ, eq_ℤ,
}
use monkey.Libc.{Bytes, cstr}
use monkey.Types.{SessionRequest, ClientSession, null}
use monkey.Http.Range.{given, range_parse, range_set}
use monkey.Http.Send.{uncorks}
use monkey.Mime.{Mimetype}
use monkey.Site.{Host}
use monkey.Serve.Plugins.{
  Action, headers, content, opened, sent_file, uncork, Result, after, Server,
}
use monkey.Serve.Errors.{set_status, headers_sent, send_chunk, request_error}
use monkey.Serve.Static.{
  path_of, has_type, has_content, transfer, send_headers, open_content, with_range, with_file,
  with_mime, serve_file, is_unmodified, dated, serve_dated,
}
use monkey.Serve.Init.{is_unserved, mime_of, serve_static}
use monkey.Serve.Opens.{IsPage, Refuses, Opens, Logs, Logs-when, Logs-if, request_error-Refuses}

-- The host's page for some status, or the path.
abbrev pub IsServed : Host → Bytes → Bytes → Type 0
IsServed host path p = (p ≡ path) ⊎ ((status : ℕ) × IsPage host status p)

Refuses-pages :
    (host : Host) (status : ℕ) (l : List Action)
    → All (Refuses host status) l
    → All (Opens (IsPage host status)) l
Refuses-pages host status [] h = tt
Refuses-pages host status (headers sr ∷ l) h = (tt, Refuses-pages host status l h.1)
Refuses-pages host status (content text ∷ l) h = (tt, Refuses-pages host status l h.1)
Refuses-pages host status (opened p fd ∷ l) h = (h.0, Refuses-pages host status l h.1)
Refuses-pages host status (sent_file fd offset count n ∷ l) h =
    (tt, Refuses-pages host status l h.1)
Refuses-pages host status (uncork ∷ l) h = (tt, Refuses-pages host status l h.1)

Opens-map :
    (P Q : Bytes → Type 0) (l : List Action)
    → ((p : Bytes) → P p → Q p)
    → All (Opens P) l
    → All (Opens Q) l
Opens-map P Q [] f h = tt
Opens-map P Q (headers sr ∷ l) f h = (tt, Opens-map P Q l f h.1)
Opens-map P Q (content text ∷ l) f h = (tt, Opens-map P Q l f h.1)
Opens-map P Q (opened p fd ∷ l) f h = (f p h.0, Opens-map P Q l f h.1)
Opens-map P Q (sent_file fd offset count n ∷ l) f h = (tt, Opens-map P Q l f h.1)
Opens-map P Q (uncork ∷ l) f h = (tt, Opens-map P Q l f h.1)

module _ (srv : Server) (host : Host) (path : Bytes) where
  abbrev Serves : Result → Type 0
  Serves = Logs (Opens (IsServed host path))

  error-Serves : (status : ℕ) (sr : SessionRequest) → Serves (request_error srv host status sr)
  error-Serves status sr = record {
    each =
        Opens-map (IsPage host status) (IsServed host path) (request_error srv host status sr).log
          (λ p page. inr (status, page))
          (Refuses-pages host status (request_error srv host status sr).log
            (request_error-Refuses srv host status sr));
  }

  none-Serves :
      (n : ℤ) (sr : SessionRequest) → Serves (record { value = some n; request = sr; log = [] })
  none-Serves n sr = record { each = tt }

  after-Serves :
      (a : Action) (r : Result)
      → Opens (IsServed host path) a
      → Serves r
      → Serves (after (a ∷ []) r)
  after-Serves a r h f = record { each = (h, f.each) }

  chunk-Serves : (sr : SessionRequest) → Serves (send_chunk srv.sys sr)
  unfolding send_chunk
  chunk-Serves sr = record {
    each = (tt, go (uncorks sr (srv.sys.sendfile sr.fd_file sr.bytes_offset sr.bytes_to_send)));
  }
    where
      go : (b : Bool) → All (Opens (IsServed host path)) (if b then uncork ∷ [] else [])
      go true = (tt, tt)
      go false = tt

  transfer-Serves : (sr : SessionRequest) → Serves (transfer srv host sr)
  unfolding transfer
  transfer-Serves sr = Logs-if (eq_ℤ sr.headers.content_length (pos 0)) (none-Serves (pos 0) sr) (
      Logs-if (has_content sr.method)
        (Logs-if (eq_ℤ (range_set srv.config sr sr.file_info.size).0 (pos 0))
          (chunk-Serves (range_set srv.config sr sr.file_info.size).1)
          (error-Serves 400 (range_set srv.config sr sr.file_info.size).1))
        (none-Serves (pos 0) sr))

  headers-Serves : (sr : SessionRequest) → Serves (send_headers srv host sr)
  unfolding send_headers
  headers-Serves sr =
      after-Serves (headers sr) (transfer srv host (headers_sent sr)) tt
        (transfer-Serves (headers_sent sr))

  content-Serves : (sr : SessionRequest) → path_of sr ≡ path → Serves (open_content srv host sr)
  unfolding open_content
  content-Serves sr e =
      let fd = srv.sys.open_file (cstr (path_of sr)) sr.file_info.no_atime in
      let sr' : SessionRequest = record sr { fd_file = fd } in
      Logs-if (ltb_ℤ (pos 0) sr.file_info.size)
        (Logs-if (eq_ℤ fd minus_one)
          (after-Serves (opened (path_of sr) fd) (request_error srv host 403 sr') (inl e)
            (error-Serves 403 sr'))
          (after-Serves (opened (path_of sr) fd) (send_headers srv host sr') (inl e)
            (headers-Serves sr')))
        (headers-Serves sr)

  range-Serves : (sr : SessionRequest) → path_of sr ≡ path → Serves (with_range srv host sr)
  unfolding with_range
  range-Serves sr e =
      let sr' : SessionRequest = record sr { headers = (range_parse sr).1 } in
      Logs-if (given sr.range && srv.config.resume)
        (Logs-if (ltb_ℤ (range_parse sr).0 (pos 0)) (error-Serves 400 sr') (
          Logs-if (leb_ℤ (pos 0) sr'.headers.range_from || leb_ℤ (pos 0) sr'.headers.range_to)
            (content-Serves (set_status sr' 206) e) (content-Serves sr' e)))
        (content-Serves sr e)

  file-Serves :
      (mime : Mimetype) (sr : SessionRequest)
      → path_of sr ≡ path
      → Serves (serve_file srv host mime sr)
  unfolding serve_file
  file-Serves mime sr e =
      Logs-if (has_type sr.method) (range-Serves (with_mime mime.mime_type (with_file sr)) e)
        (content-Serves (with_mime null (with_file sr)) e)

  dated-Serves :
      (mime : Mimetype) (sr : SessionRequest)
      → path_of sr ≡ path
      → Serves (serve_dated srv host mime sr)
  unfolding serve_dated
  dated-Serves mime sr e =
      Logs-if (is_unmodified srv sr) (record { each = (tt, tt) }) (file-Serves mime sr e)

-- A request that the server may answer with the file of its path.
pub record MayServe (sr : SessionRequest) : Type 0 where
  pub served : is_unserved sr.method ≡ false
  pub readable : sr.file_info.read_access ≡ true
  pub no_directory : sr.file_info.is_directory ≡ false
  pub sized : ltb_ℤ sr.file_info.size (pos 0) ≡ false

-- The host's page for some status; or the path of the request, and the request may be answered with it.
abbrev pub IsPermitted : Host → SessionRequest → Bytes → Type 0
IsPermitted host sr p = ((p ≡ path_of sr) × MayServe sr) ⊎ ((status : ℕ) × IsPage host status p)

serve_static-Logs :
    (srv : Server) (host : Host) (cs : ClientSession) (sr : SessionRequest)
    → Logs (Opens (IsPermitted host sr)) (serve_static srv host cs sr)
unfolding serve_static
serve_static-Logs srv host cs sr =
    Logs-when (is_unserved sr.method) (λ a. error 501)
      (λ a.
        Logs-when (not sr.file_info.read_access) (λ b. error 403)
          (λ b.
            Logs-when sr.file_info.is_directory (λ c. error 403)
              (λ c.
                Logs-when (ltb_ℤ sr.file_info.size (pos 0)) (λ d. error 404)
                  (λ d.
                    let may : MayServe sr = record {
                      served = a;
                      readable = ground arith;
                      no_directory = c;
                      sized = d;
                    } in
                    record {
                      each =
                          Opens-map (IsServed host (path_of sr)) (IsPermitted host sr)
                            (serve_dated srv host (mime_of srv sr) (dated srv cs sr)).log
                            (λ p h. elim h [ inl e ↦ inl (e, may) | inr page ↦ inr page ])
                            (dated-Serves srv host (path_of sr) (mime_of srv sr) (dated srv cs sr)
                              refl).each;
                    }))))
  where
    error : (status : ℕ) → Logs (Opens (IsPermitted host sr)) (request_error srv host status sr)
    error status = record {
      each =
          Opens-map (IsPage host status) (IsPermitted host sr)
            (request_error srv host status sr).log (λ p page. inr (status, page))
            (Refuses-pages host status (request_error srv host status sr).log
              (request_error-Refuses srv host status sr));
    }

-- A request that no plugin has taken opens two kinds of file only: the host's own page for an error, or
-- the file of the request's path. The second only when the method is GET, HEAD or POST and the path leads
-- to something that the worker may read, that is not a directory, and that has a size.
pub serve_static-Permitted :
    (srv : Server) (host : Host) (cs : ClientSession) (sr : SessionRequest)
    → All (Opens (IsPermitted host sr)) (serve_static srv host cs sr).log
serve_static-Permitted srv host cs sr = (serve_static-Logs srv host cs sr).each
