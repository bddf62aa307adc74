-- ===== src/Request/Processed.antt =====
-- A request that mk_request_header_process of src/mk_request.c accepts.
use monkey.Prelude.{
  ℕ, ◌+◌, ◌<◌, ◌≡◌, ◌≢◌, refl, sym, ap, subst, ◌∙◌, inl, inr, true, none, some, drop, arith, ℤ, pos,
  minus_one, ltb_ℤ, ◌-ℤ◌, Option-cases,
}
use monkey.Libc.{Bytes, codes, index}
use monkey.Url.{url_decode}
use monkey.Types.{SessionRequest, ServerConfig}
use monkey.Http.Methods.{protocol_check}
use monkey.Request.Header.{
  pointer_create, uri_bounds, split_query, or_processed, bytes_of, with_line, process_headers,
  process_line, process_text, header_process, host_step, own_headers, lookup,
}
use monkey.Request.Line.{IsUri, IsSplit, uri_bounds-IsUri, split_query-IsSplit}
use monkey.Request.Outcome.{
  SameLine, Decides, host_step-SameLine, host_step-keep_alive, own_headers-SameLine,
  own_headers-Decides, SameLine-trans,
}

-- What the server answers to, in terms of the text of the request.
pub record Processed (sr after : SessionRequest) : Type 0 where
  pub text : Bytes
  pub fh_limit : ℕ
  pub uri_init : ℕ
  pub uri_end : ℕ
  pub uri_stop : ℕ
  pub body : sr.body.data_at ≡ some text
  pub newline : index text b'\n' ≡ some fh_limit
  pub line : IsUri text fh_limit uri_init uri_end
  pub split : IsSplit text uri_init uri_end sr.query_string (after.query_string, uri_stop)
  pub uri : after.uri ≡ pointer_create text uri_init (uri_stop + 1)
  pub decoded :
      after.uri_processed ≡ or_processed (url_decode (bytes_of after.uri) after.uri.len) after.uri
  pub version :
      1 < fh_limit
      → after.protocol
        ≡ protocol_check (drop (uri_end + 2) text) (pos fh_limit -ℤ pos 1 -ℤ pos (uri_end + 2))
  pub connection : Decides after.protocol sr.keep_alive after

reaches_headers :
    (config : ServerConfig) (sr after : SessionRequest) {r : ℤ} {sr' : SessionRequest}
    → host_step config (lookup (codes "Host:") 5 sr).0 (lookup (codes "Host:") 5 sr).1
      ≡ some (r, sr')
    → process_headers config sr ≡ some (pos 0, after)
    → after ≡ own_headers sr'
unfolding process_headers
reaches_headers config sr after h e = ground arith

no_host_result :
    (config : ServerConfig) (sr : SessionRequest) {after : SessionRequest}
    → host_step config (lookup (codes "Host:") 5 sr).0 (lookup (codes "Host:") 5 sr).1 ≡ none
    → process_headers config sr ≢ some (pos 0, after)
unfolding process_headers
no_host_result config sr h e = ground arith

lookup-SameLine : (key : Bytes) (n : ℕ) (sr : SessionRequest) → SameLine sr (lookup key n sr).1
lookup-SameLine key n sr = record {
  uri = refl;
  uri_processed = refl;
  query_string = refl;
  protocol = refl;
  method = refl;
}

own_headers-parts :
    (sr looked middle : SessionRequest)
    → SameLine sr looked
    → SameLine looked middle
    → middle.keep_alive ≡ sr.keep_alive
    → SameLine sr (own_headers middle) × Decides sr.protocol sr.keep_alive (own_headers middle)
own_headers-parts sr looked middle h k keep =
    let line = SameLine-trans h k in
    (
      SameLine-trans line (own_headers-SameLine middle),
      subst (λ p. Decides p sr.keep_alive (own_headers middle)) line.protocol
          (subst (λ b. Decides middle.protocol b (own_headers middle)) keep
            (own_headers-Decides middle)),
    )

process_headers-parts :
    (config : ServerConfig) (sr after : SessionRequest)
    → process_headers config sr ≡ some (pos 0, after)
    → SameLine sr after × Decides sr.protocol sr.keep_alive after
process_headers-parts config sr after e =
    elim (Option-cases
      (host_step config (lookup (codes "Host:") 5 sr).0 (lookup (codes "Host:") 5 sr).1)) [
        | inl n ↦ absurd (no_host_result config sr n e)
        | inr ((r, middle), h) ↦
            let looked = (lookup (codes "Host:") 5 sr).1 in
            let host = (lookup (codes "Host:") 5 sr).0 in
            rw (reaches_headers config sr after h e) (
              own_headers-parts sr looked middle (lookup-SameLine (codes "Host:") 5 sr)
                (host_step-SameLine config host looked h)
                (host_step-keep_alive config host looked h))
      ]

-- The request with its line read.
abbrev pub lined : Bytes → ℕ → ℕ → ℕ → SessionRequest → SessionRequest
lined text fh_limit uri_init uri_end sr =
    let query = split_query text uri_init uri_end sr.query_string in
    let uri = pointer_create text uri_init (query.1 + 1) in
    with_line text (uri_end + 2) (pos fh_limit -ℤ pos 1) uri
      (record sr { query_string = query.0; uri = uri })

reaches_line :
    (config : ServerConfig) (text : Bytes) (fh_limit uri_init uri_end : ℕ) (sr : SessionRequest)
    {after : SessionRequest}
    → process_line config text fh_limit (uri_init, uri_end) sr ≡ some (pos 0, after)
    → process_headers config (lined text fh_limit uri_init uri_end sr) ≡ some (pos 0, after)
unfolding process_line
reaches_line config text fh_limit uri_init uri_end sr e = ground arith

lined-version :
    (text : Bytes) (fh_limit uri_init uri_end : ℕ) (sr : SessionRequest)
    → 1 < fh_limit
    → (lined text fh_limit uri_init uri_end sr).protocol
      ≡ protocol_check (drop (uri_end + 2) text) (pos fh_limit -ℤ pos 1 -ℤ pos (uri_end + 2))
unfolding with_line
lined-version text fh_limit uri_init uri_end sr lt =
    let positive : ltb_ℤ (pos 0) (pos fh_limit -ℤ pos 1) ≡ true = unfold ◌-ℤ◌ in ground arith in
    rw positive refl

reaches_text :
    (config : ServerConfig) (text : Bytes) (fh_limit uri_init uri_end : ℕ) (sr : SessionRequest)
    → index text b'\n' ≡ some fh_limit
    → uri_bounds text fh_limit ≡ some (uri_init, uri_end)
    → process_text config text sr ≡ process_line config text fh_limit (uri_init, uri_end) sr
unfolding process_text
reaches_text config text fh_limit uri_init uri_end sr n u = ground arith

no_newline :
    (config : ServerConfig) (text : Bytes) (sr : SessionRequest)
    → index text b'\n' ≡ none
    → process_text config text sr ≡ none
unfolding process_text
no_newline config text sr n = ground arith

no_uri :
    (config : ServerConfig) (text : Bytes) (fh_limit : ℕ) (sr : SessionRequest)
    → index text b'\n' ≡ some fh_limit
    → uri_bounds text fh_limit ≡ none
    → process_text config text sr ≡ some (minus_one, sr)
unfolding process_text
no_uri config text fh_limit sr n u = ground arith

-- A first line with a URI, of a request that is accepted.
line-Processed :
    (config : ServerConfig) (text : Bytes) (fh_limit uri_init uri_end : ℕ)
    (sr after : SessionRequest)
    → sr.body.data_at ≡ some text
    → index text b'\n' ≡ some fh_limit
    → uri_bounds text fh_limit ≡ some (uri_init, uri_end)
    → process_line config text fh_limit (uri_init, uri_end) sr ≡ some (pos 0, after)
    → Processed sr after
unfolding with_line
line-Processed config text fh_limit uri_init uri_end sr after d n u e =
    let query = split_query text uri_init uri_end sr.query_string in
    let (same, decides) =
      process_headers-parts config (lined text fh_limit uri_init uri_end sr) after
        (reaches_line config text fh_limit uri_init uri_end sr e) in
    record {
      text = text;
      fh_limit = fh_limit;
      uri_init = uri_init;
      uri_end = uri_end;
      uri_stop = query.1;
      body = d;
      newline = n;
      line = uri_bounds-IsUri text fh_limit uri_init uri_end n u;
      split =
          subst (λ q. IsSplit text uri_init uri_end sr.query_string (q, query.1))
            (sym same.query_string) (split_query-IsSplit text uri_init uri_end sr.query_string);
      uri = same.uri;
      decoded =
          same.uri_processed
          ∙ ap (λ u. or_processed (url_decode (bytes_of u) u.len) u) (sym same.uri);
      version = λ lt. same.protocol ∙ lined-version text fh_limit uri_init uri_end sr lt;
      connection = subst (λ p. Decides p sr.keep_alive after) (sym same.protocol) decides;
    }

text-Processed :
    (config : ServerConfig) (text : Bytes) (sr after : SessionRequest)
    → sr.body.data_at ≡ some text
    → process_text config text sr ≡ some (pos 0, after)
    → Processed sr after
text-Processed config text sr after d e = elim (Option-cases (index text b'\n')) [
  | inl n ↦ absurd (ground (arith, no_newline config text sr n, e))
  | inr (fh_limit, n) ↦ elim (Option-cases (uri_bounds text fh_limit)) [
    | inl u ↦ absurd (ground (arith, no_uri config text fh_limit sr n u, e))
    | inr ((uri_init, uri_end), u) ↦
        line-Processed config text fh_limit uri_init uri_end sr after d n u
          (sym (reaches_text config text fh_limit uri_init uri_end sr n u) ∙ e)
  ]
]

-- When mk_request_header_process returns 0 for a request whose body points to a text, the URI stands between
-- the first space of the text and the last space of its first line, the query behind the first question
-- mark is split off it unless the URI begins with one, the processed URI is the decoded one if it has
-- escapes, and the version is read from what stands behind the last space, up to a byte before the newline.
-- The connection is kept only with version 1.1 or on the Connection header's demand; with version 1.0 and
-- no such header it is closed.
pub header_process-Processed :
    (config : ServerConfig) (text : Bytes) (sr after : SessionRequest)
    → sr.body.data_at ≡ some text
    → header_process config sr ≡ some (pos 0, after)
    → Processed sr after
unfolding header_process
header_process-Processed config text sr after d e =
    let at : process_text config text sr ≡ process_text config (bytes_of sr.body) sr =
      ap (λ t. process_text config t sr) (ground arith) in
    text-Processed config text sr after d (at ∙ e)
