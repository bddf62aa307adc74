-- ===== src/Serve/Backward.antt =====
-- Requests whose path goes to a directory above: mk_http_init of src/mk_http.c.
use monkey.Prelude.{
  ◌≡◌, ◌⊎◌, inl, inr, Bool, false, [], refl, ap, ◌∙◌, true, Option, none, some, All, arith,
  if◌then◌else◌,
}
use monkey.Types.{SessionRequest, ClientSession}
use monkey.Site.{Host}
use monkey.Serve.Plugins.{Result, Server}
use monkey.Serve.Responses.{responses, responses-request_error}
use monkey.Serve.Errors.{exit_error, request_error}
use monkey.Serve.Init.{look_up, root_path, compose_path, goes_backward, http_init, ends}
use monkey.Libc.{memmem, codes}
use monkey.Response.{text_of}
use monkey.Serve.Opens.{Refuses, request_error-Refuses}

root_path-uri :
    (host : Host) (sr : SessionRequest) → (root_path host sr).uri_processed ≡ sr.uri_processed
unfolding root_path
root_path-uri host sr = ground arith

compose_path-uri :
    (host : Host) (sr sr' : SessionRequest)
    → compose_path host sr ≡ some sr'
    → sr'.uri_processed ≡ sr.uri_processed
unfolding compose_path
compose_path-uri host sr sr' e = ground arith

-- One response is sent; or none, when the path could not be put together.
abbrev pub AnsweredOnce : Host → SessionRequest → Result → Type 0
AnsweredOnce host sr r =
    (responses r.log ≡ 1)
    ⊎ ((compose_path host (root_path host sr) ≡ none) × (r.log ≡ []) × (r.value ≡ some exit_error))

record Refused (host : Host) (sr : SessionRequest) (r : Result) : Type 0 where
  each : All (Refuses host 403) r.log
  answered : AnsweredOnce host sr r

refuses :
    (srv : Server) (host : Host) (sr sr' : SessionRequest)
    → Refused host sr (request_error srv host 403 sr')
refuses srv host sr sr' = record {
  each = request_error-Refuses srv host 403 sr';
  answered = inl (responses-request_error srv host 403 sr');
}

Refused-if :
    (host : Host) (sr : SessionRequest) (b : Bool) (r s : Result)
    → b ≡ true
    → Refused host sr r
    → Refused host sr (if b then r else s)
Refused-if host sr true r s e h = h
Refused-if host sr false r s e h = absurd (ground (arith, e))

-- When the decoded URI of a request holds two dots in a row, mk_http_init answers with exactly one response,
-- which has the status 403: whatever the path is and whatever the system and the plugins do. The only file
-- that it may open is the host's own page for 403. There is no response only if mk_buffer_cat has refused
-- to put the path together; then mk_http_init does nothing and returns -1.
pub http_init-Refuses :
    (srv : Server) (host : Host) (cs : ClientSession) (sr : SessionRequest)
    → memmem (text_of sr.uri_processed) (codes "..") ≡ true
    → All (Refuses host 403) (http_init srv host cs sr).log
      × AnsweredOnce host sr (http_init srv host cs sr)
unfolding http_init
http_init-Refuses srv host cs sr back =
    let r = go (compose_path host (root_path host sr)) refl in (r.each, r.answered)
  where
    go :
        (o : Option SessionRequest)
        → compose_path host (root_path host sr) ≡ o
        → Refused host sr (elim o [
          | none ↦ ends (some exit_error) (root_path host sr)
          | some sr' ↦
              if goes_backward sr' then request_error srv host 403 sr' else look_up srv host cs sr'
        ])
    go none e = record { each = tt; answered = inr (e, refl, refl) }
    go (some sr') e =
        let same : sr'.uri_processed ≡ sr.uri_processed =
          compose_path-uri host (root_path host sr) sr' e ∙ root_path-uri host sr in
        let back' : goes_backward sr' ≡ true =
          ap (λ p. memmem (text_of p) (codes "..")) same ∙ back in
        Refused-if host sr (goes_backward sr') (request_error srv host 403 sr')
          (look_up srv host cs sr') back' (refuses srv host sr sr')
