-- ===== src/Serve/Known.antt =====
-- The statuses of the responses that src/mk_request.c and src/mk_http.c send: mk_header_send knows them.
use monkey.Prelude.{
  ℕ, ◌≡◌, ◌≢◌, refl, ◌⊎◌, inl, inr, Bool, true, false, Option, none, some, List, [], ◌∷◌, ◌++◌, All,
  All-append, arith, ◌==◌, if◌then◌else◌, ℤ, minus_one, Bool-cases,
}
use monkey.Libc.{Bytes}
use monkey.Types.{ResponseHeaders, FileInfo, SessionRequest}
use monkey.Http.Status.{find_status, status_response}
use monkey.Http.Send.{send_file, uncorks}
use monkey.Response.{status_line, text_of}
use monkey.Site.{Host, System}
use monkey.Serve.Plugins.{
  Action, headers, content, opened, sent_file, uncork, Result, after, Server,
}
use monkey.Serve.Errors.{
  set_status, headers_sent, send_chunk, custom_page, send_page_file, page_of, page_body, is_head,
  with_page_file, with_page, send_page, request_error,
}

-- A status with an entry in `status_response`, or the one that stands for a plugin's own line.
abbrev pub Known : ℕ → Type 0
Known status = (status ≡ 7) ⊎ ((line : Bytes) × (find_status status status_response ≡ some line))

pub status_line-Known :
    (sh : ResponseHeaders) → Known sh.status → (line : Bytes) × (status_line sh ≡ some line)
unfolding status_line
status_line-Known sh (inl e) = (text_of sh.custom_status, ground arith)
status_line-Known sh (inr (line, e)) = elim (Bool-cases (sh.status == 7)) [
  | inl q ↦ (text_of sh.custom_status, rw q refl)
  | inr q ↦ (line, rw q e)
]

pub Known-errors : Known 400 × Known 403 × Known 404 × Known 501 × Known 505 × Known 411 × Known 413
unfolding find_status status_response
Known-errors = (
  inr (_, refl),
  inr (_, refl),
  inr (_, refl),
  inr (_, refl),
  inr (_, refl),
  inr (_, refl),
  inr (_, refl),
)

pub Known-content : Known 200 × Known 206 × Known 301 × Known 304
unfolding find_status status_response
Known-content = (inr (_, refl), inr (_, refl), inr (_, refl), inr (_, refl))

-- What an action must be for mk_header_send to know the status.
abbrev pub HasLine : Action → Type 0
HasLine (headers sr) = Known sr.headers.status
HasLine (content text) = Unit
HasLine (opened path fd) = Unit
HasLine (sent_file fd offset count n) = Unit
HasLine uncork = Unit

-- A step that returns, and whose responses all have known statuses.
pub record Fine (r : Result) : Type 0 where
  pub returns : r.value ≢ none
  pub lines : All HasLine r.log

pub after-Fine : (log : List Action) (r : Result) → All HasLine log → Fine r → Fine (after log r)
after-Fine log r h f = record {
  returns = f.returns;
  lines = All-append HasLine log r.log h f.lines;
}

pub some≢none : {A : Type 0} (a : A) → some a ≢ none
some≢none a e = ground arith

pub send_chunk-Fine : (sys : System) (sr : SessionRequest) → Fine (send_chunk sys sr)
unfolding send_chunk
send_chunk-Fine sys sr =
    let n = sys.sendfile sr.fd_file sr.bytes_offset sr.bytes_to_send in
    record { returns = some≢none (send_file sr n).0; lines = (tt, last (uncorks sr n)) }
  where
    last : (b : Bool) → All HasLine (if b then uncork ∷ [] else [])
    last true = (tt, tt)
    last false = tt

send_page-Fine :
    (page : Option Bytes) (sr : SessionRequest) → Known sr.headers.status → Fine (send_page page sr)
unfolding send_page with_page page_body
send_page-Fine none sr k = record { returns = some≢none minus_one; lines = (k, (tt, tt)) }
send_page-Fine (some page) sr k = record {
  returns = some≢none minus_one;
  lines = (k, last (is_head sr.method));
}
  where
    last : (b : Bool) → All HasLine ((if b then [] else content page ∷ []) ++ (uncork ∷ []))
    last true = (tt, tt)
    last false = (tt, (tt, tt))

pub request_error-Fine :
    (srv : Server) (host : Host) (status : ℕ) (sr : SessionRequest)
    → Known status
    → Fine (request_error srv host status sr)
unfolding request_error send_page_file
request_error-Fine srv host status sr k = go (custom_page srv host status (set_status sr status))
  where
    go :
        (o : Option (Bytes × ℤ × FileInfo))
        → Fine (elim o [
          | none ↦ send_page (page_of status (set_status sr status) host) (set_status sr status)
          | some file ↦ send_page_file srv (set_status sr status) file
        ])
    go none = send_page-Fine (page_of status (set_status sr status) host) (set_status sr status) k
    go (some (path, fd, info)) =
        let sr' = with_page_file (set_status sr status) fd info in
        after-Fine (opened path fd ∷ headers sr' ∷ []) (send_chunk srv.sys (headers_sent sr'))
          (tt, (k, tt)) (send_chunk-Fine srv.sys (headers_sent sr'))

pub Fine-if : (b : Bool) {r s : Result} → Fine r → Fine s → Fine (if b then r else s)
Fine-if true f g = f
Fine-if false f g = g

-- A step that ends with a value and does nothing.
pub Fine-quiet :
    (n : ℤ) (sr : SessionRequest) → Fine (record { value = some n; request = sr; log = [] })
Fine-quiet n sr = record { returns = some≢none n; lines = tt }
