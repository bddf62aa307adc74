-- ===== src/Serve/Opens.antt =====
-- The files that src/mk_http.c and src/mk_request.c open for a request.
use monkey.Prelude.{
  ℕ, ◌≡◌, refl, inl, inr, Bool, true, false, Option, none, some, [], ◌∷◌, ◌++◌, All, arith,
  if◌then◌else◌, ℤ, Option-cases,
}
use monkey.Libc.{Bytes}
use monkey.Types.{FileInfo, SessionRequest}
use monkey.Http.Send.{uncorks}
use monkey.Site.{Host, System, ErrorPage}
use monkey.Serve.Plugins.{Action, headers, content, opened, sent_file, uncork, Result, Server}
use monkey.Serve.Errors.{
  set_status, headers_sent, send_chunk, page_for, open_page, custom_page, with_page_file,
  send_page_file, page_of, with_page, is_head, page_body, send_page, request_error,
}

-- The page that the host has for a status.
abbrev pub IsPage : Host → ℕ → Bytes → Type 0
IsPage host status path =
    (page : ErrorPage) × (page_for status host.error_pages ≡ some page) × (path ≡ page.real_path)

-- Responses of one status, and no file but the host's page for it.
abbrev pub Refuses : Host → ℕ → Action → Type 0
Refuses host status (headers sr) = sr.headers.status ≡ status
Refuses host status (opened path fd) = IsPage host status path
Refuses host status (content text) = Unit
Refuses host status (sent_file fd offset count n) = Unit
Refuses host status uncork = Unit

-- Files for which Q holds, whatever else is done.
abbrev pub Opens : (Bytes → Type 0) → Action → Type 0
Opens Q (headers sr) = Unit
Opens Q (opened path fd) = Q path
Opens Q (content text) = Unit
Opens Q (sent_file fd offset count n) = Unit
Opens Q uncork = Unit

-- Each action of a step.
pub record Logs (P : Action → Type 0) (r : Result) : Type 0 where
  pub each : All P r.log

open_page-path :
    (srv : Server) (sr : SessionRequest) (p : ErrorPage) (path : Bytes) (fd : ℤ) (info : FileInfo)
    → open_page srv sr p ≡ some (path, fd, info)
    → path ≡ p.real_path
unfolding open_page
open_page-path srv sr p path fd info e = ground arith

pub custom_page-IsPage :
    (srv : Server) (host : Host) (status : ℕ) (sr : SessionRequest) (path : Bytes) (fd : ℤ)
    (info : FileInfo)
    → custom_page srv host status sr ≡ some (path, fd, info)
    → IsPage host status path
unfolding custom_page
custom_page-IsPage srv host status sr path fd info e =
    elim (Option-cases (page_for status host.error_pages)) [
      | inl n ↦ absurd (ground arith)
      | inr (p, q) ↦ (p, q, open_page-path srv sr p path fd info (ground arith))
    ]

send_chunk-Refuses :
    (host : Host) (status : ℕ) (sys : System) (sr : SessionRequest)
    → All (Refuses host status) (send_chunk sys sr).log
unfolding send_chunk
send_chunk-Refuses host status sys sr =
    (tt, go (uncorks sr (sys.sendfile sr.fd_file sr.bytes_offset sr.bytes_to_send)))
  where
    go : (b : Bool) → All (Refuses host status) (if b then uncork ∷ [] else [])
    go true = (tt, tt)
    go false = tt

send_page-Refuses :
    (host : Host) (status : ℕ) (page : Option Bytes) (sr : SessionRequest)
    → sr.headers.status ≡ status
    → All (Refuses host status) (send_page page sr).log
unfolding send_page with_page page_body
send_page-Refuses host status none sr e = (e, (tt, tt))
send_page-Refuses host status (some page) sr e = (e, go (is_head sr.method))
  where
    go :
        (b : Bool)
        → All (Refuses host status) ((if b then [] else content page ∷ []) ++ (uncork ∷ []))
    go true = (tt, tt)
    go false = (tt, (tt, tt))

request_error-Logs :
    (srv : Server) (host : Host) (status : ℕ) (sr : SessionRequest)
    → Logs (Refuses host status) (request_error srv host status sr)
unfolding request_error send_page_file
request_error-Logs srv host status sr = go (custom_page srv host status (set_status sr status)) refl
  where
    go :
        (o : Option (Bytes × ℤ × FileInfo))
        → custom_page srv host status (set_status sr status) ≡ o
        → Logs (Refuses host status) (elim o [
          | none ↦ send_page (page_of status (set_status sr status) host) (set_status sr status)
          | some file ↦ send_page_file srv (set_status sr status) file
        ])
    go none e = record {
      each =
          send_page-Refuses host status (page_of status (set_status sr status) host)
            (set_status sr status) refl;
    }
    go (some (path, fd, info)) e = record {
      each = (
        custom_page-IsPage srv host status (set_status sr status) path fd info e,
        (
          refl,
          send_chunk-Refuses host status srv.sys
              (headers_sent (with_page_file (set_status sr status) fd info)),
        ),
      );
    }

-- mk_request_error sends responses of the status it is given only, and opens the host's own page for
-- that status or nothing.
pub request_error-Refuses :
    (srv : Server) (host : Host) (status : ℕ) (sr : SessionRequest)
    → All (Refuses host status) (request_error srv host status sr).log
request_error-Refuses srv host status sr = (request_error-Logs srv host status sr).each

pub Logs-when :
    {P : Action → Type 0} (b : Bool) {r s : Result}
    → (b ≡ true → Logs P r)
    → (b ≡ false → Logs P s)
    → Logs P (if b then r else s)
Logs-when true f g = f refl
Logs-when false f g = g refl

pub Logs-if :
    {P : Action → Type 0} (b : Bool) {r s : Result}
    → Logs P r
    → Logs P s
    → Logs P (if b then r else s)
Logs-if b f g = Logs-when b (λ e. f) (λ e. g)
