-- ===== src/Serve/Announced.antt =====
-- What mk_request_error of src/mk_request.c announces, and what it sends.
use monkey.Prelude.{ℕ, ◌≡◌, ◌≢◌, Bool, some, List, [], ◌∷◌, ◌++◌, length, if◌then◌else◌, ℤ, pos}
use monkey.Libc.{Bytes}
use monkey.Types.{SessionRequest}
use monkey.Site.{Host}
use monkey.Serve.Plugins.{Action, headers, content, opened, sent_file, uncork, Result}
use monkey.Serve.Errors.{exit_error}
use monkey.Serve.Opens.{IsPage}

-- The response tells the status and the length.
abbrev pub Announces : ℕ → ℤ → SessionRequest → Type 0
Announces status len sent = (sent.headers.status ≡ status) × (sent.headers.content_length ≡ len)

-- The host's own page is sent: the file is opened, and as many bytes of it are offered as are announced.
pub record SendsFile (host : Host) (status : ℕ) (r : Result) : Type 0 where
  pub path : Bytes
  pub fd : ℤ
  pub size : ℤ
  pub offset : ℤ
  pub nbytes : ℤ
  pub sent : SessionRequest
  pub rest : List Action
  pub is_page : IsPage host status path
  pub nice : (status ≢ 400) × (status ≢ 411) × (status ≢ 413)
  pub log_is : r.log ≡ opened path fd ∷ headers sent ∷ sent_file fd offset size nbytes ∷ rest
  pub tells : Announces status size sent

-- A page of the server is sent, but for a HEAD request: its length is announced.
pub record SendsPage (status : ℕ) (bodiless : Bool) (r : Result) : Type 0 where
  pub page : Bytes
  pub sent : SessionRequest
  pub log_is :
      r.log ≡ headers sent ∷ ((if bodiless then [] else content page ∷ []) ++ (uncork ∷ []))
  pub tells : Announces status (pos (length page)) sent
  pub value_is : r.value ≡ some exit_error

-- The statuses that the server has no page for.
abbrev pub NoPage : ℕ → Type 0
NoPage status =
    (status ≢ 400)
    × (status ≢ 403)
    × (status ≢ 404)
    × (status ≢ 405)
    × (status ≢ 413)
    × (status ≢ 500)
    × (status ≢ 501)
    × (status ≢ 505)

-- Nothing is sent but the headers; the length is what it was before.
pub record SendsNothing (status : ℕ) (sr : SessionRequest) (r : Result) : Type 0 where
  pub sent : SessionRequest
  pub no_page : NoPage status
  pub log_is : r.log ≡ headers sent ∷ uncork ∷ []
  pub tells : Announces status sr.headers.content_length sent
  pub value_is : r.value ≡ some exit_error
