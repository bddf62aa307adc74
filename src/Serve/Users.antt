-- ===== src/Serve/Users.antt =====
-- mk_user_init of src/mk_user.c: a request for the home page of a system user.
use monkey.Prelude.{
  ℕ, ◌+◌, ◌-◌, true, none, some, [], ◌∷◌, ◌++◌, length, take, drop, ltb, leb, if◌then◌else◌, pos,
  negsuc, minus_one,
}
use monkey.Libc.{Bytes, cstr}
use monkey.Libc.Numbers.{to_int}
use monkey.Text.{char_search}
use monkey.Types.{SessionRequest}
use monkey.Site.{Host}
use monkey.Serve.Plugins.{Result, Server}
use monkey.Serve.Errors.{request_error}

abbrev pub refused : SessionRequest → Result
refused sr = record { value = some minus_one; request = sr; log = [] }

-- The end of the user's name behind `/~`: the next slash, or the end of the URI.
unfoldable pub user_limit : Bytes → ℕ → ℕ
user_limit text len = elim (char_search (drop 2 text) b'/' (to_int (pos len))) [
  | pos limit ↦ limit
  | negsuc _ ↦ len - 2
]

-- `%s/%s%s`
abbrev pub home_path : Bytes → Bytes → Bytes → Bytes
home_path dir user_dir rest = cstr dir ++ (b'/' ∷ []) ++ cstr user_dir ++ rest

abbrev pub user_rest : Bytes → ℕ → ℕ → Bytes
user_rest text len limit =
    if ltb (2 + limit) len then cstr (take (len - 2 - limit) (drop (2 + limit) text)) else []

abbrev pub with_home : SessionRequest → Bytes → SessionRequest
with_home sr path = record sr {
  real_path = record { data_at = some path; len = length path };
  user_home = true;
}

-- With a name that is short enough.
unfoldable pub user_lookup : Server → Host → Bytes → Bytes → ℕ → SessionRequest → Result
user_lookup srv host user_dir text limit sr =
    elim (srv.sys.getpwnam (cstr (take limit (drop 2 text)))) [
      | none ↦ record (request_error srv host 404 sr) { value = some minus_one }
      | some dir ↦ record {
        value = some (pos 0);
        request = with_home sr (home_path dir user_dir (user_rest text sr.uri_processed.len limit));
        log = [];
      }
    ]

-- mk_user_init, for a text of the processed URI
unfoldable pub user_init : Server → Host → Bytes → Bytes → SessionRequest → Result
user_init srv host user_dir text sr =
    if leb sr.uri_processed.len 2
    then refused sr
    else if leb 255 (user_limit text sr.uri_processed.len + 2)
    then refused sr
    else user_lookup srv host user_dir text (user_limit text sr.uri_processed.len) sr
