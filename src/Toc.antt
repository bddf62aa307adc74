-- ===== src/Toc.antt =====
-- The table of contents of the request headers: mk_request_header_toc_parse and
-- mk_request_header_get of src/mk_request.c.
pub mod Lines
pub mod Get
use monkey.Prelude.{
  ℕ, zero, suc, ◌+◌, ◌-◌, Bool, true, false, Option, none, some, List, [], ◌∷◌, drop, ltb,
  if◌then◌else◌,
}
use monkey.Libc.{Bytes, strstr, strncasecmp_eq}
use monkey.Types.{Pointer, Row, Toc, null, crlf, sub_word}

-- MK_HEADERS_TOC_LEN
abbrev pub toc_len : ℕ
toc_len = 32

-- `l < (data + len)`, where `l` is NULL before the first line.
abbrev pub before_end : Option ℕ → ℕ → Bool
before_end none len = true
before_end (some l) len = ltb l len

-- The loop of mk_request_header_toc_parse, with `n` for `MK_HEADERS_TOC_LEN - i`.
unfoldable pub toc_loop : ℕ → Bytes → ℕ → ℕ → Option ℕ → List Row
toc_loop zero text len p l = []
toc_loop (suc n) text len p l = elim (before_end l len) [
  | false ↦ []
  | true ↦ elim (strstr (drop p text) crlf) [
    | none ↦ []
    | some k ↦
        record { init = p; end = p + k; found = false }
        ∷ toc_loop n text len (p + k + 2) (some (p + k))
  ]
]

unfoldable pub toc_parse : Bytes → ℕ → Toc
toc_parse text len = record { base = text; rows = toc_loop toc_len text len 0 none }

-- The value of a row's header: what stands a byte behind the key, up to the row's end.
unfoldable pub row_value : Bytes → ℕ → Row → Pointer
row_value base key_len r = record {
  data_at = some (drop (r.init + key_len + 1) base);
  len = sub_word r.end (r.init + key_len + 1);
}

-- The key stands at the row's start, in upper or lower case.
unfoldable pub row_matches : Bytes → Bytes → ℕ → Row → Bool
row_matches base key key_len r = strncasecmp_eq (drop r.init base) key key_len

-- The loop of mk_request_header_get: the value, and the rows afterwards.
unfoldable pub get_loop : Bytes → Bytes → ℕ → List Row → Pointer × List Row
get_loop base key key_len [] = (null, [])
get_loop base key key_len (r ∷ rows) =
    let rest = get_loop base key key_len rows in
    if r.found
    then (rest.0, r ∷ rest.1)
    else if row_matches base key key_len r
    then (row_value base key_len r, record r { found = true } ∷ rows)
    else (rest.0, r ∷ rest.1)

unfoldable pub header_get : Toc → Bytes → ℕ → Pointer × Toc
header_get toc key key_len =
    let result = get_loop toc.base key key_len toc.rows in
    (result.0, record toc { rows = result.1 })
