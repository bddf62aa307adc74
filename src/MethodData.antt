-- ===== src/MethodData.antt =====
-- src/mk_method.c: the length of what a POST or PUT request sends.
use monkey.Prelude.{
  ℕ, ◌+◌, ◌≡◌, ◌≢◌, refl, ◌⊎◌, true, Option, none, some, length, drop, arith, if◌then◌else◌, ℤ, pos,
  minus_one, pos_part, leb_ℤ, eq_ℤ, ltb_ℤ, ◌≤ℤ◌,
}
use monkey.Libc.{Bytes, codes}
use monkey.Libc.Numbers.{strtol}
use monkey.Text.{sensitive, insensitive, string_search, copy_substr}
use monkey.Types.{Pointer, Toc, SessionRequest, ClientSession, crlf}
use monkey.Toc.{toc_parse, header_get}

abbrev pub rh_content_length : Bytes
rh_content_length = codes "Content-Length:"

abbrev pub rh_content_type : Bytes
rh_content_type = codes "Content-type:"

-- strtol of a copy; copy_substr from 0 is never NULL.
abbrev strtol_of : Option Bytes → ℤ
strtol_of none = pos 0
strtol_of (some s) = strtol s

-- The search for the header in a text that has no table of contents yet.
unfoldable pub preparse_length : Bytes → ℤ
preparse_length body =
    let pos_header = string_search body rh_content_length insensitive in
    let pos_crlf = string_search (drop (pos_part pos_header) body) crlf sensitive in
    if leb_ℤ pos_header (pos 0)
    then minus_one
    else if leb_ℤ pos_crlf (pos 0)
    then minus_one
    else strtol_of (
        copy_substr (drop (pos_part pos_header + 15 + 1) body) 0
          (pos_part pos_header + pos_part pos_crlf))

length_at : Bytes → Option Bytes → ℤ
length_at body none = preparse_length body
length_at body (some value) = strtol value

-- mk_method_validate_content_length
unfoldable pub validate_content_length : Bytes → ℕ → ℤ
unfolding length_at
validate_content_length body body_len =
    length_at body (header_get (toc_parse body body_len) rh_content_length 15).0.data_at

-- mk_method_parse_data: an error page with its status, for which the function returns -1, or the
-- request with the content's type and length.
pub data Parsed : Type 0 where
  rejected : ℕ → Parsed
  accepted : SessionRequest → Parsed

with_type : SessionRequest → ℤ → Pointer → Toc → Parsed
with_type sr len tmp toc = elim tmp.data_at [
  | none ↦ rejected 400
  | some _ ↦ accepted (record sr { headers_toc = toc; content_type = tmp; content_length = len })
]

unfoldable pub parse_data : ClientSession → SessionRequest → Parsed
unfolding with_type
parse_data cs sr =
    let len = validate_content_length cs.body (length cs.body) in
    let found = header_get sr.headers_toc rh_content_type 13 in
    if eq_ℤ len minus_one
    then rejected 411
    else if leb_ℤ len (pos 0)
    then rejected 400
    else if leb_ℤ (pos cs.body_size) len
    then rejected 413
    else with_type sr len found.0 found.1

-- What mk_method_parse_data answers to a request, for the length `len` that it found.
abbrev pub Tells : ClientSession → SessionRequest → ℤ → Parsed → Type 0
Tells cs sr len (accepted sr') =
    (pos 1 ≤ℤ len)
    × (ltb_ℤ len (pos cs.body_size) ≡ true)
    × ((header_get sr.headers_toc rh_content_type 13).0.data_at ≢ none)
    × (sr' ≡ record sr {
      headers_toc = (header_get sr.headers_toc rh_content_type 13).1;
      content_type = (header_get sr.headers_toc rh_content_type 13).0;
      content_length = len;
    })
Tells cs sr len (rejected status) =
    ((status ≡ 411) × (len ≡ minus_one))
    ⊎ (((status ≡ 413) × (pos 1 ≤ℤ len) × (pos cs.body_size ≤ℤ len))
        ⊎ ((status ≡ 400)
            × (len ≢ minus_one)
            × ((len ≤ℤ pos 0)
                ⊎ ((ltb_ℤ len (pos cs.body_size) ≡ true)
                    × ((header_get sr.headers_toc rh_content_type 13).0.data_at ≡ none)))))

-- mk_method_parse_data accepts a request exactly when it has a content type and a content length from 1
-- up to less than the size of the request buffer. It records both, marks the row of the type as found, and
-- changes nothing else of the request. It rejects with status 411 exactly a request whose length was not
-- found or is -1, with 413 one whose length is positive and the buffer's size or more, and with 400 any other.
pub parse_data-Tells :
    (cs : ClientSession) (sr : SessionRequest)
    → Tells cs sr (validate_content_length cs.body (length cs.body)) (parse_data cs sr)
unfolding parse_data
parse_data-Tells cs sr = go (parse_data cs sr) refl
  where
    go :
        (p : Parsed)
        → parse_data cs sr ≡ p
        → Tells cs sr (validate_content_length cs.body (length cs.body)) p
    go (accepted sr') e = (ground arith, ground arith, λ q. ground arith, ground arith)
    go (rejected status) e = ground arith
