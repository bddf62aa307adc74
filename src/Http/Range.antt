-- ===== src/Http/Range.antt =====
-- Byte ranges: mk_http_range_parse and mk_http_range_set of src/mk_http.c.
use monkey.Prelude.{
  ℕ, ◌+◌, Bool, true, false, ◌&&◌, ◌||◌, not, Option, none, some, drop, if◌then◌else◌, ℤ, pos,
  negsuc, minus_one, pos_part, ltb_ℤ, leb_ℤ, eq_ℤ, ◌+ℤ◌, ◌-ℤ◌,
}
use monkey.Libc.{Bytes, codes, strncasecmp_eq}
use monkey.Libc.Numbers.{atol, to_int}
use monkey.Text.{char_search, copy_substr}
use monkey.Types.{Pointer, ResponseHeaders, SessionRequest, ServerConfig}

-- atol of a copied text; the copies are never NULL here, since the positions are in order.
abbrev pub atol_of : Option Bytes → ℤ
atol_of none = pos 0
atol_of (some s) = atol s

-- abs and labs
abbrev pub abs : ℤ → ℤ
abs (pos n) = pos n
abs (negsuc n) = pos (n + 1)

-- `=-xxx`
unfoldable pub range_suffix : Bytes → ℕ → ResponseHeaders → ℤ × ResponseHeaders
range_suffix text sep_pos sh =
    let to = to_int (atol (drop (sep_pos + 1) text)) in
    if leb_ℤ to (pos 0)
    then (minus_one, record sh { range_from = minus_one; range_to = to })
    else (pos 0, record sh { range_from = minus_one; range_to = to; content_length = to })

-- `=yyy-xxx`
unfoldable pub range_closed : Bytes → ℕ → ℕ → ℕ → ResponseHeaders → ℤ × ResponseHeaders
range_closed text eq_pos sep_pos len sh =
    let from = to_int (atol_of (copy_substr text (eq_pos + 1) sep_pos)) in
    let to = to_int (atol_of (copy_substr text (sep_pos + 1) len)) in
    if leb_ℤ to (pos 0) || ltb_ℤ to from
    then (minus_one, record sh { range_from = from; range_to = to })
    else (
      pos 0,
      record sh {
        range_from = from;
        range_to = to;
        content_length = abs (to_int (to -ℤ from)) +ℤ pos 1;
      },
    )

-- `=yyy-`
unfoldable pub range_open : Bytes → ℕ → ℕ → ResponseHeaders → ℤ × ResponseHeaders
range_open text eq_pos len sh =
    let from = to_int (atol_of (copy_substr text (eq_pos + 1) len)) in
    (pos 0, record sh { range_from = from; content_length = sh.content_length -ℤ from })

-- mk_http_range_parse behind the two searches
unfoldable pub range_form : Bytes → ℤ → ℤ → ℤ → ResponseHeaders → ℤ × ResponseHeaders
range_form text len eq_pos sep_pos sh =
    if eq_ℤ (eq_pos +ℤ pos 1) sep_pos
    then range_suffix text (pos_part sep_pos) sh
    else if ltb_ℤ (sep_pos +ℤ pos 1) len
    then range_closed text (pos_part eq_pos) (pos_part sep_pos) (pos_part len) sh
    else if eq_ℤ len (sep_pos +ℤ pos 1)
    then range_open text (pos_part eq_pos) (pos_part len) sh
    else (minus_one, sh)

-- mk_http_range_parse: the returned value and the response headers afterwards. `range.len` is passed
-- on as an int.
unfoldable pub range_parse_at : Option Bytes → ℕ → ResponseHeaders → ℤ × ResponseHeaders
range_parse_at none len sh = (minus_one, sh)
range_parse_at (some text) len sh =
    let eq_pos = char_search text b'=' (to_int (pos len)) in
    let sep_pos = char_search text b'-' (to_int (pos len)) in
    if ltb_ℤ eq_pos (pos 0)
    then (minus_one, sh)
    else if not (strncasecmp_eq text (codes "Bytes") (pos_part eq_pos))
    then (minus_one, sh)
    else if ltb_ℤ sep_pos (pos 0)
    then (minus_one, sh)
    else range_form text (to_int (pos len)) eq_pos sep_pos sh

unfoldable pub range_parse : SessionRequest → ℤ × ResponseHeaders
unfolding range_parse_at
range_parse sr = range_parse_at sr.range.data_at sr.range.len sr.headers

abbrev pub nonneg : ℤ → Bool
nonneg = leb_ℤ (pos 0)

abbrev pub given : Pointer → Bool
given p = elim p.data_at [ none ↦ false | some _ ↦ true ]

-- The offset and the count of bytes to send.
pub record Span : Type 0 where
  pub offset : ℤ
  pub count : ℤ

-- The three forms, each an `if` of its own in the source.
unfoldable pub span_of : ℤ → ℤ → ℤ → Span → Span
span_of from to size s =
    let open_ended =
      if nonneg from && eq_ℤ to minus_one
      then record { offset = from; count = size -ℤ from }
      else s in
    let closed =
      if nonneg from && nonneg to
      then record { offset = from; count = abs (to_int (to -ℤ from)) +ℤ pos 1 }
      else open_ended in
    if eq_ℤ from minus_one && ltb_ℤ (pos 0) to
    then record { offset = size -ℤ to; count = to }
    else closed

-- mk_http_range_set: the returned value and the request afterwards. The offset of the file itself,
-- which lseek sets, is `bytes_offset`.
unfoldable pub range_set : ServerConfig → SessionRequest → ℤ → ℤ × SessionRequest
range_set config sr size =
    let whole : Span = record { offset = pos 0; count = size } in
    if config.resume && given sr.range
    then (let s : Span = span_of sr.headers.range_from sr.headers.range_to size whole in
        let sr' = record sr { bytes_offset = s.offset; bytes_to_send = s.count } in
        if ltb_ℤ size s.offset || ltb_ℤ size s.count then (minus_one, sr') else (pos 0, sr'))
    else (pos 0, record sr { bytes_to_send = size; bytes_offset = pos 0 })
