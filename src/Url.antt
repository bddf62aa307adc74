-- ===== src/Url.antt =====
-- src/mk_utils.c: mk_utils_hex2int, mk_utils_url_decode and mk_buffer_cat.
pub mod Bounds
pub mod RoundTrip
use mathlib.Core.Option
use monkey.Prelude.{
  ℕ, zero, suc, ◌+◌, ◌-◌, ◌*◌, ◌%◌, Bool, true, false, ◌&&◌, Option, none, some, List, [], ◌∷◌,
  ◌++◌, length, take, drop, replicate, leb, ltb, ◌==◌, if◌then◌else◌, ℤ, pos, negsuc, minus_one,
  ltb_ℤ, pos_part,
}
use monkey.Libc.{Bytes, cstr, in_range}
use monkey.Text.{char_search}

-- What one character adds to `res`.
unfoldable pub hex_digit : ℕ → Option ℕ
hex_digit c =
    if in_range b'a' b'f' c
    then some (c - 0x57)
    else if in_range b'A' b'F' c
    then some (c - 0x37)
    else if in_range b'0' b'9' c
    then some (c - 0x30)
    else none

-- The loop of mk_utils_hex2int, with `n` for `len - i`. The callers pass a length of 2, for which
-- `res` is far from the end of an int.
unfoldable pub hex_loop : Bytes → ℕ → ℕ → ℤ
hex_loop [] n res = pos res
hex_loop (c ∷ s) zero res = pos res
hex_loop (c ∷ s) (suc n) res =
    if c == 0
    then pos res
    else elim (hex_digit c) [ none ↦ minus_one | some d ↦ hex_loop s n (res * 0x10 + d) ]

unfoldable pub hex2int : Bytes → ℕ → ℤ
hex2int hex len = hex_loop hex len 0

abbrev pub consing : ℕ → Option Bytes → Option Bytes
consing c = Option.map (λ out. c ∷ out)

-- `while (i < uri.len)` on the bytes of the URI from `i` on: what it stores from `buf[buf_idx]` on.
-- An escape wants `i + 2 < uri.len`, two more bytes behind the sign. The result of mk_utils_hex2int
-- is stored in a char.
unfoldable pub decode_loop : Bytes → Option Bytes
decode_loop [] = some []
decode_loop (c ∷ []) = some (c ∷ [])
decode_loop (c ∷ d ∷ []) = some (c ∷ d ∷ [])
decode_loop (c ∷ h ∷ l ∷ s) = elim (c == b'%') [
  | false ↦ consing c (decode_loop (h ∷ l ∷ s))
  | true ↦ elim (hex2int (h ∷ l ∷ []) 2) [
    | negsuc _ ↦ none
    | pos v ↦ consing (v % 256) (decode_loop s)
  ]
]

-- strncpy into a buffer of `n` bytes: it stops at a NUL and fills up with NULs.
unfoldable pub strncpy : Bytes → ℕ → Bytes
strncpy s n = let copied = cstr (take n s) in copied ++ replicate (n - length copied) 0

-- mk_utils_url_decode on `len` bytes of a buffer: the bytes `buf[0]`, …, `buf[buf_idx - 1]`, behind
-- which a NUL is stored, or NULL.
unfoldable pub url_decode : Bytes → ℕ → Option Bytes
url_decode uri len =
    let i = char_search uri b'%' (pos len) in
    if ltb_ℤ i (pos 0)
    then none
    else Option.map (λ out. strncpy uri (pos_part i) ++ out)
        (decode_loop (drop (pos_part i) (take len uri)))

-- The size of `buf`.
unfoldable pub decode_size : ℕ → ℕ
decode_size len = len

-- mk_buffer_cat: the new buffer without its NUL, or -1 on a negative length.
unfoldable pub buffer_cat : Bytes → ℤ → Bytes → ℤ → Option Bytes
buffer_cat buf1 len1 buf2 len2 =
    if ltb_ℤ len1 (pos 0)
    then none
    else if ltb_ℤ len2 (pos 0)
    then none
    else some (take (pos_part len1) buf1 ++ take (pos_part len2) buf2)
