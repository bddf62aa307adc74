-- ===== src/Tests/Strings.antt =====
-- Tests of Text, Url and Toc: src/mk_string.c, src/mk_utils.c and the header table of src/mk_request.c.
use monkey.Prelude.{
  ℕ, ◌+◌, ◌<◌, ◌≤◌, ◌≡◌, refl, Bool, false, ◌&&◌, none, some, [], ◌∷◌, ◌++◌, length, map, All,
  arith, leb, if◌then◌else◌,
}
use monkey.Libc.{Bytes, codes, cstr, memchr}
use monkey.Text.{char_search, split_line}
use monkey.Text.Split.{words, line_of, IsWord, split_line-words}
use monkey.Url.{url_decode, decode_size, decode_loop, hex2int, hex_loop, hex_digit, strncpy}
use monkey.Url.Bounds.{url_decode_bounds}
use monkey.Url.RoundTrip.{encode, all_kept, Plain, url_decode-encode}
use monkey.Types.{Row}
use monkey.Toc.{toc_parse, toc_len, header_get}
use monkey.Toc.Lines.{Lines, toc_parse-Lines}
use monkey.Toc.Get.{Got, header_get-Got}

abbrev header_text : Bytes
header_text = codes "Host: a" ++ (13 ∷ 10 ∷ codes "Range:") ++ (13 ∷ 10 ∷ 13 ∷ 10 ∷ [])

split_line-words_example :
    (split_line (codes " a bc") ≡ map line_of (words (codes " a bc")))
    × All IsWord (words (codes " a bc"))
unfolding cstr
split_line-words_example = split_line-words (codes " a bc")

decoded : url_decode (codes "/a%20b") 6 ≡ some (codes "/a b")
unfolding url_decode decode_loop hex2int hex_loop hex_digit strncpy char_search memchr cstr
decoded = refl

decoded_short : url_decode (codes "/a%") 3 ≡ some (codes "/a%")
unfolding url_decode decode_loop hex2int hex_loop hex_digit strncpy char_search memchr cstr
decoded_short = refl

url_decode_bounds_example : (2 + 2 < 6 → 4 + 2 ≤ decode_size 6) × (6 ≤ 2 + 2 → 4 ≡ decode_size 6)
url_decode_bounds_example =
    url_decode_bounds (codes "/a%20b") 6 (omega arith) 2 {out = codes "/a b"}
      (unfold memchr in refl) decoded

decode_short_example : (2 + 2 < 3 → 3 + 2 ≤ decode_size 3) × (3 ≤ 2 + 2 → 3 ≡ decode_size 3)
decode_short_example =
    url_decode_bounds (codes "/a%") 3 (omega arith) 2 {out = codes "/a%"} (unfold memchr in refl)
      decoded_short

abbrev letters : ℕ → Bool
letters c = leb 97 c && leb c 122

letters-Plain : Plain letters
letters-Plain c e = ground arith

url_decode-encode_example :
    url_decode
      (encode letters (codes "a b") ++ codes " HTTP")
      (length (encode letters (codes "a b")))
    ≡ (if all_kept letters (codes "a b") then none else some (codes "a b"))
url_decode-encode_example =
    url_decode-encode letters letters-Plain (codes "a b") (codes " HTTP")
      (omega arith, (omega arith, (omega arith, tt)))

toc_parse-Lines_example : Lines header_text 17 toc_len 0 none (toc_parse header_text 17).rows
toc_parse-Lines_example = toc_parse-Lines header_text 17

header_get-Got_example :
    let result = header_get (toc_parse header_text 17) (codes "host:") 5 in
    Got header_text (codes "host:") 5 (toc_parse header_text 17).rows (result.0, result.1.rows)
    × (result.1.base ≡ header_text)
unfolding toc_parse
header_get-Got_example = header_get-Got (toc_parse header_text 17) (codes "host:") 5

abbrev range_row : Row
range_row = record { init = 9; end = 15; found = false }
