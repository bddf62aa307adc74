-- ===== src/Response/Length.antt =====
-- The Content-Length header of mk_header_send: its number goes through an int.
use monkey.Prelude.{
  ℕ, ◌%◌, ◌^◌, ◌<◌, ◌≤◌, ◌≡◌, ◌↔◌, sym, ◌∙◌, List, some, arith, pos, pos_part, neg_part,
}
use monkey.Libc.{Bytes, codes}
use monkey.Libc.Numbers.{strtol, to_int, of_word}
use monkey.Text.{string_itop}
use monkey.Text.Decimal.{strtol-string_itop}
use monkey.Types.{ResponseHeaders}
use monkey.Response.{add_content_length, add_entry}

of_word-bounds :
    (w : ℕ) → w < 2 ^ 32 → (pos_part (of_word w) < 2 ^ 31) × (neg_part (of_word w) ≤ 2 ^ 31)
of_word-bounds w h = (ground arith, ground arith)

to_int-bounds :
    (n : ℕ) → (pos_part (to_int (pos n)) < 2 ^ 31) × (neg_part (to_int (pos n)) ≤ 2 ^ 31)
unfolding to_int
to_int-bounds n = of_word-bounds (n % 2 ^ 32) (omega arith)

to_int_iff : (n : ℕ) → (to_int (pos n) ≡ pos n) ↔ (n < 2 ^ 31)
unfolding to_int
to_int_iff n = (λ e. ground arith, λ h. ground arith)

-- A response with a content of `n` bytes has a Content-Length header, and the number in it is read back
-- as `n` exactly when `n` is below 2^31: mk_string_itop takes an int.
pub content_length_iff :
    (sh : ResponseHeaders) (n : ℕ) (io : List Bytes)
    → sh.content_length ≡ pos n
    → (add_content_length sh (some io)
        ≡ add_entry (codes "Content-Length: ") (string_itop (to_int (pos n))) (some io))
      × ((strtol (string_itop (to_int (pos n))) ≡ pos n) ↔ (n < 2 ^ 31))
unfolding add_content_length
content_length_iff sh n io e =
    let (a, b) = to_int-bounds n in
    let read = strtol-string_itop (to_int (pos n)) a b in
    let (f, g) = to_int_iff n in (ground arith, (λ q. f (sym read ∙ q), λ h. read ∙ g h))
