-- ===== src/Http/Spans.antt =====
-- The byte ranges of Range as spans of a file.
use monkey.Prelude.{
  ℕ, ◌+◌, ◌-◌, ◌^◌, ◌<◌, ◌≤◌, ◌≡◌, ap₂, ◌∙◌, inl, inr, Bool, true, ◌&&◌, ◌||◌, not, arith, leb,
  if◌then◌else◌, ℤ, pos, minus_one, ltb_ℤ, ◌+ℤ◌, ◌-ℤ◌, Bool-cases,
}
use monkey.Libc.Numbers.{to_int}
use monkey.Types.{SessionRequest, ServerConfig}
use monkey.Http.Range.{Span, span_of, range_set, given}

-- The three forms of a byte range: from a position to the end, the last bytes, and from a
-- position up to and with another.
pub data Form : Type 0 where
  from : ℕ → Form
  last : ℕ → Form
  between : ℕ → ℕ → Form

abbrev pub from_of : Form → ℤ
from_of (from a) = pos a
from_of (last k) = minus_one
from_of (between a b) = pos a

abbrev pub to_of : Form → ℤ
to_of (from a) = minus_one
to_of (last k) = pos k
to_of (between a b) = pos b

-- What mk_http_range_parse lets through, in the range of an int.
abbrev pub IsForm : Form → Type 0
IsForm (from a) = Unit {0}
IsForm (last k) = 0 < k
IsForm (between a b) = (a ≤ b) × (b < 2 ^ 31)

-- The span that the form asks for in a file of `n` bytes that it fits.
abbrev pub span : Form → ℕ → Span
span (from a) n = record { offset = pos a; count = pos n -ℤ pos a }
span (last k) n = record { offset = pos n -ℤ pos k; count = pos k }
span (between a b) n = record { offset = pos a; count = pos (b - a + 1) }

abbrev pub accepted : Form → ℕ → Bool
accepted (from a) n = leb a n
accepted (last k) n = leb k n
accepted (between a b) n = leb a n && leb (b - a + 1) n

to_int_small : (n : ℕ) → n < 2 ^ 31 → to_int (pos n) ≡ pos n
unfolding to_int
to_int_small n h = ground arith

difference : (a b : ℕ) → a ≤ b → pos b -ℤ pos a ≡ pos (b - a)
unfolding ◌-ℤ◌
difference a b h = ground arith

plus_one : (n : ℕ) → pos n +ℤ pos 1 ≡ pos (n + 1)
unfolding ◌+ℤ◌
plus_one n = ground arith

span_of-span :
    (f : Form) (n : ℕ) (s : Span) → IsForm f → span_of (from_of f) (to_of f) (pos n) s ≡ span f n
unfolding span_of
span_of-span (from a) n s h = ground arith
span_of-span (last k) n s h = ground arith
span_of-span (between a b) n s h =
    let e : to_int (pos b -ℤ pos a) ≡ pos (b - a) =
      rw (difference a b h.0) (to_int_small (b - a) (omega (arith, h.1))) in
    rw e (ground (arith, plus_one (b - a), h.0))

accepts :
    (f : Form) (n : ℕ)
    → IsForm f
    → (ltb_ℤ (pos n) (span f n).offset || ltb_ℤ (pos n) (span f n).count) ≡ not (accepted f n)
unfolding ◌-ℤ◌
accepts (from a) n h = ground arith
accepts (last k) n h = ground arith
accepts (between a b) n h = ground arith

-- Where an accepted range ends: with the file, or behind its last position.
abbrev pub stop_of : Form → ℕ → ℕ
stop_of (from a) n = n
stop_of (last k) n = n
stop_of (between a b) n = b + 1

span_end :
    (f : Form) (n : ℕ)
    → IsForm f
    → accepted f n ≡ true
    → (span f n).offset +ℤ (span f n).count ≡ pos (stop_of f n)
unfolding ◌+ℤ◌ ◌-ℤ◌
span_end (from a) n h e = ground arith
span_end (last k) n h e = ground arith
span_end (between a b) n h e = ground (arith, h.0)

module _ (config : ServerConfig) (sr : SessionRequest) (f : Form) (n : ℕ)
    (resume : config.resume ≡ true) (range_given : given sr.range ≡ true) (form : IsForm f)
    (from_is : sr.headers.range_from ≡ from_of f) (to_is : sr.headers.range_to ≡ to_of f) where
  -- With ranges enabled, a `Range` header in the request, and one of the three forms parsed from it,
  -- mk_http_range_set on a file of `n` bytes sets the offset and the count that the form asks for. It
  -- returns 0 if a start lies in the file or at its end and a count is at most the file's size, and
  -- -1 if not.
  pub range_set-span : range_set config sr (pos n) ≡ (
    (if accepted f n then pos 0 else minus_one),
    record sr { bytes_offset = (span f n).offset; bytes_to_send = (span f n).count },
  )
  unfolding range_set
  range_set-span =
      let whole : Span = record { offset = pos 0; count = pos n } in
      let e : span_of sr.headers.range_from sr.headers.range_to (pos n) whole ≡ span f n =
        ap₂ (λ x y. span_of x y (pos n) whole) from_is to_is ∙ span_of-span f n whole form in
      rw (resume, range_given, e, accepts f n form)
        (elim (Bool-cases (accepted f n)) [ inl a ↦ rw a | inr a ↦ rw a ])

  -- With ranges enabled, a `Range` header in the request, and one of the three forms parsed from it, if
  -- mk_http_range_set returns 0 then a range without a last position
  -- ends with the file. One with both ends behind its last position, also where that is behind the
  -- end of the file: then more bytes are to be sent than the file has.
  pub range_set_end :
      (range_set config sr (pos n)).0 ≡ pos 0
      → let sr' = (range_set config sr (pos n)).1 in
        sr'.bytes_offset +ℤ sr'.bytes_to_send ≡ pos (stop_of f n)
  range_set_end ok = rw range_set-span (span_end f n form fits)
    where
      fits : accepted f n ≡ true
      fits = elim (Bool-cases (accepted f n)) [
        | inl a ↦ a
        | inr a ↦ absurd (ground (arith, range_set-span, a))
      ]
