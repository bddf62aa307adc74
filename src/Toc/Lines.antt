-- ===== src/Toc/Lines.antt =====
-- The table of contents of mk_request_header_toc_parse of src/mk_request.c, as lines of its buffer.
use monkey.Prelude.{
  ℕ, zero, suc, ◌+◌, ◌-◌, ◌<◌, ◌≤◌, ◌≡◌, refl, sym, ap, ◌∙◌, inl, inr, Bool, true, false, Option,
  none, some, List, [], ◌∷◌, drop, arith, All, take, ◌≢◌, drop-drop, Bool-cases, Option-cases,
}
use monkey.Libc.{Bytes, starts_by, strstr}
use monkey.Libc.Find.{find_by-starts, find_by-first, find_by-none}
use monkey.Types.{Row, crlf}
use monkey.Toc.{before_end, toc_loop, toc_len, toc_parse}

-- A line break stands at this position.
abbrev pub break_at : Bytes → ℕ → Bool
break_at text p = starts_by (λ c. c) crlf (drop p text)

-- The rows are the lines of the text from position `p` on, `n` at most, where the line before ends at `l`:
-- each ends at its first line break. They are all lines up to the first of three ends: `n` rows are
-- there, the line before ends at `len` or behind, or no line break is left in the string.
pub data Lines (text : Bytes) (len : ℕ) : ℕ → ℕ → Option ℕ → List Row → Type 0 where
  full : {p : ℕ} {l : Option ℕ} → Lines text len zero p l []
  at_end : {n p : ℕ} {l : Option ℕ} (e : ℕ) → l ≡ some e → len ≤ e → Lines text len n p l []
  no_break :
      {n p : ℕ} {l : Option ℕ}
      → ((j : ℕ) → All (λ c. c ≢ 0) (take j (drop p text)) → break_at text (p + j) ≡ false)
      → Lines text len n p l []
  line :
      {n p : ℕ} {l : Option ℕ} {rows : List Row} (r : Row)
      → ((e : ℕ) → l ≡ some e → e < len)
      → r.init ≡ p
      → r.init ≤ r.end
      → r.found ≡ false
      → break_at text r.end ≡ true
      → ((j : ℕ) → r.init ≤ j → j < r.end → break_at text j ≡ false)
      → Lines text len n (r.end + 2) (some r.end) rows
      → Lines text len (suc n) p l (r ∷ rows)

-- What the test of the loop says.
passed_end :
    (l : Option ℕ) (len : ℕ) → before_end l len ≡ false → (e : ℕ) × (l ≡ some e) × (len ≤ e)
passed_end none len h = absurd (ground arith)
passed_end (some e) len h = (e, refl, ground arith)

within : (l : Option ℕ) (len : ℕ) → before_end l len ≡ true → (e : ℕ) → l ≡ some e → e < len
within none len h e q = absurd (ground arith)
within (some d) len h e q = ground arith

break_at-add :
    (text : Bytes) (p k : ℕ)
    → starts_by (λ c. c) crlf (drop k (drop p text)) ≡ break_at text (p + k)
break_at-add text p k = ap (starts_by (λ c. c) crlf) (drop-drop k p (p + k) text (omega arith))

toc_loop-Lines :
    (n : ℕ) (text : Bytes) (len p : ℕ) (l : Option ℕ)
    → Lines text len n p l (toc_loop n text len p l)
unfolding toc_loop
toc_loop-Lines zero text len p l = full
toc_loop-Lines (suc n) text len p l = elim (Bool-cases (before_end l len)) [
  | inr e ↦ let (end, q, h) = passed_end l len e in rw (e, toc_loop) (at_end end q h)
  | inl e ↦ elim (Option-cases (strstr (drop p text) crlf)) [
    | inl m ↦
        rw (e, m, toc_loop)
          (no_break (λ j h. sym (break_at-add text p j) ∙ find_by-none _ crlf (drop p text) j m h))
    | inr (k, m) ↦
        rw (e, m, toc_loop)
          (line _ (within l len e) refl (omega arith) refl
            (sym (break_at-add text p k) ∙ find_by-starts _ crlf (drop p text) k m)
            (λ j lo hi. unbroken k m j lo hi)
            (toc_loop-Lines n text len (p + k + 2) (some (p + k))))
  ]
]
  where
    unbroken :
        (k : ℕ)
        → strstr (drop p text) crlf ≡ some k
        → (j : ℕ) → p ≤ j
        → j < p + k
        → break_at text j ≡ false
    unbroken k m j lo hi =
        let e : p + (j - p) ≡ j = omega arith in
        rw e at (
          sym (break_at-add text p (j - p))
          ∙ find_by-first _ crlf (drop p text) k (j - p) m (omega arith))

-- The table of contents of any text holds the text's lines from its start on, each up to its line break and
-- not marked as found: all of them until there are MK_HEADERS_TOC_LEN rows, or until one ends at the given
-- length or behind it, or until no line break is left.
pub toc_parse-Lines :
    (text : Bytes) (len : ℕ) → Lines text len toc_len 0 none (toc_parse text len).rows
unfolding toc_parse
toc_parse-Lines text len = toc_loop-Lines toc_len text len 0 none
