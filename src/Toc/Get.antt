-- ===== src/Toc/Get.antt =====
-- The lookup of mk_request_header_get of src/mk_request.c in a table of contents.
use monkey.Prelude.{
  ℕ, ◌+◌, ◌-◌, ◌^◌, ◌<◌, ◌≡◌, refl, ap, inl, inr, Bool, true, false, ◌&&◌, not, List, [], ◌∷◌, ◌++◌,
  All, arith, Bool-cases,
}
use monkey.Libc.{Bytes}
use monkey.Types.{Pointer, Row, Toc, null}
use monkey.Toc.{row_value, row_matches, get_loop, header_get}

-- A row that a look-up takes: not marked yet, and with the key at its start.
abbrev pub takes : Bytes → Bytes → ℕ → Row → Bool
takes base key key_len r = not r.found && row_matches base key key_len r

-- The result of a look-up in `rows`.
pub data Got (base key : Bytes) (key_len : ℕ) (rows : List Row) : Pointer × List Row → Type 0 where
  missing :
      All (λ r. takes base key key_len r ≡ false) rows → Got base key key_len rows (null, rows)
  here :
      (before after : List Row) (r : Row)
      → rows ≡ before ++ (r ∷ after)
      → All (λ r. takes base key key_len r ≡ false) before
      → takes base key key_len r ≡ true
      → Got base key key_len rows
          (row_value base key_len r, before ++ (record r { found = true } ∷ after))

Got-cons :
    {base key : Bytes} {key_len : ℕ} {rows : List Row} {res : Pointer × List Row} (r : Row)
    → takes base key key_len r ≡ false
    → Got base key key_len rows res
    → Got base key key_len (r ∷ rows) (res.0, r ∷ res.1)
Got-cons r e (missing h) = missing (e, h)
Got-cons r e (here before after q s h t) = here (r ∷ before) after q (ap (◌∷◌ r) s) (e, h) t

module _ (base key : Bytes) (key_len : ℕ) where
  get_loop_skip :
      (r : Row) (rows : List Row)
      → takes base key key_len r ≡ false
      → get_loop base key key_len (r ∷ rows)
        ≡ ((get_loop base key key_len rows).0, r ∷ (get_loop base key key_len rows).1)
  unfolding get_loop
  get_loop_skip r rows e = ground arith

  get_loop_take :
      (r : Row) (rows : List Row)
      → takes base key key_len r ≡ true
      → get_loop base key key_len (r ∷ rows)
        ≡ (row_value base key_len r, record r { found = true } ∷ rows)
  unfolding get_loop
  get_loop_take r rows e = ground arith

  get_loop-Got : (rows : List Row) → Got base key key_len rows (get_loop base key key_len rows)
  get_loop-Got [] = unfold get_loop in missing tt
  get_loop-Got (r ∷ rows) = elim (Bool-cases (takes base key key_len r)) [
    | inl e ↦ rw (get_loop_take r rows e) (here [] rows r refl tt e)
    | inr e ↦ rw (get_loop_skip r rows e) (Got-cons r e (get_loop-Got rows))
  ]

-- mk_request_header_get finds the first row that is not marked and starts with the key, in upper or
-- lower case. It returns that row's value, marks that row and no other, and returns NULL with the
-- rows unchanged if there is none.
pub header_get-Got :
    (toc : Toc) (key : Bytes) (key_len : ℕ)
    → let result = header_get toc key key_len in
      (Got toc.base key key_len toc.rows (result.0, result.1.rows)) × (result.1.base ≡ toc.base)
unfolding header_get
header_get-Got toc key key_len = (get_loop-Got toc.base key key_len toc.rows, refl)

-- The value of a row that ends below 2^64 has the length of what stands a byte behind the key, if
-- anything stands behind the key. If the row ends with its key, as `Host:` directly before the line
-- break, the length has wrapped round to 2^64 - 1.
pub row_value_len :
    (base : Bytes) (key_len : ℕ) (r : Row)
    → r.end < 2 ^ 64
    → (r.init + key_len < r.end → r.init + key_len + 1 + (row_value base key_len r).len ≡ r.end)
      × (r.end ≡ r.init + key_len → (row_value base key_len r).len ≡ 2 ^ 64 - 1)
unfolding row_value
row_value_len base key_len r h = (λ lt. omega arith, λ e. omega arith)
