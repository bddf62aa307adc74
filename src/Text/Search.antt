-- ===== src/Text/Search.antt =====
-- The searches of src/mk_string.c against the library functions that they stand for.

use monkey.Prelude.{
  ℕ, zero, suc, ◌≡◌, refl, inl, inr, Option, none, some, [], ◌∷◌, arith, ltb, if◌then◌else◌,
  Option-cases, ℤ, pos, negsuc, position, ltb_ℤ, leb_ℤ, pos_part,
}
use monkey.Libc.{Bytes, strlen, memchr, memrchr, find_by, toupper, tolower}
use monkey.Libc.Find.{
  Absent, IsFirst, IsLast, memchr-IsFirst, memchr-Absent, memrchr-IsLast, memrchr-Absent,
  starts_by-cases,
}
use monkey.Text.{
  Case, sensitive, insensitive, fold, search_loop, fast_search, string_search_n, string_search,
  char_search, char_search_r,
}

-- A position below `n`.
abbrev pub below : ℕ → Option ℕ → Option ℕ
below n none = none
below n (some i) = if ltb i n then some i else none

search_loop-find_by :
    (f : ℕ → ℕ) (needle s : Bytes) (n : ℕ) → search_loop f needle s n ≡ below n (find_by f needle s)
unfolding search_loop find_by
search_loop-find_by f needle [] zero = ground arith
search_loop-find_by f needle (x ∷ s) zero = ground arith
search_loop-find_by f needle [] (suc n) = ground arith
search_loop-find_by f needle (x ∷ s) (suc n) = ground (arith, search_loop-find_by f needle s n)

find_by-cases : (needle s : Bytes) → find_by toupper needle s ≡ find_by tolower needle s
unfolding find_by
find_by-cases needle [] = rw (starts_by-cases needle [])
find_by-cases needle (x ∷ s) = rw (starts_by-cases needle (x ∷ s), find_by-cases needle s)

fast_search-find_by :
    (c : Case) (needle s : Bytes) → fast_search c s needle ≡ find_by (fold c) needle s
fast_search-find_by sensitive needle s = refl
fast_search-find_by insensitive needle s = rw (find_by-cases needle s)

-- The hand-written loop of mk_string_search_n with a length of `suc n` finds what mk_string_search
-- finds by strstr or strcasestr, if that lies below the length, and returns -1 otherwise.
pub string_search_n-below :
    (s needle : Bytes) (c : Case) (n : ℕ)
    → (string_search_n s needle c (pos (suc n)) ≡ position (below (suc n) (fast_search c s needle)))
      × (string_search s needle c ≡ position (fast_search c s needle))
unfolding string_search_n string_search
string_search_n-below s needle c n = (
  ground (arith, fast_search-find_by c needle s, search_loop-find_by (fold c) needle s (suc n)),
  refl,
)

-- What a search for a character by length `n` promises of its result.
abbrev pub Finds : (ℕ → Type 0) → Type 0 → ℤ → Type 0
Finds Here Nowhere (pos i) = Here i
Finds Here Nowhere (negsuc k) = (k ≡ 0) × Nowhere

-- mk_string_char_search returns the first position of the character below the length (below
-- the string's end for a negative length), or -1 if there is none, and mk_string_char_search_r the
-- last (below the string's end for a length that is not positive).
pub char_search-Finds :
    (s : Bytes) (c : ℕ) (len : ℤ)
    → let n = (if ltb_ℤ len (pos 0) then strlen s else pos_part len) in
      let m = (if leb_ℤ len (pos 0) then strlen s else pos_part len) in
      Finds (λ i. IsFirst s c n i) (Absent s c n) (char_search s c len)
      × Finds (λ i. IsLast s c m i) (Absent s c m) (char_search_r s c len)
unfolding char_search char_search_r
char_search-Finds s c len = (first _, last _)
  where
    first : (n : ℕ) → Finds (λ i. IsFirst s c n i) (Absent s c n) (position (memchr s c n))
    first n = elim (Option-cases (memchr s c n)) [
      | inl e ↦ rw e (refl, memchr-Absent s c n e)
      | inr (i, e) ↦ rw e (memchr-IsFirst s c n i e)
    ]

    last : (n : ℕ) → Finds (λ i. IsLast s c n i) (Absent s c n) (position (memrchr s c n))
    last n = elim (Option-cases (memrchr s c n)) [
      | inl e ↦ rw e (refl, memrchr-Absent s c n e)
      | inr (i, e) ↦ rw e (memrchr-IsLast s c n i e)
    ]

pub char_search_pos : (s : Bytes) (c n : ℕ) → char_search s c (pos n) ≡ position (memchr s c n)
unfolding char_search
char_search_pos s c n = ground arith
