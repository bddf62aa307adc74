-- ===== src/Text/Trim.antt =====
-- mk_string_trim of src/mk_string.c against the text without its outer spaces.
use monkey.Prelude.{
  ℕ, zero, suc, ◌+◌, ◌-◌, ◌<◌, ◌≤◌, ◌≡◌, ◌⊎◌, inl, inr, true, false, Option, some, [], ◌∷◌, length,
  drop, take, get_or, arith, ◌==◌, ltb, ℤ, pos, minus_one, Bool-cases,
}
use monkey.Libc.{Bytes, cstr, isspace}
use monkey.Text.{trim_left, trim_right, string_trim}

-- `left` and `right` are the first and the last position of a byte that is no space.
pub record Ends (buf : Bytes) (left right : ℕ) : Type 0 where
  pub le : left ≤ right
  pub below : right < length buf
  pub first : isspace (get_or buf left 0) ≡ false
  pub last : isspace (get_or buf right 0) ≡ false
  pub before : (j : ℕ) → j < left → isspace (get_or buf j 0) ≡ true
  pub after : (j : ℕ) → right < j → j < length buf → isspace (get_or buf j 0) ≡ true

trim_left-le : (s : Bytes) → trim_left s ≤ length s
unfolding trim_left
trim_left-le [] = omega arith
trim_left-le (c ∷ s) = ground (arith, trim_left-le s)

trim_left_before : (s : Bytes) (j : ℕ) → j < trim_left s → isspace (get_or s j 0) ≡ true
unfolding trim_left
trim_left_before [] j h = elim h [ ]
trim_left_before (c ∷ s) zero h = ground arith
trim_left_before (c ∷ s) (suc j) h = trim_left_before s j (ground arith)

trim_left_first : (s : Bytes) → trim_left s < length s → isspace (get_or s (trim_left s) 0) ≡ false
unfolding trim_left
trim_left_first [] h = elim h [ ]
trim_left_first (c ∷ s) h = elim (Bool-cases (isspace c)) [
  | inl e ↦ rw e (trim_left_first s (ground arith))
  | inr e ↦ rw e e
]

-- The walk from the right stops at a byte that is no space, if there is one on its way.
trim_right_last :
    (buf : Bytes) (l r : ℕ)
    → l ≤ r
    → isspace (get_or buf l 0) ≡ false
    → (l ≤ trim_right buf r)
      × (trim_right buf r ≤ r)
      × (isspace (get_or buf (trim_right buf r) 0) ≡ false)
unfolding trim_right
trim_right_last buf zero zero h e = (omega arith, omega arith, e)
trim_right_last buf (suc l) zero h e = elim h [ ]
trim_right_last buf l (suc r) h e = elim (Bool-cases (isspace (get_or buf (suc r) 0))) [
  | inl b ↦ rw b (widen (trim_right_last buf l r (smaller b) e))
  | inr b ↦ rw b (h, omega arith, b)
]
  where
    smaller : isspace (get_or buf (suc r) 0) ≡ true → l ≤ r
    smaller b = elim (eq_or_le) [ inl q ↦ absurd (ground (arith, rw q at e)) | inr q ↦ q ]
      where
        eq_or_le : (l ≡ suc r) ⊎ (l ≤ r)
        eq_or_le = ground arith

    widen :
        {q : ℕ}
        → (l ≤ q) × (q ≤ r) × (isspace (get_or buf q 0) ≡ false)
        → (l ≤ q) × (q ≤ suc r) × (isspace (get_or buf q 0) ≡ false)
    widen (a, b, c) = (a, omega arith, c)

trim_right_after :
    (buf : Bytes) (r j : ℕ) → trim_right buf r < j → j ≤ r → isspace (get_or buf j 0) ≡ true
unfolding trim_right
trim_right_after buf zero j h k = absurd (omega arith)
trim_right_after buf (suc r) j h k = elim (Bool-cases (isspace (get_or buf (suc r) 0))) [
  | inl b ↦ elim at_end [ inl e ↦ rw e b | inr lt ↦ trim_right_after buf r j (ground arith) lt ]
  | inr b ↦ absurd (ground arith)
]
  where
    at_end : (j ≡ suc r) ⊎ (j ≤ r)
    at_end = ground arith

-- What mk_string_trim leaves in the buffer that held `buf`, and what it returns.
pub data Trimmed (buf : Bytes) : Option Bytes × ℤ → Type 0 where
  empty : length buf ≡ 0 → Trimmed buf (some [], pos 0)
  blank :
      0 < length buf
      → ((j : ℕ) → j < length buf → isspace (get_or buf j 0) ≡ true)
      → Trimmed buf (some [], minus_one)
  inner :
      (left right : ℕ)
      → Ends buf left right
      → Trimmed buf (some (take (right - left + 1) (drop left buf)), pos 0)

trim_Ends :
    (buf : Bytes)
    → trim_left buf < length buf
    → Ends buf (trim_left buf) (trim_right buf (length buf - 1))
trim_Ends buf h =
    let first = trim_left_first buf h in
    let (le, bound, last) =
      trim_right_last buf (trim_left buf) (length buf - 1) (omega arith) first in
    record {
      le = le;
      below = omega arith;
      first = first;
      last = last;
      before = trim_left_before buf;
      after = λ j lo hi. trim_right_after buf (length buf - 1) j lo (omega arith);
    }

-- mk_string_trim keeps the bytes from the first to the last that is no space and returns 0. It
-- leaves an empty text and returns 0 on an empty one, -1 on one of spaces alone.
pub string_trim-Trimmed : (s : Bytes) → Trimmed (cstr s) (string_trim (some s))
unfolding string_trim
string_trim-Trimmed s = elim (Bool-cases (length (cstr s) == 0)) [
  | inl e ↦ rw e (empty (ground arith))
  | inr e ↦ elim (Bool-cases (ltb (length (cstr s) - 1) (trim_left (cstr s)))) [
    | inl b ↦
        rw (e, b)
          (blank (ground arith)
            (λ j h. trim_left_before (cstr s) j (ground (arith, trim_left-le (cstr s)))))
    | inr b ↦
        rw (e, b)
          (inner (trim_left (cstr s)) (trim_right (cstr s) (length (cstr s) - 1))
            (trim_Ends (cstr s) (ground arith)))
  ]
]
