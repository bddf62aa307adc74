-- ===== src/Libc/Find.antt =====
-- Laws of memchr, memrchr and strstr.
use monkey.Prelude.{
  take, ℕ, zero, suc, ◌<◌, ◌≤◌, ◌≡◌, ◌≢◌, refl, inl, inr, Bool-cases, true, false, none, some, [],
  ◌∷◌, ◌++◌, length, get_elem?, drop, All, arith, ◌==◌,
}
use monkey.Libc.{Bytes, memchr, memrchr, starts_by, find_by, toupper, tolower}

-- No byte below position `n` is `c`.
abbrev pub Absent : Bytes → ℕ → ℕ → Type 0
Absent s c n = (j : ℕ) → j < n → get_elem? s j ≢ some c

-- Position `i` holds the first `c`, below `n`.
pub record IsFirst (s : Bytes) (c n i : ℕ) : Type 0 where
  pub below : i < n
  pub holds : get_elem? s i ≡ some c
  pub before : Absent s c i

Absent-cons :
    (x : ℕ) (s : Bytes) (c n : ℕ) → (x == c) ≡ false → Absent s c n → Absent (x ∷ s) c (suc n)
Absent-cons x s c n ne h zero lt = ground arith
Absent-cons x s c n ne h (suc j) lt = h j (omega arith)

pub memchr-IsFirst : (s : Bytes) (c n i : ℕ) → memchr s c n ≡ some i → IsFirst s c n i
unfolding memchr
memchr-IsFirst s c zero i e = absurd (ground arith)
memchr-IsFirst [] c (suc n) i e = absurd (ground arith)
memchr-IsFirst (x ∷ s) c (suc n) zero e = record {
  below = omega arith;
  holds = ground arith;
  before = λ j lt. elim lt [ ];
}
memchr-IsFirst (x ∷ s) c (suc n) (suc i) e =
    let ih = memchr-IsFirst s c n i (ground arith) in
    record {
      below = omega arith;
      holds = ih.holds;
      before = Absent-cons x s c i (ground arith) ih.before;
    }

pub memchr-Absent : (s : Bytes) (c n : ℕ) → memchr s c n ≡ none → Absent s c n
unfolding memchr
memchr-Absent s c zero e j lt = elim lt [ ]
memchr-Absent [] c (suc n) e j lt = ground arith
memchr-Absent (x ∷ s) c (suc n) e j lt =
    Absent-cons x s c n (ground arith) (memchr-Absent s c n (ground arith)) j lt

-- Position `i` holds the last `c` below `n`.
pub record IsLast (s : Bytes) (c n i : ℕ) : Type 0 where
  pub below : i < n
  pub holds : get_elem? s i ≡ some c
  pub after : (j : ℕ) → i < j → j < n → get_elem? s j ≢ some c

pub memrchr-Absent : (s : Bytes) (c n : ℕ) → memrchr s c n ≡ none → Absent s c n
unfolding memrchr
memrchr-Absent s c zero e j lt = elim lt [ ]
memrchr-Absent [] c (suc n) e j lt = ground arith
memrchr-Absent (x ∷ s) c (suc n) e j lt =
    Absent-cons x s c n (ground arith) (memrchr-Absent s c n (ground arith)) j lt

pub memrchr-IsLast : (s : Bytes) (c n i : ℕ) → memrchr s c n ≡ some i → IsLast s c n i
unfolding memrchr
memrchr-IsLast s c zero i e = absurd (ground arith)
memrchr-IsLast [] c (suc n) i e = absurd (ground arith)
memrchr-IsLast (x ∷ s) c (suc n) zero e =
    let rest = memrchr-Absent s c n (ground arith) in
    record { below = omega arith; holds = ground arith; after = after rest }
  where
    after : Absent s c n → (j : ℕ) → 0 < j → j < suc n → get_elem? (x ∷ s) j ≢ some c
    after rest zero lt _ = elim lt [ ]
    after rest (suc j) _ lt = rest j (omega arith)
memrchr-IsLast (x ∷ s) c (suc n) (suc i) e =
    let ih = memrchr-IsLast s c n i (ground arith) in
    record { below = omega arith; holds = ih.holds; after = after ih }
  where
    after : IsLast s c n i → (j : ℕ) → suc i < j → j < suc n → get_elem? (x ∷ s) j ≢ some c
    after ih zero lt _ = elim lt [ ]
    after ih (suc j) lo lt = ih.after j (omega arith) (omega arith)

-- `toupper` and `tolower` tell the same bytes apart.
pub toupper-eq-tolower : (a b : ℕ) → (toupper a == toupper b) ≡ (tolower a == tolower b)
unfolding toupper tolower
toupper-eq-tolower a b = ground arith

pub starts_by-cases : (needle s : Bytes) → starts_by toupper needle s ≡ starts_by tolower needle s
unfolding starts_by
starts_by-cases [] s = refl
starts_by-cases (y ∷ needle) [] = refl
starts_by-cases (y ∷ needle) (x ∷ s) = rw (toupper-eq-tolower x y, starts_by-cases needle s)

-- What `find_by` returns is a position of the needle, inside the C string of the haystack.
pub find_by-starts :
    (f : ℕ → ℕ) (needle s : Bytes) (i : ℕ)
    → find_by f needle s ≡ some i
    → starts_by f needle (drop i s) ≡ true
unfolding find_by
find_by-starts f needle [] zero e = ground arith
find_by-starts f needle [] (suc i) e = absurd (ground arith)
find_by-starts f needle (x ∷ s) zero e = ground arith
find_by-starts f needle (x ∷ s) (suc i) e = find_by-starts f needle s i (ground arith)

pub memchr-append :
    (s rest : Bytes) (c n : ℕ) → n ≤ length s → memchr (s ++ rest) c n ≡ memchr s c n
unfolding memchr
memchr-append s rest c zero h = elim s as (λ t. memchr (t ++ rest) c 0 ≡ memchr t c 0) [
  | [] ↦ elim rest as (λ t. memchr t c 0 ≡ none) [ [] ↦ refl | x ∷ t ↦ refl ]
  | x ∷ t ↦ refl
]
memchr-append [] rest c (suc n) h = absurd (omega arith)
memchr-append (x ∷ s) rest c (suc n) h = rw (memchr-append s rest c n (omega arith))

-- The needle stands at no earlier position.
pub find_by-first :
    (f : ℕ → ℕ) (needle s : Bytes) (i j : ℕ)
    → find_by f needle s ≡ some i
    → j < i
    → starts_by f needle (drop j s) ≡ false
unfolding find_by
find_by-first f needle [] zero j e h = elim h [ ]
find_by-first f needle [] (suc i) j e h = absurd (ground arith)
find_by-first f needle (x ∷ s) zero j e h = elim h [ ]
find_by-first f needle (x ∷ s) (suc i) zero e h = ground arith
find_by-first f needle (x ∷ s) (suc i) (suc j) e h =
    find_by-first f needle s i j (ground arith) (omega arith)

-- In a text without a NUL a needle that stands somewhere is found, there or before.
pub find_by-found :
    (f : ℕ → ℕ) (needle s : Bytes) (j : ℕ)
    → All (λ c. c ≢ 0) s
    → starts_by f needle (drop j s) ≡ true
    → (k : ℕ) × (find_by f needle s ≡ some k) × (k ≤ j)
unfolding find_by
find_by-found f needle [] zero h e = (0, ground arith, omega arith)
find_by-found f needle [] (suc j) h e = (0, ground arith, omega arith)
find_by-found f needle (x ∷ s) zero h e = (0, ground arith, omega arith)
find_by-found f needle (x ∷ s) (suc j) h e = elim (Bool-cases (starts_by f needle (x ∷ s))) [
  | inl here ↦ (0, rw here refl, omega arith)
  | inr later_on ↦
      let (k, found, le) = find_by-found f needle s j h.1 e in
      (suc k, ground (arith, found, h.0), omega (arith, le))
]

-- A needle that is not found stands nowhere in the C string.
pub find_by-none :
    (f : ℕ → ℕ) (needle s : Bytes) (j : ℕ)
    → find_by f needle s ≡ none
    → All (λ c. c ≢ 0) (take j s)
    → starts_by f needle (drop j s) ≡ false
unfolding find_by
find_by-none f needle [] zero e h = ground arith
find_by-none f needle [] (suc j) e h = ground arith
find_by-none f needle (x ∷ s) zero e h = ground arith
find_by-none f needle (x ∷ s) (suc j) e h = find_by-none f needle s j (ground (arith, h.0)) h.1
