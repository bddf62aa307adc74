-- ===== src/Date/Cache.antt =====
-- The cache of formatted dates in src/mk_utils.c: the dates are the same with it as without.
use monkey.Prelude.{
  ℕ, zero, suc, ◌≡◌, ◌≢◌, refl, sym, ap, subst, ◌∙◌, ◌⊎◌, inl, inr, true, Option, none, some, List,
  [], ◌∷◌, length, All, arith, if◌then◌else◌, ℤ, pos, minus_one, eq_ℤ, Bool-cases, Option-cases,
}
use monkey.Libc.{Bytes}
use monkey.Date.{
  Tm, GmtCache, format, cache_get, least_hits, set_slot, cache_add, compose, utime2gmt,
}

-- An entry is unused, with the date 0, or has the text of its date.
abbrev pub IsEntry : (ℤ → Option Tm) → GmtCache → Type 0
IsEntry gmtime c = (c.time ≡ pos 0) ⊎ ((tm : Tm) × (gmtime c.time ≡ some tm) × (c.text ≡ format tm))

-- The text of a date, without a cache.
abbrev pub text_of : Option Tm → Option Bytes
text_of none = none
text_of (some tm) = some (format tm)

eq_ℤ-eq : (a b : ℤ) → eq_ℤ a b ≡ true → a ≡ b
eq_ℤ-eq a b e = ground arith

set_slot-All :
    (P : GmtCache → Type 0) (n : ℕ) (entry : GmtCache) (cache : List GmtCache)
    → P entry
    → All P cache
    → All P (set_slot n entry cache) × (length (set_slot n entry cache) ≡ length cache)
unfolding set_slot
set_slot-All P n entry [] p h = (tt, refl)
set_slot-All P zero entry (c ∷ cache) p h = ((p, h.1), refl)
set_slot-All P (suc n) entry (c ∷ cache) p h =
    let (all, size) = set_slot-All P n entry cache p h.1 in ((h.0, all), ap suc size)

cache_add-All :
    (P : GmtCache → Type 0) (text : Bytes) (date : ℤ) (cache : List GmtCache)
    → P (record { time = date; text = text; hits = 1 })
    → All P cache
    → All P (cache_add text date cache) × (length (cache_add text date cache) ≡ length cache)
unfolding cache_add
cache_add-All P text date [] p h = (tt, refl)
cache_add-All P text date (c ∷ cache) p h =
    set_slot-All P (least_hits 1 0 c.hits cache) (record { time = date; text = text; hits = 1 })
      (c ∷ cache) p h

cache_get-All :
    (gmtime : ℤ → Option Tm) (date : ℤ) (cache : List GmtCache)
    → All (IsEntry gmtime) cache
    → All (IsEntry gmtime) (cache_get date cache).1
      × (length (cache_get date cache).1 ≡ length cache)
unfolding cache_get
cache_get-All gmtime date [] h = (tt, refl)
cache_get-All gmtime date (c ∷ cache) h = elim (Bool-cases (eq_ℤ date c.time)) [
  | inl e ↦ rw (e, cache_get) (h, refl)
  | inr e ↦
      let (all, size) = cache_get-All gmtime date cache h.1 in
      rw (e, cache_get) ((h.0, all), ap suc size)
]

cache_get-text :
    (gmtime : ℤ → Option Tm) (date : ℤ) (cache : List GmtCache) {text : Bytes}
    → date ≢ pos 0
    → All (IsEntry gmtime) cache
    → (cache_get date cache).0 ≡ some text
    → (tm : Tm) × (gmtime date ≡ some tm) × (text ≡ format tm)
unfolding cache_get
cache_get-text gmtime date [] ne h e = absurd (ground arith)
cache_get-text gmtime date (c ∷ cache) {text} ne h e = elim (Bool-cases (eq_ℤ date c.time)) [
  | inr other ↦ cache_get-text gmtime date cache ne h.1 (ground arith)
  | inl same ↦
      let at : date ≡ c.time = eq_ℤ-eq date c.time same in
      let found : text ≡ c.text = ground arith in
      elim h.0 [
        | inl unused ↦ absurd (ne (at ∙ unused))
        | inr (tm, g, t) ↦ (tm, ap gmtime at ∙ g, found ∙ t)
      ]
]

-- The date that is asked for: 0 stands for now.
abbrev pub date_of : Option ℤ → ℤ → Option ℤ
date_of clock date = if eq_ℤ date (pos 0) then clock else some date

-- The returned value and the text, without a cache.
abbrev pub answer : Option Tm → ℤ × Option Bytes
answer none = (minus_one, none)
answer (some tm) = (pos 31, some (format tm))

abbrev pub answer_at : (ℤ → Option Tm) → Option ℤ → ℤ × Option Bytes
answer_at gmtime none = (minus_one, none)
answer_at gmtime (some date) = answer (gmtime date)

pub record Answers (gmtime : ℤ → Option Tm) (date : Option ℤ) (size : ℕ)
    (result : ℤ × Option Bytes × List GmtCache) : Type 0 where
  pub same : (result.0, result.1) ≡ answer_at gmtime date
  pub entries : All (IsEntry gmtime) result.2
  pub same_size : length result.2 ≡ size

compose-Answers :
    (gmtime : ℤ → Option Tm) (date : ℤ) (cache : List GmtCache)
    → All (IsEntry gmtime) cache
    → Answers gmtime (some date) (length cache) (compose gmtime date cache)
unfolding compose
compose-Answers gmtime date cache h = elim (Option-cases (gmtime date)) [
  | inl n ↦ rw (n, compose) (record { same = ap answer (sym n); entries = h; same_size = refl })
  | inr (tm, g) ↦
      let (all, size) =
        cache_add-All (IsEntry gmtime) (format tm) date cache (inr (tm, g, refl)) h in
      rw (g, compose) (record { same = ap answer (sym g); entries = all; same_size = size })
]

-- In a thread whose cache has only unused entries and right ones, mk_utils_utime2gmt returns and writes
-- for every date what it would without the cache: 31 and the formatted date, or -1 and nothing if gmtime_r or
-- the clock fails. The cache stays as large, with only unused and right entries.
pub utime2gmt-Answers :
    (gmtime : ℤ → Option Tm) (clock : Option ℤ) (date : ℤ) (cache : List GmtCache)
    → All (IsEntry gmtime) cache
    → Answers gmtime (date_of clock date) (length cache) (utime2gmt gmtime clock date cache)
unfolding utime2gmt
utime2gmt-Answers gmtime clock date cache h = elim (Bool-cases (eq_ℤ date (pos 0))) [
  | inl zero_date ↦ rw (zero_date, utime2gmt) (now clock)
  | inr other ↦
      let ne : date ≢ pos 0 = λ q. ground arith in
      let (all, size) = cache_get-All gmtime date cache h in
      elim (Option-cases (cache_get date cache).0) [
        | inl missing ↦
            rw (other, missing, utime2gmt)
              (subst
                (λ n. Answers gmtime (some date) n (compose gmtime date (cache_get date cache).1))
                size (compose-Answers gmtime date (cache_get date cache).1 all))
        | inr (text, found) ↦
            let (tm, g, t) = cache_get-text gmtime date cache ne h found in
            rw (other, found, utime2gmt)
              (record {
                same = ap (λ x. (pos 31, some x)) t ∙ ap answer (sym g);
                entries = all;
                same_size = size;
              })
      ]
]
  where
    now :
        (clock : Option ℤ)
        → Answers gmtime clock
            (length cache)
            (elim clock [ none ↦ (minus_one, none, cache) | some now ↦ compose gmtime now cache ])
    now none = record { same = refl; entries = h; same_size = refl }
    now (some t) = compose-Answers gmtime t cache h
