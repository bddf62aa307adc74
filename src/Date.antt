-- ===== src/Date.antt =====
-- The dates of the response headers, and the thread's cache of them: mk_utils_utime2gmt,
-- mk_utils_gmt_cache_get and mk_utils_gmt_cache_add of src/mk_utils.c.
pub mod Cache
use monkey.Prelude.{
  ℕ, zero, suc, ◌+◌, ◌/◌, ◌%◌, ◌^◌, Bool, true, false, Option, none, some, List, [], ◌∷◌, ◌++◌,
  get_or, ltb, if◌then◌else◌, ℤ, pos, minus_one, eq_ℤ,
}
use monkey.Libc.{Bytes, codes}

-- The fields of struct tm that the code reads.
pub record Tm : Type 0 where
  pub tm_year : ℕ
  pub tm_mon : ℕ
  pub tm_mday : ℕ
  pub tm_hour : ℕ
  pub tm_min : ℕ
  pub tm_sec : ℕ
  pub tm_wday : ℕ

-- struct mk_gmt_cache; `text` is without the NUL that ends it.
pub record GmtCache : Type 0 where
  pub time : ℤ
  pub text : Bytes
  pub hits : ℕ

-- MK_GMT_CACHES
abbrev pub gmt_caches : ℕ
gmt_caches = 10

-- The five bytes of mk_date_wd and the four of mk_date_ym that are copied.
abbrev pub date_wd : List Bytes
date_wd =
    codes "Sun, "
    ∷ codes "Mon, "
    ∷ codes "Tue, "
    ∷ codes "Wed, "
    ∷ codes "Thu, "
    ∷ codes "Fri, "
    ∷ codes "Sat, "
    ∷ []

abbrev pub date_ym : List Bytes
date_ym =
    codes "Jan "
    ∷ codes "Feb "
    ∷ codes "Mar "
    ∷ codes "Apr "
    ∷ codes "May "
    ∷ codes "Jun "
    ∷ codes "Jul "
    ∷ codes "Aug "
    ∷ codes "Sep "
    ∷ codes "Oct "
    ∷ codes "Nov "
    ∷ codes "Dec "
    ∷ []

-- Two digits, stored in chars.
abbrev pub two_digits : ℕ → Bytes
two_digits n = ((b'0' + n / 10) % 2 ^ 8) ∷ (b'0' + n % 10) ∷ []

abbrev pub short : ℕ → ℕ
short n = n % 2 ^ 16

abbrev pub four_digits : ℕ → Bytes
four_digits n =
    (b'0' + n / 1000 % 10) ∷ (b'0' + n / 100 % 10) ∷ (b'0' + n / 10 % 10) ∷ (b'0' + n % 10) ∷ []

unfoldable pub format : Tm → Bytes
format tm =
    get_or date_wd tm.tm_wday []
    ++ two_digits (short tm.tm_mday)
    ++ (b' ' ∷ [])
    ++ get_or date_ym tm.tm_mon []
    ++ four_digits (short (tm.tm_year + 1900))
    ++ (b' ' ∷ [])
    ++ two_digits (short tm.tm_hour)
    ++ (b':' ∷ [])
    ++ two_digits (short tm.tm_min)
    ++ (b':' ∷ [])
    ++ two_digits (short tm.tm_sec)
    ++ codes " GMT"
    ++ (13 ∷ 10 ∷ [])

-- mk_utils_gmt_cache_get: the text of the first entry for the date, and the cache with its hit counted.
unfoldable pub cache_get : ℤ → List GmtCache → Option Bytes × List GmtCache
cache_get date [] = (none, [])
cache_get date (c ∷ cache) =
    let rest = cache_get date cache in
    if eq_ℤ date c.time
    then (some c.text, record c { hits = (c.hits + 1) % 2 ^ 64 } ∷ cache)
    else (rest.0, c ∷ rest.1)

-- The first entry with the fewest hits, from entry `i` on, where `min` has `hits` so far.
unfoldable pub least_hits : ℕ → ℕ → ℕ → List GmtCache → ℕ
least_hits i min hits [] = min
least_hits i min hits (c ∷ cache) = elim (ltb c.hits hits) [
  | true ↦ least_hits (i + 1) i c.hits cache
  | false ↦ least_hits (i + 1) min hits cache
]

unfoldable pub set_slot : ℕ → GmtCache → List GmtCache → List GmtCache
set_slot n entry [] = []
set_slot zero entry (c ∷ cache) = entry ∷ cache
set_slot (suc n) entry (c ∷ cache) = c ∷ set_slot n entry cache

-- mk_utils_gmt_cache_add
unfoldable pub cache_add : Bytes → ℤ → List GmtCache → List GmtCache
cache_add text date [] = []
cache_add text date (c ∷ cache) =
    set_slot (least_hits 1 0 c.hits cache) (record { time = date; text = text; hits = 1 })
      (c ∷ cache)

-- A date that is not in the cache. `gmtime` is gmtime_r(3): NULL, or the fields of a date.
unfoldable pub compose : (ℤ → Option Tm) → ℤ → List GmtCache → ℤ × Option Bytes × List GmtCache
compose gmtime date cache = elim (gmtime date) [
  | none ↦ (minus_one, none, cache)
  | some tm ↦ (pos 31, some (format tm), cache_add (format tm) date cache)
]

abbrev pub or_compose :
    (ℤ → Option Tm)
    → ℤ
    → List GmtCache
    → Option Bytes × List GmtCache
    → ℤ × Option Bytes × List GmtCache
or_compose gmtime date cache (some text, cache') = (pos 31, some text, cache')
or_compose gmtime date cache (none, cache') = compose gmtime date cache'

-- mk_utils_utime2gmt: the returned value, the text that is written, and the cache. `clock` is what time(2)
-- gives; it is read for the date 0.
unfoldable pub utime2gmt :
    (ℤ → Option Tm) → Option ℤ → ℤ → List GmtCache → ℤ × Option Bytes × List GmtCache
utime2gmt gmtime clock date cache =
    if eq_ℤ date (pos 0)
    then elim clock [ none ↦ (minus_one, none, cache) | some now ↦ compose gmtime now cache ]
    else or_compose gmtime date cache (cache_get date cache)
