-- ===== src/Tests/Dates.antt =====
-- Tests of Date: the formatted dates of src/mk_utils.c.
use monkey.Prelude.{
  ◌≡◌, refl, inl, Option, none, some, List, [], All, ◌++◌, replicate, ℤ, pos, length,
}
use monkey.Libc.{codes}
use monkey.Types.{crlf}
use monkey.Date.{Tm, GmtCache, gmt_caches, format, utime2gmt}
use monkey.Date.Cache.{IsEntry, Answers, date_of, utime2gmt-Answers}

-- 23 June 2010, 22:32:01
abbrev test_tm : Tm
test_tm = record {
  tm_year = 110;
  tm_mon = 5;
  tm_mday = 23;
  tm_hour = 22;
  tm_min = 32;
  tm_sec = 1;
  tm_wday = 3;
}

format_test : format test_tm ≡ codes "Wed, 23 Jun 2010 22:32:01 GMT" ++ crlf
unfolding format
format_test = refl

length-format : length (format test_tm) ≡ 31
unfolding format
length-format = refl

abbrev test_gmtime : ℤ → Option Tm
test_gmtime date = some test_tm

abbrev empty_cache : List GmtCache
empty_cache = replicate gmt_caches (record { time = pos 0; text = []; hits = 0 })

empty_cache-IsEntry : All (IsEntry test_gmtime) empty_cache
empty_cache-IsEntry = (
  inl refl,
  (
    inl refl,
    (
      inl refl,
      (inl refl, (inl refl, (inl refl, (inl refl, (inl refl, (inl refl, (inl refl, tt))))))),
    ),
  ),
)

utime2gmt-Answers_example :
    Answers test_gmtime
      (date_of none (pos 1277332321))
      (length empty_cache)
      (utime2gmt test_gmtime none (pos 1277332321) empty_cache)
utime2gmt-Answers_example =
    utime2gmt-Answers test_gmtime none (pos 1277332321) empty_cache empty_cache-IsEntry
