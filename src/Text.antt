-- ===== src/Text.antt =====
-- src/mk_string.c. A `char *` is a buffer of Libc, NULL is `none`, and an `int` that may be -1 is an
-- integer. Memory that the C code allocates is taken to be there: malloc does not fail.
pub mod Search
pub mod Split
pub mod Trim
pub mod Decimal
use mathlib.Core.Option
use monkey.Prelude.{
  ℕ, zero, suc, ◌+◌, ◌-◌, ◌/◌, ◌%◌, ◌++◌, reverse, ◌≤◌, ◌<◌, Bool, true, false, ◌&&◌, ◌||◌, not,
  Option, none, some, List, [], ◌∷◌, length, get_or, take, drop, map, leb, ltb, ◌==◌, if◌then◌else◌,
  ℤ, pos, negsuc, minus_one, position, leb_ℤ, ltb_ℤ, pos_part,
}
use monkey.Libc.{
  Bytes, cstr, strlen, memchr, memrchr, strstr, strcasestr, starts_by, toupper, tolower, isspace,
}

-- MK_STR_SENSITIVE and MK_STR_INSENSITIVE
pub data Case : Type 0 where
  sensitive insensitive : Case

-- A byte as the loop compares it.
abbrev pub fold : Case → ℕ → ℕ
fold sensitive c = c
fold insensitive c = toupper c

-- `do { … } while (*p++)` from `p = s`, with `n` for `len - i`.
unfoldable pub search_loop : (ℕ → ℕ) → Bytes → Bytes → ℕ → Option ℕ
search_loop f search s zero = none
search_loop f search [] (suc n) = if starts_by f search [] then some 0 else none
search_loop f search (x ∷ s) (suc n) =
    if starts_by f search (x ∷ s)
    then some 0
    else if n == 0
    then none
    else if x == 0
    then none
    else Option.map suc (search_loop f search s n)

-- strstr or strcasestr
abbrev pub fast_search : Case → Bytes → Bytes → Option ℕ
fast_search sensitive s search = strstr s search
fast_search insensitive s search = strcasestr s search

-- _mk_string_search
unfoldable pub string_search_len : Bytes → Bytes → Case → ℤ → ℤ
string_search_len s search c len =
    if leb_ℤ len (pos 0)
    then position (fast_search c s search)
    else position (search_loop (fold c) search s (pos_part len))

unfoldable pub string_search : Bytes → Bytes → Case → ℤ
unfolding string_search_len
string_search s search c = string_search_len s search c minus_one

unfoldable pub string_search_n : Bytes → Bytes → Case → ℤ → ℤ
unfolding string_search_len
string_search_n = string_search_len

unfoldable pub char_search : Bytes → ℕ → ℤ → ℤ
char_search s c len = position (memchr s c (if ltb_ℤ len (pos 0) then strlen s else pos_part len))

unfoldable pub char_search_r : Bytes → ℕ → ℤ → ℤ
char_search_r s c len =
    position (memrchr s c (if leb_ℤ len (pos 0) then strlen s else pos_part len))

-- The size that mk_string_copy_substr allocates.
unfoldable pub substr_size : ℕ → ℕ → ℕ
substr_size init end = let size = end - init + 1 in if leb size 2 then 4 else size

-- mk_string_copy_substr: the copied bytes, or NULL.
unfoldable pub copy_substr : Bytes → ℕ → ℕ → Option Bytes
copy_substr s init end = if ltb end init then none else some (take (end - init) (drop init s))

unfoldable pub string_tolower : Bytes → Bytes
string_tolower s = map tolower (cstr s)

-- struct mk_string_line
pub record StringLine : Type 0 where
  pub val : Option Bytes
  pub len : ℕ

-- The `while (i < len)` of mk_string_split_line.
unfoldable pub split_loop : ℕ → Bytes → ℕ → ℕ → List StringLine
unfolding copy_substr char_search
split_loop zero line len i = []
split_loop (suc fuel) line len i = elim (ltb i len) [
  | false ↦ []
  | true ↦ elim (char_search (drop i line) b' ' (pos (len - i))) [
    | negsuc _ ↦
        record { val = copy_substr line i len; len = len - i } ∷ split_loop fuel line len (len + 1)
    | pos end ↦ elim (ltb (end + i) len) [
      | false ↦
          record { val = copy_substr line i len; len = len - i }
          ∷ split_loop fuel line len (len + 1)
      | true ↦ elim (i == end + i) [
        | true ↦ split_loop fuel line len (i + 1)
        | false ↦
            record { val = copy_substr line i (end + i); len = end + i - i }
            ∷ split_loop fuel line len (end + i + 1)
      ]
    ]
  ]
]

unfoldable pub split_line : Bytes → List StringLine
unfolding split_loop
split_line line = split_loop (strlen line + 1) (cstr line) (strlen line) 0

-- `while (left) if (isspace(*left)) left++; else break;`
unfoldable pub trim_left : Bytes → ℕ
trim_left [] = 0
trim_left (c ∷ s) = if isspace c then suc (trim_left s) else 0

-- `while (right != buf) if (isspace(*right)) right--; else break;`
unfoldable pub trim_right : Bytes → ℕ → ℕ
trim_right buf zero = zero
trim_right buf (suc right) =
    if isspace (get_or buf (suc right) 0) then trim_right buf right else suc right

-- mk_string_trim: the buffer afterwards, and the returned value.
unfoldable pub string_trim : Option Bytes → Option Bytes × ℤ
unfolding trim_left trim_right
string_trim none = (none, minus_one)
string_trim (some s) =
    let buf = cstr s in
    let len = length buf in
    let left = trim_left buf in
    if len == 0
    then (some [], pos 0)
    else if ltb (len - 1) left
    then (some [], minus_one)
    else (some (take (trim_right buf (len - 1) - left + 1) (drop left buf)), pos 0)

-- The digits of mk_string_itop, the last one first; a 32-bit number has ten at most.
unfoldable pub digit_loop : ℕ → ℕ → Bytes
digit_loop zero n = []
digit_loop (suc fuel) n =
    let rest = digit_loop fuel (n / 10) in (48 + n % 10) ∷ (if n / 10 == 0 then [] else rest)

-- mk_string_itop: the text, whose length is the pointer's `len`.
unfoldable pub string_itop : ℤ → Bytes
string_itop (pos n) = reverse (digit_loop 10 n) ++ (13 ∷ 10 ∷ [])
string_itop (negsuc n) = reverse (digit_loop 10 (suc n) ++ (b'-' ∷ [])) ++ (13 ∷ 10 ∷ [])
