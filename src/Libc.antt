-- ===== src/Libc.antt =====
-- What the C code uses of the standard library's memory and string functions.
-- A buffer is the list of its bytes before the NUL that ends it. The bytes that a client sent may
-- hold NULs of their own: the `str` functions stop at the first, the `mem` functions do not.
-- None of the program's memchr and memrchr calls looks for a NUL.
pub mod Find
pub mod Numbers
use mathlib.Core.Option
use monkey.Prelude.{
  drop, take, ◌/◌, ℕ, zero, suc, ◌+◌, ◌-◌, Bool, true, false, ◌&&◌, ◌||◌, Option, none, some, List,
  [], ◌∷◌, ◌++◌, length, leb, ◌==◌, if◌then◌else◌, String,
}
use Prim.Native.Char.{code}
use Prim.Native.Nat.{compare, Ordering}
use Prim.Native.String.{String as NativeString}

abbrev pub Bytes : Type 0
Bytes = List ℕ

-- The bytes of a literal. `String` has its own `[]` and `∷`.
abbrev pub codes : String → Bytes
codes String.[] = []
codes (String.◌∷◌ c s) = code c ∷ codes s

-- The C string at the start of a buffer.
unfoldable pub cstr : Bytes → Bytes
cstr [] = []
cstr (c ∷ s) = if c == 0 then [] else c ∷ cstr s

abbrev pub strlen : Bytes → ℕ
strlen s = length (cstr s)

unfoldable pub memchr : Bytes → ℕ → ℕ → Option ℕ
memchr s c zero = none
memchr [] c (suc n) = none
memchr (x ∷ s) c (suc n) = if x == c then some 0 else Option.map suc (memchr s c n)

-- The last occurrence in the first `n` bytes.
abbrev pub later : Option ℕ → Option ℕ → Option ℕ
later (some i) here = some (suc i)
later none here = here

unfoldable pub memrchr : Bytes → ℕ → ℕ → Option ℕ
memrchr s c zero = none
memrchr [] c (suc n) = none
memrchr (x ∷ s) c (suc n) = later (memrchr s c n) (if x == c then some 0 else none)

-- index(3) is strchr(3).
abbrev pub index : Bytes → ℕ → Option ℕ
index s c = memchr (cstr s) c (strlen s)

abbrev pub in_range : ℕ → ℕ → ℕ → Bool
in_range lo hi c = leb lo c && leb c hi

unfoldable pub toupper : ℕ → ℕ
toupper c = if in_range b'a' b'z' c then c - 32 else c

unfoldable pub tolower : ℕ → ℕ
tolower c = if in_range b'A' b'Z' c then c + 32 else c

unfoldable pub isspace : ℕ → Bool
isspace c = c == 32 || in_range 9 13 c

unfoldable pub isdigit : ℕ → Bool
isdigit c = in_range b'0' b'9' c

-- `strncmp(a, b, n) == 0` with each byte read through `f`: the identity, or `tolower` in
-- strncasecmp.
unfoldable pub equal_by : (ℕ → ℕ) → Bytes → Bytes → ℕ → Bool
equal_by f a b zero = true
equal_by f [] [] (suc n) = true
equal_by f [] (y ∷ b) (suc n) = y == 0
equal_by f (x ∷ a) [] (suc n) = x == 0
equal_by f (x ∷ a) (y ∷ b) (suc n) = f x == f y && (x == 0 || equal_by f a b n)

abbrev pub strncmp_eq : Bytes → Bytes → ℕ → Bool
strncmp_eq = equal_by (λ c. c)

abbrev pub strncasecmp_eq : Bytes → Bytes → ℕ → Bool
strncasecmp_eq = equal_by tolower

-- The C string of the first argument stands at the start of the second.
unfoldable pub starts_by : (ℕ → ℕ) → Bytes → Bytes → Bool
starts_by f [] s = true
starts_by f (y ∷ needle) [] = y == 0
starts_by f (y ∷ needle) (x ∷ s) = y == 0 || (f x == f y && starts_by f needle s)

unfoldable pub find_by : (ℕ → ℕ) → Bytes → Bytes → Option ℕ
find_by f needle [] = if starts_by f needle [] then some 0 else none
find_by f needle (x ∷ s) =
    if starts_by f needle (x ∷ s)
    then some 0
    else if x == 0
    then none
    else Option.map suc (find_by f needle s)

abbrev pub strstr : Bytes → Bytes → Option ℕ
strstr s needle = find_by (λ c. c) needle s

abbrev pub strcasestr : Bytes → Bytes → Option ℕ
strcasestr s needle = find_by tolower needle s

-- memmem(3), which NULs do not stop.
unfoldable pub memmem : Bytes → Bytes → Bool
memmem [] needle = starts_by (λ c. c) needle []
memmem (x ∷ s) needle = starts_by (λ c. c) needle (x ∷ s) || memmem s needle

-- `strcasecmp(a, b) == 0`
abbrev pub strcasecmp_eq : Bytes → Bytes → Bool
strcasecmp_eq a b = strncasecmp_eq a b (length a + 1)

-- strcmp(3)
unfoldable pub strcmp : Bytes → Bytes → Ordering
strcmp [] [] = Ordering.eq
strcmp [] (y ∷ b) = if y == 0 then Ordering.eq else Ordering.lt
strcmp (x ∷ a) [] = if x == 0 then Ordering.eq else Ordering.gt
strcmp (x ∷ a) (y ∷ b) = elim (compare x y) [
  | Ordering.lt ↦ Ordering.lt
  | Ordering.gt ↦ Ordering.gt
  | Ordering.eq ↦ if x == 0 then Ordering.eq else strcmp a b
]

-- A last line without a line feed.
abbrev pub last_line : Bytes → List Bytes
last_line [] = []
last_line line = line ∷ []

-- What fgets(3) gives of a file until its end, `room` and one more bytes at a time, a line at most.
unfoldable pub fgets_loop : ℕ → ℕ → Bytes → Bytes → List Bytes
fgets_loop size room line [] = last_line line
fgets_loop size room line (c ∷ s) = elim (c == b'\n' || room == 0) [
  | true ↦ (line ++ (c ∷ [])) ∷ fgets_loop size size [] s
  | false ↦ fgets_loop size (room - 1) (line ++ (c ∷ [])) s
]

-- With a buffer of `size` bytes.
abbrev pub fgets_lines : ℕ → Bytes → List Bytes
fgets_lines size = fgets_loop (size - 2) (size - 2) []

-- bsearch(3): each round halves the table.
unfoldable pub bsearch {ℓ} : {A : Type ℓ} → (A → Ordering) → ℕ → List A → Option A
bsearch cmp zero table = none
bsearch cmp (suc fuel) table = elim (drop (length table / 2) table) [
  | [] ↦ none
  | m ∷ above ↦ elim (cmp m) [
    | Ordering.eq ↦ some m
    | Ordering.lt ↦ bsearch cmp fuel (take (length table / 2) table)
    | Ordering.gt ↦ bsearch cmp fuel above
  ]
]
