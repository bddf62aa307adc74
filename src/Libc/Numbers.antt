-- ===== src/Libc/Numbers.antt =====
-- strtol(3) and atol(3) in base 10 with a 64-bit long, and the conversion of a long to an int.
use monkey.Prelude.{
  ℕ, ◌+◌, ◌-◌, ◌*◌, ◌%◌, ◌^◌, ◌≡◌, refl, [], ◌∷◌, ltb, ◌==◌, if◌then◌else◌, ℤ, pos, negsuc,
  minus_one, Bool, true, false,
}
use monkey.Libc.{Bytes, codes, isspace, isdigit}

abbrev pub long_max : ℕ
long_max = 2 ^ 63 - 1

unfoldable pub skip_spaces : Bytes → Bytes
skip_spaces [] = []
skip_spaces (c ∷ s) = if isspace c then skip_spaces s else c ∷ s

-- The value of the digits in front.
unfoldable pub digits_from : ℕ → Bytes → ℕ
digits_from acc [] = acc
digits_from acc (c ∷ s) = elim (isdigit c) [
  | true ↦ digits_from (acc * 10 + (c - b'0')) s
  | false ↦ acc
]

-- Out of range the result is the bound.
unfoldable pub to_long : Bool → ℕ → ℤ
to_long false n = pos (if ltb long_max n then long_max else n)
to_long true n = if n == 0 then pos 0 else negsuc (if ltb long_max (n - 1) then long_max else n - 1)

unfoldable pub signed_value : Bytes → ℤ
signed_value [] = pos 0
signed_value (c ∷ s) =
    if c == b'-'
    then to_long true (digits_from 0 s)
    else if c == b'+'
    then to_long false (digits_from 0 s)
    else to_long false (digits_from 0 (c ∷ s))

unfoldable pub strtol : Bytes → ℤ
unfolding skip_spaces digits_from to_long signed_value isspace isdigit
strtol s = signed_value (skip_spaces s)

abbrev pub atol : Bytes → ℤ
atol = strtol

abbrev pub of_word : ℕ → ℤ
of_word w = if ltb w (2 ^ 31) then pos w else negsuc (2 ^ 32 - w - 1)

-- A long assigned to an int keeps its low 32 bits.
unfoldable pub to_int : ℤ → ℤ
to_int (pos n) = of_word (n % 2 ^ 32)
to_int (negsuc n) = of_word (2 ^ 32 - 1 - n % 2 ^ 32)

strtol_tests :
    (strtol (codes " 12;") ≡ pos 12)
    × (strtol (codes "-5") ≡ negsuc 4)
    × (strtol (codes "x") ≡ pos 0)
    × (strtol (codes "99999999999999999999") ≡ pos long_max)
    × (to_int (strtol (codes "99999999999999999999")) ≡ minus_one)
unfolding strtol to_int
strtol_tests = (refl, refl, refl, refl, refl)
