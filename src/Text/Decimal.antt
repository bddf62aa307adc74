-- ===== src/Text/Decimal.antt =====
-- mk_string_itop of src/mk_string.c against strtol(3).
use monkey.Prelude.{
  ℕ, zero, suc, ◌+◌, ◌-◌, ◌*◌, ◌/◌, ◌%◌, ◌^◌, ◌<◌, ◌≤◌, ◌≡◌, ◌≢◌, refl, subst, Bool-cases, reverse,
  sym, ap, ◌∙◌, inl, inr, [], ◌∷◌, ◌++◌, reverse-cons, reverse-append, append_assoc, All,
  All-append, arith, ◌==◌, true, false, ℤ, pos_part, neg_part, pos, negsuc, if◌then◌else◌,
}
use monkey.Libc.{Bytes, isdigit, isspace}
use monkey.Libc.Numbers.{strtol, digits_from, signed_value, to_long, skip_spaces}
use monkey.Text.{digit_loop, string_itop}

-- The bytes 48 to 57.
abbrev IsDigit : ℕ → Type 0
IsDigit c = (48 ≤ c) × (c ≤ 57)

value_step : (q n : ℕ) → q ≡ n / 10 → q * 10 + (48 + n % 10 - 48) ≡ n
value_step q n e = omega arith

digits_step :
    (q n : ℕ) (s : Bytes) → q ≡ n / 10 → digits_from q ((48 + n % 10) ∷ s) ≡ digits_from n s
unfolding digits_from isdigit
digits_step q n s e = ground (arith, value_step q n e)

digits_small : (n : ℕ) → n < 10 → n % 10 ≡ n
digits_small n h = omega arith

reverse_cons-append : (c : ℕ) (l s : Bytes) → reverse (c ∷ l) ++ s ≡ reverse l ++ (c ∷ s)
reverse_cons-append c l s =
    ap (λ r. r ++ s) (reverse-cons c l) ∙ append_assoc (reverse l) (c ∷ []) s

loop_last : (fuel n : ℕ) → n / 10 ≡ 0 → digit_loop (suc fuel) n ≡ (48 + n % 10) ∷ []
unfolding digit_loop
loop_last fuel n e = ground arith

loop_next :
    (fuel n : ℕ)
    → (n / 10 == 0) ≡ false
    → digit_loop (suc fuel) n ≡ (48 + n % 10) ∷ digit_loop fuel (n / 10)
unfolding digit_loop
loop_next fuel n e = ground arith

-- The digits of `n` in front of a text are read as `n`.
digits-digit_loop :
    (fuel n : ℕ) (s : Bytes)
    → n < 10 ^ fuel
    → digits_from 0 (reverse (digit_loop fuel n) ++ s) ≡ digits_from n s
unfolding digit_loop
digits-digit_loop zero n s h = ap (λ k. digits_from k s) (omega arith)
digits-digit_loop (suc fuel) n s h = elim (Bool-cases (n / 10 == 0)) [
  | inl e ↦
      ap (λ l. digits_from 0 (reverse l ++ s)) (loop_last fuel n (ground arith))
      ∙ digits_step 0 n s (ground arith)
  | inr e ↦
      ap (λ l. digits_from 0 (reverse l ++ s)) (loop_next fuel n e)
      ∙ ap (digits_from 0) (reverse_cons-append (48 + n % 10) (digit_loop fuel (n / 10)) s)
      ∙ digits-digit_loop fuel (n / 10) ((48 + n % 10) ∷ s) (omega arith)
      ∙ digits_step (n / 10) n s refl
]

loop-All : (fuel n : ℕ) → All IsDigit (digit_loop fuel n)
unfolding digit_loop
loop-All zero n = tt
loop-All (suc fuel) n = elim (Bool-cases (n / 10 == 0)) [
  | inl e ↦
      subst (All IsDigit) (sym (loop_last fuel n (ground arith))) ((omega arith, omega arith), tt)
  | inr e ↦
      subst (All IsDigit) (sym (loop_next fuel n e))
        ((omega arith, omega arith), loop-All fuel (n / 10))
]

All-reverse : (l : Bytes) → All IsDigit l → All IsDigit (reverse l)
All-reverse [] h = tt
All-reverse (c ∷ l) h =
    subst (All IsDigit) (sym (reverse-cons c l))
      (All-append IsDigit (reverse l) (c ∷ []) (All-reverse l h.1) (h.0, tt))

to_long_small : (n : ℕ) → n < 2 ^ 31 → to_long false n ≡ pos n
unfolding to_long
to_long_small n h = ground arith

-- In front of a digit nothing is skipped, and there is no sign.
strtol_digit :
    (c : ℕ) (s : Bytes) → IsDigit c → strtol (c ∷ s) ≡ to_long false (digits_from 0 (c ∷ s))
unfolding strtol skip_spaces signed_value isspace
strtol_digit c s h = ground (arith, h.0, h.1)

strtol_digits :
    (l s : Bytes)
    → All IsDigit l
    → l ≢ []
    → strtol (l ++ s) ≡ to_long false (digits_from 0 (l ++ s))
strtol_digits [] s h e = absurd (e refl)
strtol_digits (c ∷ l) s h e = strtol_digit c (l ++ s) h.0

nonempty_append : (l : Bytes) (c : ℕ) → l ++ (c ∷ []) ≢ []
nonempty_append [] c e = ground arith
nonempty_append (x ∷ l) c e = ground arith

reverse_cons-nonempty : (c : ℕ) (l : Bytes) → reverse (c ∷ l) ≢ []
reverse_cons-nonempty c l e = nonempty_append (reverse l) c (sym (reverse-cons c l) ∙ e)

loop-nonempty : (fuel n : ℕ) → reverse (digit_loop (suc fuel) n) ≢ []
unfolding digit_loop
loop-nonempty fuel n e =
    reverse_cons-nonempty (48 + n % 10) (if n / 10 == 0 then [] else digit_loop fuel (n / 10)) e

stop_at_cr : (n : ℕ) → digits_from n (13 ∷ 10 ∷ []) ≡ n
unfolding digits_from isdigit
stop_at_cr n = refl

itop_pos : (n : ℕ) → n < 2 ^ 31 → strtol (string_itop (pos n)) ≡ pos n
unfolding string_itop
itop_pos n h =
    strtol_digits (reverse (digit_loop 10 n)) (13 ∷ 10 ∷ [])
      (All-reverse (digit_loop 10 n) (loop-All 10 n)) (loop-nonempty 9 n)
    ∙ ap (to_long false) (digits-digit_loop 10 n (13 ∷ 10 ∷ []) (omega arith) ∙ stop_at_cr n)
    ∙ to_long_small n h

strtol_minus : (s : Bytes) → strtol (b'-' ∷ s) ≡ to_long true (digits_from 0 s)
unfolding strtol skip_spaces signed_value isspace
strtol_minus s = ground arith

to_long_minus : (n : ℕ) → n < 2 ^ 31 → to_long true (suc n) ≡ negsuc n
unfolding to_long
to_long_minus n h = ground arith

itop_negsuc : (n : ℕ) → n < 2 ^ 31 → strtol (string_itop (negsuc n)) ≡ negsuc n
unfolding string_itop
itop_negsuc n h =
    ap (λ l. strtol (l ++ (13 ∷ 10 ∷ []))) (reverse-append (digit_loop 10 (suc n)) (b'-' ∷ []))
    ∙ strtol_minus (reverse (digit_loop 10 (suc n)) ++ (13 ∷ 10 ∷ []))
    ∙ ap (to_long true)
        (digits-digit_loop 10 (suc n) (13 ∷ 10 ∷ []) (omega arith) ∙ stop_at_cr (suc n))
    ∙ to_long_minus n h

-- The text that mk_string_itop writes for a number is read back by strtol as that number, for every
-- value that an int can have.
pub strtol-string_itop :
    (v : ℤ) → pos_part v < 2 ^ 31 → neg_part v ≤ 2 ^ 31 → strtol (string_itop v) ≡ v
strtol-string_itop (pos n) h k = itop_pos n h
strtol-string_itop (negsuc n) h k = itop_negsuc n (omega arith)
