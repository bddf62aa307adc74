-- ===== src/Url/RoundTrip.antt =====
-- Percent-encoding, and mk_utils_url_decode of src/mk_utils.c on encoded texts.
use mathlib.Core.Option
use monkey.Prelude.{
  ℕ, zero, suc, ◌+◌, ◌-◌, ◌%◌, ◌/◌, ◌<◌, ◌≤◌, ◌≡◌, ◌≢◌, refl, sym, ap, ◌∙◌, inl, inr, Bool, true,
  false, ◌&&◌, Option, none, some, [], ◌∷◌, ◌++◌, length, take, drop, All, arith, ltb, ◌==◌,
  if◌then◌else◌, pos, Bool-cases, Option-cases, append-nil, take-append, take_all, length-take,
  length-append,
}
use monkey.Libc.{Bytes, cstr, memchr}
use monkey.Libc.Find.{Absent, memchr-IsFirst, memchr-append}
use monkey.Url.{hex_digit, hex2int, hex_loop, consing, decode_loop, strncpy, url_decode}
use monkey.Url.Bounds.{decode_loop_plain, decode_loop_escape, url_decode-found, url_decode-none}

abbrev pub hex_char : ℕ → ℕ
hex_char d = if ltb d 10 then b'0' + d else b'A' + d - 10

-- Percent-encoding of the bytes that `keep` does not let through.
pub encode : (ℕ → Bool) → Bytes → Bytes
encode keep [] = []
encode keep (c ∷ s) =
    if keep c
    then c ∷ encode keep s
    else b'%' ∷ hex_char (c / 16) ∷ hex_char (c % 16) ∷ encode keep s

abbrev pub all_kept : (ℕ → Bool) → Bytes → Bool
all_kept keep [] = true
all_kept keep (c ∷ s) = keep c && all_kept keep s

hex_digit-hex_char : (d : ℕ) → d < 16 → hex_digit (hex_char d) ≡ some d
unfolding hex_digit
hex_digit-hex_char d h = ground arith

hex_char-ne-zero : (d : ℕ) → (hex_char d == 0) ≡ false
hex_char-ne-zero d = ground arith

hex2int-hex_char :
    (c : ℕ) → c < 256 → hex2int (hex_char (c / 16) ∷ hex_char (c % 16) ∷ []) 2 ≡ pos c
unfolding hex2int hex_loop
hex2int-hex_char c h =
    rw (hex_char-ne-zero (c / 16), hex_digit-hex_char (c / 16) (omega arith))
      (rw (hex_char-ne-zero (c % 16), hex_digit-hex_char (c % 16) (omega arith))
        (ap pos (omega arith)))

decode_loop_cons :
    (c : ℕ) (s : Bytes) → (c == b'%') ≡ false → decode_loop (c ∷ s) ≡ consing c (decode_loop s)
decode_loop_cons c [] e = unfold decode_loop in refl
decode_loop_cons c (d ∷ []) e = unfold decode_loop in refl
decode_loop_cons c (h ∷ l ∷ s) e = decode_loop_plain c h l s e

-- What is true of the bytes that are sent as they are.
abbrev pub Plain : (ℕ → Bool) → Type 0
Plain keep = (c : ℕ) → keep c ≡ true → (c ≢ b'%') × (c ≢ 0)

cstr_self : (s : Bytes) → All (λ c. c ≢ 0) s → cstr s ≡ s
unfolding cstr
cstr_self [] h = refl
cstr_self (c ∷ s) h = ground (arith, cstr_self s h.1, h.0)

All-take : (P : ℕ → Type 0) (n : ℕ) (s : Bytes) → All P s → All P (take n s)
All-take P zero s h = tt
All-take P (suc n) [] h = tt
All-take P (suc n) (c ∷ s) h = (h.0, All-take P n s h.1)

strncpy-take :
    (s rest : Bytes) (n : ℕ) → All (λ c. c ≢ 0) s → n ≤ length s → strncpy (s ++ rest) n ≡ take n s
unfolding strncpy
strncpy-take s rest n h le =
    let none_left : n - length (take n s) ≡ 0 = omega (arith, length-take n s) in
    rw (take-append n s rest le, cstr_self (take n s) (All-take _ n s h), none_left) (append-nil _)

module _ (t : Bytes) where
  abbrev prepend : Option Bytes → Option Bytes
  prepend = Option.map (λ out. t ++ out)

prepend_nil : (m : Option Bytes) → m ≡ prepend [] m
prepend_nil none = refl
prepend_nil (some out) = refl

consing-prepend :
    (c : ℕ) (t : Bytes) (m : Option Bytes) → consing c (prepend t m) ≡ prepend (c ∷ t) m
consing-prepend c t none = refl
consing-prepend c t (some out) = refl

-- Up to the first percent sign the loop copies.
decode_loop_prefix :
    (n : ℕ) (s : Bytes)
    → Absent s b'%' n
    → n ≤ length s
    → decode_loop s ≡ prepend (take n s) (decode_loop (drop n s))
decode_loop_prefix zero s a le = prepend_nil (decode_loop s)
decode_loop_prefix (suc n) [] a le = absurd (omega arith)
decode_loop_prefix (suc n) (c ∷ s) a le =
    decode_loop_cons c s (ground (arith, a 0))
    ∙ ap (consing c) (decode_loop_prefix n s (λ j h. a (suc j) (omega arith)) (omega arith))
    ∙ consing-prepend c (take n s) (decode_loop (drop n s))

module _ (keep : ℕ → Bool) (plain : Plain keep) where
  decode_loop-encode : (s : Bytes) → All (λ c. c < 256) s → decode_loop (encode keep s) ≡ some s
  unfolding encode
  decode_loop-encode [] h = unfold decode_loop in refl
  decode_loop-encode (c ∷ s) h = elim (Bool-cases (keep c)) [
    | inl e ↦ rw e (
        decode_loop_cons c (encode keep s) (ground (arith, (plain c e).0))
        ∙ ap (consing c) (decode_loop-encode s h.1))
    | inr e ↦ rw e (
        decode_loop_escape b'%' (hex_char (c / 16)) (hex_char (c % 16)) c (encode keep s) refl
          (hex2int-hex_char c h.0)
        ∙ ap (consing (c % 256)) (decode_loop-encode s h.1)
        ∙ ap (λ d. some (d ∷ s)) (omega (arith, h.0)))
  ]

  encode-ne-zero : (s : Bytes) → All (λ c. c ≢ 0) (encode keep s)
  unfolding encode
  encode-ne-zero [] = tt
  encode-ne-zero (c ∷ s) = elim (Bool-cases (keep c)) [
    | inl e ↦ rw e ((plain c e).1, encode-ne-zero s)
    | inr e ↦ rw e (
      λ q. ground arith,
      (
        λ q. ground (arith, hex_char-ne-zero (c / 16)),
        (λ q. ground (arith, hex_char-ne-zero (c % 16)), encode-ne-zero s),
      ),
    )
  ]

  memchr-encode-none :
      (s : Bytes)
      → all_kept keep s ≡ true
      → memchr (encode keep s) b'%' (length (encode keep s)) ≡ none
  unfolding encode memchr
  memchr-encode-none [] e = refl
  memchr-encode-none (c ∷ s) e =
      ground (arith, memchr-encode-none s, λ (k : keep c ≡ true). (plain c k).0)

  memchr-encode-ne-none :
      (s : Bytes)
      → all_kept keep s ≡ false
      → memchr (encode keep s) b'%' (length (encode keep s)) ≢ none
  unfolding encode memchr
  memchr-encode-ne-none [] e = λ _. absurd (ground arith)
  memchr-encode-ne-none (c ∷ s) e = ground (arith, memchr-encode-ne-none s)

  decode_from :
      (s rest : Bytes) (i : ℕ)
      → All (λ c. c < 256) s
      → memchr (encode keep s) b'%' (length (encode keep s)) ≡ some i
      → prepend
          (strncpy (encode keep s ++ rest) i)
          (decode_loop (drop i (take (length (encode keep s)) (encode keep s ++ rest))))
        ≡ some s
  decode_from s rest i h m =
      let first = memchr-IsFirst (encode keep s) b'%' (length (encode keep s)) i m in
      rw
        (
          take-append (length (encode keep s)) (encode keep s) rest (omega arith),
          take_all (length (encode keep s)) (encode keep s) (omega arith),
          strncpy-take (encode keep s) rest i (encode-ne-zero s) (omega (arith, first.below)),
        )
        (sym (decode_loop_prefix i (encode keep s) first.before (omega (arith, first.below)))
          ∙ decode_loop-encode s h)

  -- Take any text of bytes, send the bytes that `keep` lets through as they are and the others as
  -- percent escapes, where `keep` lets neither the percent sign nor NUL through. On the result, with
  -- any `rest` behind it in the buffer, mk_utils_url_decode returns the text, or NULL if there is
  -- no escape.
  pub url_decode-encode :
      (s rest : Bytes)
      → All (λ c. c < 256) s
      → url_decode (encode keep s ++ rest) (length (encode keep s))
        ≡ (if all_kept keep s then none else some s)
  url_decode-encode s rest h = elim (Bool-cases (all_kept keep s)) [
    | inl e ↦ rw e (
        url_decode-none (encode keep s ++ rest) (length (encode keep s)) (inside s rest) (
          memchr-append (encode keep s) rest b'%' (length (encode keep s)) (omega arith)
          ∙ memchr-encode-none s e))
    | inr e ↦ rw e (elim (Option-cases (memchr (encode keep s) b'%' (length (encode keep s)))) [
      | inl n ↦ absurd (memchr-encode-ne-none s e n)
      | inr (i, m) ↦
          url_decode-found (encode keep s ++ rest) (length (encode keep s)) (inside s rest) i
            (memchr-append (encode keep s) rest b'%' (length (encode keep s)) (omega arith) ∙ m)
          ∙ decode_from s rest i h m
    ])
  ]
    where
      inside : (s rest : Bytes) → length (encode keep s) ≤ length (encode keep s ++ rest)
      inside s rest = omega (arith, length-append (encode keep s) rest)
