-- ===== src/Url/Bounds.antt =====
-- The memory that mk_utils_url_decode of src/mk_utils.c writes.
use mathlib.Core.Option
use monkey.Prelude.{
  ℕ, ◌+◌, ◌-◌, ◌%◌, ◌<◌, ◌≤◌, ◌≡◌, refl, sym, ◌∙◌, ◌⊎◌, inl, inr, true, false, Option, none, some,
  [], ◌∷◌, ◌++◌, length, take, drop, replicate, get_elem?, get_elem?-drop, get_elem?-take, arith,
  ◌==◌, ℤ, pos, negsuc, Bool-cases, Option-cases, length-append, length-take, length-drop,
  length-replicate,
}
use monkey.Libc.{Bytes, cstr, memchr}
use monkey.Libc.Find.{memchr-IsFirst}
use monkey.Text.Search.{char_search_pos}
use monkey.Url.{hex2int, consing, decode_loop, strncpy, url_decode, decode_size}

length-cstr : (s : Bytes) → length (cstr s) ≤ length s
unfolding cstr
length-cstr [] = omega arith
length-cstr (c ∷ s) = ground (arith, length-cstr s)

length-strncpy : (s : Bytes) (n : ℕ) → length (strncpy s n) ≡ n
unfolding strncpy
length-strncpy s n = omega (
  arith,
  length-append (cstr (take n s)) (replicate (n - length (cstr (take n s))) 0),
  length-replicate {A = ℕ} (n - length (cstr (take n s))) 0,
  length-cstr (take n s),
  length-take n s,
)

pub decode_loop_plain :
    (c h l : ℕ) (s : Bytes)
    → (c == b'%') ≡ false
    → decode_loop (c ∷ h ∷ l ∷ s) ≡ consing c (decode_loop (h ∷ l ∷ s))
unfolding decode_loop
decode_loop_plain c h l s e = rw (e, decode_loop)

pub decode_loop_escape :
    (c h l v : ℕ) (s : Bytes)
    → (c == b'%') ≡ true
    → hex2int (h ∷ l ∷ []) 2 ≡ pos v
    → decode_loop (c ∷ h ∷ l ∷ s) ≡ consing (v % 256) (decode_loop s)
unfolding decode_loop
decode_loop_escape c h l v s e x = rw (e, x, decode_loop)

pub decode_loop_bad :
    (c h l k : ℕ) (s : Bytes)
    → (c == b'%') ≡ true
    → hex2int (h ∷ l ∷ []) 2 ≡ negsuc k
    → decode_loop (c ∷ h ∷ l ∷ s) ≡ none
unfolding decode_loop
decode_loop_bad c h l k s e x = rw (e, x, decode_loop)

pub ℤ-cases : (z : ℤ) → ((n : ℕ) × (z ≡ pos n)) ⊎ ((n : ℕ) × (z ≡ negsuc n))
ℤ-cases (pos n) = inl (n, refl)
ℤ-cases (negsuc n) = inr (n, refl)

-- The length of a result, 0 for NULL.
abbrev pub size : Option Bytes → ℕ
size none = 0
size (some out) = length out

size-consing : (c : ℕ) (m : Option Bytes) (n : ℕ) → size m ≤ n → size (consing c m) ≤ n + 1
size-consing c none n h = omega arith
size-consing c (some out) n h = omega arith

size-decode_loop : (s : Bytes) → size (decode_loop s) ≤ length s
size-decode_loop [] = unfold decode_loop in omega arith
size-decode_loop (c ∷ []) = unfold decode_loop in omega arith
size-decode_loop (c ∷ d ∷ []) = unfold decode_loop in omega arith
size-decode_loop (c ∷ h ∷ l ∷ s) = elim (Bool-cases (c == b'%')) [
  | inr e ↦ rw (decode_loop_plain c h l s e) (
      omega (
        arith,
        size-consing c (decode_loop (h ∷ l ∷ s)) (length s + 2)
            (omega (arith, size-decode_loop (h ∷ l ∷ s))),
      ))
  | inl e ↦ elim (ℤ-cases (hex2int (h ∷ l ∷ []) 2)) [
    | inl (v, x) ↦
        rw (decode_loop_escape c h l v s e x)
          (omega (arith, size-consing (v % 256) (decode_loop s) (length s) (size-decode_loop s)))
    | inr (k, x) ↦ rw (decode_loop_bad c h l k s e x) (omega arith)
  ]
]

module _ (uri : Bytes) (len : ℕ) (fits : len ≤ length uri) where
  -- The escapes start at the first percent sign.
  pub url_decode-found :
      (i : ℕ)
      → memchr uri b'%' len ≡ some i
      → url_decode uri len
        ≡ Option.map (λ out. strncpy uri i ++ out) (decode_loop (drop i (take len uri)))
  unfolding url_decode
  url_decode-found i e = ground (arith, char_search_pos uri b'%' len)

  pub url_decode-none : memchr uri b'%' len ≡ none → url_decode uri len ≡ none
  unfolding url_decode
  url_decode-none e = ground (arith, char_search_pos uri b'%' len)

-- At a percent sign: with two bytes behind it an escape is decoded, with fewer all is copied.
size_at_percent :
    (r out : Bytes)
    → get_elem? r 0 ≡ some b'%'
    → decode_loop r ≡ some out
    → (2 < length r → length out + 2 ≤ length r) × (length r ≤ 2 → length out ≡ length r)
size_at_percent [] out p e = absurd (ground arith)
size_at_percent (c ∷ []) out p e =
    unfold decode_loop in (λ h. absurd (omega arith), λ _. ground arith)
size_at_percent (c ∷ d ∷ []) out p e =
    unfold decode_loop in (λ h. absurd (omega arith), λ _. ground arith)
size_at_percent (c ∷ h ∷ l ∷ s) out p e = elim (ℤ-cases (hex2int (h ∷ l ∷ []) 2)) [
  | inl (v, x) ↦
      let e' = sym (decode_loop_escape c h l v s (ground arith) x) ∙ e in
      (
        λ _.
            ground
              (arith, e', size-decode_loop s, size-consing (v % 256) (decode_loop s) (length s)),
        λ w. absurd (omega arith),
      )
  | inr (k, x) ↦ absurd (ground (arith, sym (decode_loop_bad c h l k s (ground arith) x) ∙ e))
]

module _ (uri : Bytes) (len : ℕ) (fits : len ≤ length uri) where
  -- The parts of a decoded text.
  url_decode_parts :
      (i : ℕ) {out : Bytes}
      → memchr uri b'%' len ≡ some i
      → url_decode uri len ≡ some out
      → (o : Bytes) × (decode_loop (drop i (take len uri)) ≡ some o) × (length out ≡ i + length o)
  url_decode_parts i m e = elim (Option-cases (decode_loop (drop i (take len uri)))) [
    | inl n ↦ absurd (ground (arith, sym e ∙ url_decode-found uri len fits i m, n))
    | inr (o, q) ↦ (
      o,
      q,
      ground (
        arith,
        sym e ∙ url_decode-found uri len fits i m,
        q,
        length-append (strncpy uri i) o,
        length-strncpy uri i,
      ),
    )
  ]

  -- On a URI inside its buffer, and a first percent sign at `i`: if two more bytes of the URI follow,
  -- the NUL behind the decoded text is stored inside the allocated buffer, with at least one byte to
  -- spare behind it. If not, nothing is decoded and the NUL goes to the first place behind the buffer.
  pub url_decode_bounds :
      (i : ℕ) {out : Bytes}
      → memchr uri b'%' len ≡ some i
      → url_decode uri len ≡ some out
      → (i + 2 < len → length out + 2 ≤ decode_size len)
        × (len ≤ i + 2 → length out ≡ decode_size len)
  unfolding decode_size
  url_decode_bounds i m e =
      let first = memchr-IsFirst uri b'%' len i m in
      let (o, q, size_is) = url_decode_parts i m e in
      let percent =
        get_elem?-drop i (take len uri) ∙ get_elem?-take len i uri first.below ∙ first.holds in
      let (more, fewer) = size_at_percent (drop i (take len uri)) o percent q in
      let r : length (drop i (take len uri)) ≡ len - i =
        omega (arith, length-drop i (take len uri), length-take len uri) in
      (
        λ h. omega (arith, more (omega (arith, first.below)), first.below),
        λ h. omega (arith, fewer (omega (arith, first.below)), first.below),
      )
