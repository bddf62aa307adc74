-- ===== src/Text/Split.antt =====
-- mk_string_split_line of src/mk_string.c against the words of the line.
use monkey.Prelude.{
  ℕ, zero, suc, ◌+◌, ◌-◌, ◌<◌, ◌≤◌, ◌≡◌, ◌≢◌, refl, sym, ap, ◌∙◌, inl, inr, none, some, List, [],
  ◌∷◌, ◌++◌, map, length, drop, take, All, All-append, arith, ◌==◌, ltb, if◌then◌else◌, Bool-cases,
  Option-cases, take_all, drop_all, drop-drop, length-drop, length-take, append-nil, append_assoc,
}
use monkey.Libc.{Bytes, cstr, strlen, memchr}
use monkey.Libc.Find.{memchr-IsFirst}
use monkey.Text.Search.{char_search_pos}
use monkey.Text.{StringLine, copy_substr, split_loop, split_line}

-- A word that is ended by a space or the line's end.
abbrev pub flush : Bytes → List Bytes
flush [] = []
flush (c ∷ s) = (c ∷ s) ∷ []

-- The words behind `cur`, the part of a word already read.
pub words_from : Bytes → Bytes → List Bytes
words_from cur [] = flush cur
words_from cur (c ∷ s) =
    if c == b' ' then flush cur ++ words_from [] s else words_from (cur ++ (c ∷ [])) s

abbrev pub words : Bytes → List Bytes
words = words_from []

abbrev pub line_of : Bytes → StringLine
line_of w = record { val = some w; len = length w }

words_from-memchr :
    (s cur : Bytes) (n e : ℕ)
    → memchr s b' ' n ≡ some e
    → words_from cur s ≡ flush (cur ++ take e s) ++ words_from [] (drop (suc e) s)
unfolding memchr words_from
words_from-memchr s cur zero e h = absurd (ground arith)
words_from-memchr [] cur (suc n) e h = absurd (ground arith)
words_from-memchr (x ∷ s) cur (suc n) zero h = rw append-nil (ground arith)
words_from-memchr (x ∷ s) cur (suc n) (suc e) h =
    ground (arith, words_from-memchr s (cur ++ (x ∷ [])) n e, append_assoc cur (x ∷ []) (take e s))

words_from-none :
    (s cur : Bytes) (n : ℕ)
    → length s ≤ n
    → memchr s b' ' n ≡ none
    → words_from cur s ≡ flush (cur ++ s)
unfolding memchr words_from
words_from-none [] cur n h e = rw append-nil
words_from-none (x ∷ s) cur zero h e = absurd (omega arith)
words_from-none (x ∷ s) cur (suc n) h e =
    ground (arith, words_from-none s (cur ++ (x ∷ [])) n, append_assoc cur (x ∷ []) s)

split_loop_end : (fuel : ℕ) (s : Bytes) (len i : ℕ) → len ≤ i → split_loop fuel s len i ≡ []
unfolding split_loop
split_loop_end zero s len i h = refl
split_loop_end (suc fuel) s len i h = ground arith

flush_cons : (w : Bytes) → 0 < length w → flush w ≡ w ∷ []
flush_cons [] h = elim h [ ]
flush_cons (c ∷ w) h = refl

map-flush :
    (w : Bytes)
    → 0 < length w
    → (ws : List Bytes) → map line_of (flush w ++ ws) ≡ line_of w ∷ map line_of ws
map-flush [] h ws = elim h [ ]
map-flush (c ∷ w) h ws = refl

module _ (s : Bytes) (i : ℕ) (inside : i < length s) (fuel : ℕ) where
  split_loop_last :
      memchr (drop i s) b' ' (length s - i) ≡ none
      → split_loop (suc fuel) s (length s) i ≡ map line_of (words (drop i s))
  unfolding split_loop copy_substr
  split_loop_last n = ground (
    arith,
    char_search_pos (drop i s) b' ' (length s - i),
    words_from-none (drop i s) [] (length s - i),
    length-drop i s,
    split_loop_end fuel s (length s) (length s + 1),
    take_all (length s - i) (drop i s),
    flush_cons (drop i s),
  )

  module _ (k : ℕ) (found : memchr (drop i s) b' ' (length s - i) ≡ some k) where
    split_loop_space :
        k ≡ 0 → split_loop (suc fuel) s (length s) i ≡ split_loop fuel s (length s) (i + 1)
    unfolding split_loop
    split_loop_space z = ground (arith, char_search_pos (drop i s) b' ' (length s - i))

    split_loop_word :
        0 < k
        → split_loop (suc fuel) s (length s) i
          ≡ line_of (take k (drop i s)) ∷ split_loop fuel s (length s) (k + i + 1)
    unfolding split_loop copy_substr
    split_loop_word p =
        let first = memchr-IsFirst (drop i s) b' ' (length s - i) k found in
        let e : k + i - i ≡ k = omega arith in
        ground (
          arith,
          char_search_pos (drop i s) b' ' (length s - i),
          first.below,
          length-take k (drop i s),
          length-drop i s,
          e,
        )

split_loop-words :
    (fuel : ℕ) (s : Bytes) (i : ℕ)
    → length s < fuel + i
    → split_loop fuel s (length s) i ≡ map line_of (words (drop i s))
split_loop-words zero s i h =
    rw (split_loop_end zero s (length s) i (omega arith), drop_all i s (omega arith))
      (unfold words_from in refl)
split_loop-words (suc fuel) s i h = elim (Bool-cases (ltb i (length s))) [
  | inr e ↦
      rw (split_loop_end (suc fuel) s (length s) i (ground arith), drop_all i s (ground arith))
        (unfold words_from in refl)
  | inl e ↦ elim (Option-cases (memchr (drop i s) b' ' (length s - i))) [
    | inl n ↦ split_loop_last s i (ground arith) fuel n
    | inr (zero, n) ↦
        split_loop_space s i (ground arith) fuel zero n refl
        ∙ split_loop-words fuel s (i + 1) (omega arith)
        ∙ ap (map line_of) (sym (words_after zero (i + 1) (omega arith) n))
    | inr (suc k, n) ↦
        split_loop_word s i (ground arith) fuel (suc k) n (omega arith)
        ∙ ap (◌∷◌ (line_of (take (suc k) (drop i s))))
            (split_loop-words fuel s (suc k + i + 1) (omega arith))
        ∙ sym (
            ap (map line_of) (words_after (suc k) (suc k + i + 1) (omega arith) n)
            ∙ map-flush _ (taken k n) _)
  ]
]
  where
    words_after :
        (k m : ℕ)
        → suc k + i ≡ m
        → memchr (drop i s) b' ' (length s - i) ≡ some k
        → words (drop i s) ≡ flush (take k (drop i s)) ++ words (drop m s)
    words_after k m e n =
        words_from-memchr (drop i s) [] (length s - i) k n
        ∙ ap (λ r. flush (take k (drop i s)) ++ words r) (drop-drop (suc k) i m s e)

    taken :
        (k : ℕ)
        → memchr (drop i s) b' ' (length s - i) ≡ some (suc k)
        → 0 < length (take (suc k) (drop i s))
    taken k n =
        let first = memchr-IsFirst (drop i s) b' ' (length s - i) (suc k) n in
        omega (arith, length-take (suc k) (drop i s), length-drop i s, first.below)

-- A word is not empty and holds no space.
abbrev pub IsWord : Bytes → Type 0
IsWord w = (0 < length w) × All (λ c. c ≢ b' ') w

flush-IsWord : (cur : Bytes) → All (λ c. c ≢ b' ') cur → All IsWord (flush cur)
flush-IsWord [] h = tt
flush-IsWord (c ∷ s) h = ((omega arith, h), tt)

words_from-IsWord : (s cur : Bytes) → All (λ c. c ≢ b' ') cur → All IsWord (words_from cur s)
unfolding words_from
words_from-IsWord [] cur h = flush-IsWord cur h
words_from-IsWord (c ∷ s) cur h = elim (Bool-cases (c == b' ')) [
  | inl e ↦ rw e (All-append IsWord (flush cur) _ (flush-IsWord cur h) (words_from-IsWord s [] tt))
  | inr e ↦
      rw e (words_from-IsWord s (cur ++ (c ∷ [])) (All-append _ cur _ h ((λ q. ground arith), tt)))
]

-- mk_string_split_line returns, for any line, a node for each word of the line in order, with the
-- word's bytes and length. A word is not empty and holds no space.
pub split_line-words :
    (line : Bytes)
    → (split_line line ≡ map line_of (words (cstr line))) × All IsWord (words (cstr line))
unfolding split_line
split_line-words line = (
  split_loop-words (strlen line + 1) (cstr line) 0 (omega arith),
  words_from-IsWord (cstr line) [] tt,
)
