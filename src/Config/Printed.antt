-- ===== src/Config/Printed.antt =====
-- The lines of a configuration file, and what mk_config_create of src/mk_config.c takes from the text of one.
use monkey.Prelude.{
  ◌≤◌, ℕ, zero, suc, ◌+◌, ◌-◌, ◌<◌, ◌≡◌, ◌≢◌, refl, ap, inl, inr, true, false, ◌&&◌, some, List, [],
  ◌∷◌, ◌++◌, length, length-append, take, take_all, drop, get_or, All, All-append, arith, ltb, ◌==◌,
  if◌then◌else◌, pos, Bool-cases, position, ltb_ℤ,
}
use monkey.Libc.{Bytes, codes, cstr, memchr, isspace}
use monkey.Text.{char_search, copy_substr, string_trim, trim_left, trim_right}
use monkey.Config.{
  buf_size, pair, Entry, Reader, goes, strip_line, section_add, read_section, key_val, without_last,
  last_is,
}

-- The indentation of four spaces.
abbrev pub four : Bytes
four = codes "    "

abbrev pub section_text : Bytes → Bytes
section_text name = b'[' ∷ name ++ (b']' ∷ [])

abbrev pub entry_text : Entry → Bytes
entry_text e = four ++ (e.key ++ (32 ∷ e.val))

-- A line with its line feed.
abbrev pub line_of : Bytes → Bytes
line_of text = text ++ (10 ∷ [])

-- A byte that does not end a line or a string.
abbrev pub InLine : ℕ → Type 0
InLine c = (c ≢ 0) × (c ≢ 10) × (c ≢ 13)

pub record IsName (name : Bytes) : Type 0 where
  pub bytes : All InLine name
  pub no_bracket : All (λ c. c ≢ b']') name

-- A key is not empty, has no white space and does not begin with a number sign.
pub record IsKey (key : Bytes) : Type 0 where
  pub bytes : All InLine key
  pub no_space : All (λ c. isspace c ≡ false) key
  pub some_byte : 0 < length key
  pub no_comment : get_or key 0 0 ≢ b'#'

-- A value has no white space at its ends.
pub record IsVal (val : Bytes) : Type 0 where
  pub bytes : All InLine val
  pub trimmed : (string_trim (some val)).0 ≡ some val

-- What is copied from behind the key, as long as the line, lies within the buffer.
abbrev pub Copies : Entry → Type 0
Copies e = length e.key + length (entry_text e) ≤ buf_size

abbrev pub IsEntry : Entry → Type 0
IsEntry e = IsKey e.key × IsVal e.val × Copies e

module _ {ℓ} {A : Type ℓ} where
  take_front : (xs ys : List A) → take (length xs) (xs ++ ys) ≡ xs
  take_front [] ys = refl
  take_front (x ∷ xs) ys = ap (◌∷◌ x) (take_front xs ys)

  drop_front : (xs ys : List A) → drop (length xs) (xs ++ ys) ≡ ys
  drop_front [] ys = refl
  drop_front (x ∷ xs) ys = drop_front xs ys

  get_or_front : (xs ys : List A) (d : A) → get_or (xs ++ ys) (length xs) d ≡ get_or ys 0 d
  get_or_front [] ys d = refl
  get_or_front (x ∷ xs) ys d = get_or_front xs ys d

-- The last byte of a list satisfies what all bytes do.
last_All : (P : ℕ → Type 0) (s : Bytes) (k : ℕ) → All P s → length s ≡ suc k → P (get_or s k 0)
last_All P [] k h e = absurd (omega (arith, e))
last_All P (c ∷ s) zero h e = h.0
last_All P (c ∷ s) (suc k) h e = last_All P s k h.1 (omega (arith, e))

cstr_whole : (s : Bytes) → All (λ c. c ≢ 0) s → cstr s ≡ s
unfolding cstr
cstr_whole [] h = refl
cstr_whole (c ∷ s) h = ground (arith, h.0, cstr_whole s h.1)

no_nul : (s : Bytes) → All InLine s → All (λ c. c ≢ 0) s
no_nul [] h = tt
no_nul (c ∷ s) h = (h.0.0, no_nul s h.1)

pub cstr-line_of : (s : Bytes) → All InLine s → cstr (line_of s) ≡ line_of s
cstr-line_of s h =
    cstr_whole (line_of s)
      (All-append (λ c. c ≢ 0) s (10 ∷ []) (no_nul s h) (λ e. ground arith, tt))

pub strip_line-line_of : (s : Bytes) → All InLine s → strip_line (line_of s) ≡ s
unfolding strip_line
strip_line-line_of s h =
    let longer : length (line_of s) ≡ length s + 1 = length-append s (10 ∷ []) in
    let at : length (line_of s) - 1 ≡ length s = omega (arith, longer) in
    let is_last : last_is 10 (line_of s) ≡ true =
      rw at (ground (arith, longer, get_or_front s (10 ∷ []) 0)) in
    let front : without_last (line_of s) ≡ s = rw at (take_front s (10 ∷ [])) in
    rw (is_last, front) (kept s h)
  where
    kept : (s : Bytes) → All InLine s → (if last_is 13 s then without_last s else s) ≡ s
    kept s h = elim (Bool-cases (ltb 0 (length s))) [
      | inl e ↦ ground (arith, (last_All InLine s (length s - 1) h (ground arith)).2)
      | inr e ↦ ground arith
    ]

-- The first position of a byte that does not stand before.
memchr_behind :
    (s rest : Bytes) (c n : ℕ)
    → All (λ d. d ≢ c) s
    → length s < n
    → memchr (s ++ (c ∷ rest)) c n ≡ some (length s)
unfolding memchr
memchr_behind [] rest c (suc n) h k = ground arith
memchr_behind [] rest c zero h k = elim k [ ]
memchr_behind (x ∷ s) rest c zero h k = elim k [ ]
memchr_behind (x ∷ s) rest c (suc n) h k =
    ground (arith, memchr_behind s rest c n h.1 (omega arith), h.0)

char_search_behind :
    (s rest : Bytes) (c n : ℕ)
    → All (λ d. d ≢ c) s
    → length s < n
    → char_search (s ++ (c ∷ rest)) c (pos n) ≡ pos (length s)
unfolding char_search
char_search_behind s rest c n h k =
    let small : ltb_ℤ (pos n) (pos 0) ≡ false = ground arith in
    rw small (ap position (memchr_behind s rest c n h k))

pub read_section-section_text :
    (name : Bytes) (r : Reader)
    → IsName name
    → (r.has_current && r.n_keys == 0) ≡ false
    → read_section (section_text name) r
      ≡ goes (record r { sections = section_add name r.sections; has_current = true; n_keys = 0 })
unfolding read_section copy_substr
read_section-section_text name r h g =
    let longer = length-append name (b']' ∷ []) in
    let found : char_search (section_text name) b']' (pos (length (section_text name)))
        ≡ pos (suc (length name)) =
      char_search_behind (b'[' ∷ name) [] b']' (length (section_text name))
        ((λ e. ground arith), h.no_bracket) (omega (arith, longer)) in
    let some_end : (suc (length name) == 0) ≡ false = ground arith in
    let copied : copy_substr (section_text name) 1 (suc (length name)) ≡ some name =
      (let in_order : ltb (suc (length name)) 1 ≡ false = ground arith in
        let size : suc (length name) - 1 ≡ length name = omega arith in
        rw (in_order, size) (ap some (take_front name (b']' ∷ [])))) in
    rw (found, read_section) (rw (some_end, g) (rw copied refl))

no_blank : (s : Bytes) → All (λ c. isspace c ≡ false) s → All (λ c. c ≢ 32) s
unfolding isspace
no_blank [] h = tt
no_blank (c ∷ s) h = ((λ e. ground (arith, h.0, e)), no_blank s h.1)

trim_left_none : (s : Bytes) → All (λ c. isspace c ≡ false) s → trim_left s ≡ 0
unfolding trim_left
trim_left_none [] h = refl
trim_left_none (c ∷ s) h = rw h.0 refl

trim_right_none : (s : Bytes) (r : ℕ) → isspace (get_or s r 0) ≡ false → trim_right s r ≡ r
unfolding trim_right
trim_right_none s zero h = refl
trim_right_none s (suc r) h = rw h refl

string_trim_key : (key : Bytes) → IsKey key → (string_trim (some key)).0 ≡ some key
unfolding string_trim
string_trim_key key h =
    let last =
      last_All (λ c. isspace c ≡ false) key (length key - 1) h.no_space
        (omega (arith, h.some_byte)) in
    let right = trim_right_none key (length key - 1) last in
    let left = trim_left_none key h.no_space in
    let some_len : (length key == 0) ≡ false = ground (arith, h.some_byte) in
    let in_order : ltb (length key - 1) 0 ≡ false = ground arith in
    rw (cstr_whole key (no_nul key h.bytes)) (
      rw (some_len, left, right)
        (rw in_order (ap some (take_all (length key - 1 - 0 + 1) key (omega arith)))))

-- The key is found in front of the first space.
pub key_val-text :
    (e : Entry) → IsEntry e → key_val (buf_size - length four) (e.key ++ (32 ∷ e.val)) ≡ pair e
unfolding key_val copy_substr
key_val-text e h =
    let text = e.key ++ (32 ∷ e.val) in
    let longer : length text ≡ length e.key + suc (length e.val) =
      length-append e.key (32 ∷ e.val) in
    let found : char_search text 32 (pos (length text)) ≡ pos (length e.key) =
      char_search_behind e.key e.val 32 (length text) (no_blank e.key h.0.no_space)
        (omega (arith, longer)) in
    let key_copied : copy_substr text 0 (length e.key) ≡ some e.key =
      (let in_order : ltb (length e.key) 0 ≡ false = ground arith in
        let size : length e.key - 0 ≡ length e.key = omega arith in
        rw (in_order, size) (ap some (take_front e.key (32 ∷ e.val)))) in
    let val_copied : copy_substr (drop (length e.key) text) 1 (length text) ≡ some e.val =
      (let in_order : ltb (length text) 1 ≡ false = ground (arith, longer) in
        rw in_order (
          rw (drop_front e.key (32 ∷ e.val))
            (ap some (take_all (length text - 1) e.val (omega (arith, longer)))))) in
    let inside : ltb (buf_size - length four) (length e.key + length text) ≡ false =
      ground (arith, h.2) in
    rw (found, inside, key_val)
      (rw key_copied (rw val_copied (rw (string_trim_key e.key h.0, h.1.trimmed) refl)))
