-- ===== src/Request/Line.antt =====
-- The parts of a request that mk_request_header_process of src/mk_request.c takes from its text.
use monkey.Prelude.{true}
use monkey.Prelude.{
  ℕ, zero, suc, ◌+◌, ◌-◌, ◌<◌, ◌≤◌, ◌≡◌, ◌≢◌, refl, sym, ap, ◌∙◌, ◌⊎◌, inl, inr, ◌&&◌, none, some,
  [], ◌∷◌, drop, get_elem?, get_elem?-drop, drop-drop, arith, ltb, leb, ◌==◌, if◌then◌else◌, pos,
  leb_ℤ, ◌+ℤ◌, ◌-ℤ◌, Bool-cases, Option-cases,
}
use monkey.Libc.{Bytes, cstr, strlen, index, memchr, memrchr}
use monkey.Libc.Find.{IsFirst, IsLast, memchr-IsFirst, memchr-Absent, memrchr-IsLast}
use monkey.Text.{char_search, char_search_r}
use monkey.Types.{Pointer}
use monkey.Request.Header.{uri_bounds, split_query, pointer_create}

-- The length up to which the last space is searched.
abbrev pub search_to : Bytes → ℕ → ℕ
search_to text fh_limit = if leb_ℤ (pos fh_limit) (pos 0) then strlen text else fh_limit

-- The URI of a first line that ends at `fh_limit`: it stands between the first space of the text and
-- the last one of the line, and it is not empty.
pub record IsUri (text : Bytes) (fh_limit uri_init uri_end : ℕ) : Type 0 where
  pub ordered : (0 < uri_init) × (uri_init ≤ uri_end)
  pub first_space : IsFirst (cstr text) b' ' (strlen text) (uri_init - 1)
  pub last_space : IsLast text b' ' (search_to text fh_limit) (uri_end + 1)

get_elem?-cstr : (s : Bytes) (i : ℕ) → i < strlen s → get_elem? (cstr s) i ≡ get_elem? s i
unfolding cstr
get_elem?-cstr [] i lt = refl
get_elem?-cstr (c ∷ s) zero lt = ground arith
get_elem?-cstr (c ∷ s) (suc i) lt = elim (Bool-cases (c == 0)) [
  | inl z ↦ absurd (ground arith)
  | inr nz ↦ rw nz (get_elem?-cstr s i (ground arith))
]

bounds_at :
    (text : Bytes) (fh_limit k q : ℕ) {a b : ℕ}
    → index text b' ' ≡ some k
    → memrchr text b' ' (search_to text fh_limit) ≡ some q
    → uri_bounds text fh_limit ≡ some (a, b)
    → (a ≡ k + 1) × (b + 1 ≡ q) × (a ≤ b)
unfolding uri_bounds char_search_r ◌+ℤ◌ ◌-ℤ◌
bounds_at text fh_limit k q e f h = ground arith

no_last :
    (text : Bytes) (fh_limit : ℕ) {a b : ℕ}
    → memrchr text b' ' (search_to text fh_limit) ≡ none
    → uri_bounds text fh_limit ≢ some (a, b)
unfolding uri_bounds char_search_r ◌+ℤ◌ ◌-ℤ◌
no_last text fh_limit f h = ground arith

within :
    (text : Bytes) (fh_limit q : ℕ)
    → index text b'\n' ≡ some fh_limit
    → q < search_to text fh_limit
    → q < strlen text
within text fh_limit q nl lt =
    let below = (memchr-IsFirst (cstr text) b'\n' (strlen text) fh_limit nl).below in
    ground (arith, below)

pub uri_bounds-IsUri :
    (text : Bytes) (fh_limit uri_init uri_end : ℕ)
    → index text b'\n' ≡ some fh_limit
    → uri_bounds text fh_limit ≡ some (uri_init, uri_end)
    → IsUri text fh_limit uri_init uri_end
uri_bounds-IsUri text fh_limit uri_init uri_end nl e =
    elim (Option-cases (memrchr text b' ' (search_to text fh_limit))) [
      | inl f ↦ absurd (no_last text fh_limit f e)
      | inr (q, f) ↦
          let last = memrchr-IsLast text b' ' (search_to text fh_limit) q f in
          let inside = within text fh_limit q nl last.below in
          elim (Option-cases (index text b' ')) [
            | inl g ↦ absurd (
                memchr-Absent (cstr text) b' ' (strlen text) g q inside
                  (get_elem?-cstr text q inside ∙ last.holds))
            | inr (k, g) ↦
                let (a, b, le) = bounds_at text fh_limit k q g f e in
                let first = memchr-IsFirst (cstr text) b' ' (strlen text) k g in
                let at : k ≡ uri_init - 1 = omega (arith, a) in
                record {
                  ordered = (omega (arith, a), le);
                  first_space = rw (sym at) first;
                  last_space = rw b last;
                }
          ]
    ]

-- What splits a query off a URI from `uri_init` to `uri_end`: the first question mark, unless the URI
-- begins with one.
pub data IsSplit (text : Bytes) (uri_init uri_end : ℕ) (query_string : Pointer)
    : Pointer × ℕ → Type 0 where
  whole :
      (get_elem? text uri_init ≡ some b'?')
        ⊎ ((j : ℕ) → uri_init ≤ j → j ≤ uri_end → get_elem? text j ≢ some b'?')
      → IsSplit text uri_init uri_end query_string (query_string, uri_end)
  parts :
      (q : ℕ)
      → uri_init < q
      → q ≤ uri_end
      → get_elem? text q ≡ some b'?'
      → ((j : ℕ) → uri_init ≤ j → j < q → get_elem? text j ≢ some b'?')
      → IsSplit text uri_init uri_end query_string
          (pointer_create text (q + 1) (uri_end + 1), q - 1)

split_query_at :
    (text : Bytes) (uri_init uri_end k : ℕ) (query_string : Pointer)
    → memchr (drop uri_init text) b'?' (uri_end + 2) ≡ some k
    → split_query text uri_init uri_end query_string ≡ (
        if ltb 0 k && leb (k + uri_init) uri_end
        then (pointer_create text (k + uri_init + 1) (uri_end + 1), k + uri_init - 1)
        else (query_string, uri_end))
unfolding split_query char_search
split_query_at text uri_init uri_end k query_string e = ground arith

split_query-none :
    (text : Bytes) (uri_init uri_end : ℕ) (query_string : Pointer)
    → memchr (drop uri_init text) b'?' (uri_end + 2) ≡ none
    → split_query text uri_init uri_end query_string ≡ (query_string, uri_end)
unfolding split_query char_search
split_query-none text uri_init uri_end query_string e = ground arith

get_elem?-drop_at : (i j : ℕ) (s : Bytes) → get_elem? (drop i s) j ≡ get_elem? s (j + i)
get_elem?-drop_at i j s =
    sym (get_elem?-drop j (drop i s))
    ∙ ap (λ t. get_elem? t 0) (drop-drop j i (j + i) s refl)
    ∙ get_elem?-drop (j + i) s

absent_at :
    (text : Bytes) (i j : ℕ) {c : ℕ}
    → get_elem? (drop i text) (j - i) ≢ some c
    → i ≤ j
    → get_elem? text j ≢ some c
absent_at text i j h le here =
    let at : j - i + i ≡ j = omega arith in
    h (get_elem?-drop_at i (j - i) text ∙ ap (get_elem? text) at ∙ here)

pub split_query-IsSplit :
    (text : Bytes) (uri_init uri_end : ℕ) (query_string : Pointer)
    → IsSplit text uri_init uri_end query_string (split_query text uri_init uri_end query_string)
split_query-IsSplit text uri_init uri_end query_string =
    elim (Option-cases (memchr (drop uri_init text) b'?' (uri_end + 2))) [
      | inl n ↦ rw (split_query-none text uri_init uri_end query_string n) (
          whole (
            inr (λ j ge le.
              absent_at text uri_init j
                (memchr-Absent (drop uri_init text) b'?' (uri_end + 2) n (j - uri_init)
                  (omega arith))
                ge)))
      | inr (k, e) ↦
          let first = memchr-IsFirst (drop uri_init text) b'?' (uri_end + 2) k e in
          rw (split_query_at text uri_init uri_end k query_string e)
            (elim (Bool-cases (ltb 0 k && leb (k + uri_init) uri_end)) [
              | inr no_query ↦ rw no_query (
                  whole (elim (Bool-cases (ltb 0 k)) [
                    | inr at_start ↦
                        let z : k + uri_init ≡ uri_init = ground arith in
                        inl (
                          ap (get_elem? text) (sym z)
                          ∙ sym (get_elem?-drop_at uri_init k text)
                          ∙ first.holds)
                    | inl behind ↦ inr (λ j ge le.
                        absent_at text uri_init j (first.before (j - uri_init) (ground arith)) ge)
                  ]))
              | inl query ↦ rw query (
                  parts (k + uri_init) (ground arith) (ground arith)
                    (sym (get_elem?-drop_at uri_init k text) ∙ first.holds)
                    (λ j ge lt.
                      absent_at text uri_init j (first.before (j - uri_init) (omega arith)) ge))
            ])
    ]

-- If the first question mark of a URI is its last byte, and not its first, the query string has one byte, the
-- one behind the URI, and the URI ends before the question mark.
pub split_query_empty :
    (text : Bytes) (uri_init uri_end k : ℕ) (query_string : Pointer)
    → memchr (drop uri_init text) b'?' (uri_end + 2) ≡ some k
    → 0 < k
    → k + uri_init ≡ uri_end
    → ((split_query text uri_init uri_end query_string).0.data_at ≡ some (drop (uri_end + 1) text))
      × ((split_query text uri_init uri_end query_string).0.len ≡ 1)
      × ((split_query text uri_init uri_end query_string).1 + 1 ≡ uri_end)
unfolding pointer_create
split_query_empty text uri_init uri_end k query_string e positive at =
    let inside : (ltb 0 k && leb (k + uri_init) uri_end) ≡ true = ground arith in
    rw (split_query_at text uri_init uri_end k query_string e, inside)
      (ap (λ n. some (drop (n + 1) text)) at, ground arith, omega arith)
