-- ===== src/Mime/Files.antt =====
-- mk_mimetype_find of src/mk_mimetype.c: the type of a file from the end of its name.
use monkey.Prelude.{
  ℕ, zero, suc, ◌+◌, ◌-◌, ◌≤◌, ◌≡◌, ◌≢◌, refl, sym, ap, subst, ◌∙◌, ◌⊎◌, inl, inr, true, false,
  none, some, List, [], ◌∷◌, ◌++◌, length, length-append, drop, get_or, All, arith, ◌==◌,
  Bool-cases,
}
use Prim.Native.Nat.{Ordering}
use monkey.Libc.{Bytes, strcmp, strcasecmp_eq}
use monkey.Mime.Order.{IsText, strcmp_eq, strcmp_refl}
use monkey.Mime.{
  Mimetype, MimeTables, common_find, or_else, mimetype_lookup, last_dot, mimetype_find,
}
use monkey.Mime.Lookup.{Sorted, Sorted-texts, Ordering-cases, linear, bsearch-linear}

-- The name behind the last dot of a file's name.
abbrev pub NoDot : Bytes → Type 0
NoDot = All (λ c. c ≢ b'.')

abbrev pub file_name : Bytes → Bytes → Bytes
file_name stem ext = stem ++ (b'.' ∷ ext)

NoDot-at : (ext : Bytes) (i : ℕ) → NoDot ext → get_or ext i 0 ≢ b'.'
NoDot-at [] i h e = ground (arith, e)
NoDot-at (c ∷ ext) zero h e = h.0 e
NoDot-at (c ∷ ext) (suc i) h e = NoDot-at ext i h.1 e

get_or_dot : (stem ext : Bytes) (k : ℕ) → k ≡ length stem → get_or (file_name stem ext) k 0 ≡ b'.'
get_or_dot [] ext zero e = refl
get_or_dot [] ext (suc k) e = absurd (omega (arith, e))
get_or_dot (c ∷ stem) ext zero e = absurd (omega (arith, e))
get_or_dot (c ∷ stem) ext (suc k) e = get_or_dot stem ext k (omega (arith, e))

get_or_behind :
    (stem ext : Bytes) (k i : ℕ)
    → k ≡ length stem + suc i
    → get_or (file_name stem ext) k 0 ≡ get_or ext i 0
get_or_behind [] ext zero i e = absurd (omega (arith, e))
get_or_behind [] ext (suc k) i e =
    let same : k ≡ i = omega (arith, e) in ap (λ j. get_or ext j 0) same
get_or_behind (c ∷ stem) ext zero i e = absurd (omega (arith, e))
get_or_behind (c ∷ stem) ext (suc k) i e = get_or_behind stem ext k i (omega (arith, e))

last_dot-file_name :
    (stem ext : Bytes) (k : ℕ)
    → NoDot ext
    → length stem ≤ k
    → last_dot (file_name stem ext) k ≡ some (length stem)
unfolding last_dot
last_dot-file_name stem ext zero h le =
    let here : 0 ≡ length stem = omega (arith, le) in
    let dot : (get_or (file_name stem ext) 0 0 == b'.') ≡ true =
      ground (arith, get_or_dot stem ext 0 here) in
    rw dot (ap some here)
last_dot-file_name stem ext (suc k) h le = elim (where_is) [
  | inl here ↦
      let dot : (get_or (file_name stem ext) (suc k) 0 == b'.') ≡ true =
        ground (arith, get_or_dot stem ext (suc k) here) in
      rw dot (ap some here)
  | inr below ↦
      let behind = get_or_behind stem ext (suc k) (k - length stem) (omega (arith, below)) in
      let no_dot : (get_or (file_name stem ext) (suc k) 0 == b'.') ≡ false =
        ground (arith, behind, NoDot-at ext (k - length stem) h) in
      rw no_dot (last_dot-file_name stem ext k h below)
]
  where
    where_is : (suc k ≡ length stem) ⊎ (length stem ≤ k)
    where_is = ground (arith, le)

-- What the tables say of the end of a file's name: the first common type with the name in whatever case,
-- or else the type of the other table with exactly that name.
abbrev pub CommonType : MimeTables → Bytes → Mimetype → Type 0
CommonType t ext m =
    (front : List Mimetype) × (back : List Mimetype) × (t.mimecommon ≡ front ++ (m ∷ back))
    × (strcasecmp_eq ext m.name ≡ true)
    × All (λ n. strcasecmp_eq ext n.name ≡ false) front

abbrev pub NoCommonType : MimeTables → Bytes → Type 0
NoCommonType t ext = All (λ n. strcasecmp_eq ext n.name ≡ false) t.mimecommon

abbrev pub OtherType : MimeTables → Bytes → Mimetype → Type 0
OtherType t ext m =
    (front : List Mimetype) × (back : List Mimetype) × (t.mimearr ≡ front ++ (m ∷ back))
    × (m.name ≡ ext)

common_find-cases :
    (ext : Bytes) (l : List Mimetype)
    → ((m : Mimetype) × (common_find ext l ≡ some m)
        × (front : List Mimetype) × (back : List Mimetype) × (l ≡ front ++ (m ∷ back))
        × (strcasecmp_eq ext m.name ≡ true)
        × All (λ n. strcasecmp_eq ext n.name ≡ false) front)
      ⊎ ((common_find ext l ≡ none) × All (λ n. strcasecmp_eq ext n.name ≡ false) l)
unfolding common_find
common_find-cases ext [] = inr (refl, tt)
common_find-cases ext (n ∷ l) = elim (Bool-cases (strcasecmp_eq ext n.name)) [
  | inl e ↦ inl (n, rw e refl, [], l, refl, e, tt)
  | inr e ↦ elim (common_find-cases ext l) [
    | inl (m, f, front, back, p, q, o) ↦ inl (m, rw e f, n ∷ front, back, ap (◌∷◌ n) p, q, (e, o))
    | inr (f, o) ↦ inr (rw e f, (e, o))
  ]
]

linear-cases :
    (ext : Bytes) (l : List Mimetype)
    → IsText ext
    → All (λ n. IsText n.name) l
    → ((m : Mimetype) × (linear ext l ≡ some m)
        × (front : List Mimetype) × (back : List Mimetype) × (l ≡ front ++ (m ∷ back))
        × (m.name ≡ ext))
      ⊎ ((linear ext l ≡ none) × All (λ n. n.name ≢ ext) l)
unfolding linear
linear-cases ext [] t u = inr (refl, tt)
linear-cases ext (n ∷ l) t u = elim (Ordering-cases (strcmp ext n.name)) [
  | inl e ↦
      further (linear-cases ext l t u.1) (rw (e, linear) refl) (λ s. ground (arith, e, apart s))
  | inr (inl e) ↦ inl (n, rw (e, linear) refl, [], l, refl, sym (strcmp_eq ext n.name t u.0 e))
  | inr (inr e) ↦
      further (linear-cases ext l t u.1) (rw (e, linear) refl) (λ s. ground (arith, e, apart s))
]
  where
    apart : n.name ≡ ext → strcmp ext n.name ≡ Ordering.eq
    apart s = subst (λ x. strcmp ext x ≡ Ordering.eq) (sym s) (strcmp_refl ext)

    further :
        ((m : Mimetype) × (linear ext l ≡ some m)
            × (front : List Mimetype) × (back : List Mimetype) × (l ≡ front ++ (m ∷ back))
            × (m.name ≡ ext))
          ⊎ ((linear ext l ≡ none) × All (λ n. n.name ≢ ext) l)
        → linear ext (n ∷ l) ≡ linear ext l
        → n.name ≢ ext
        → ((m : Mimetype) × (linear ext (n ∷ l) ≡ some m)
            × (front : List Mimetype) × (back : List Mimetype) × (n ∷ l ≡ front ++ (m ∷ back))
            × (m.name ≡ ext))
          ⊎ ((linear ext (n ∷ l) ≡ none) × All (λ n. n.name ≢ ext) (n ∷ l))
    further (inl (m, f, front, back, p, q)) e s = inl (m, e ∙ f, n ∷ front, back, ap (◌∷◌ n) p, q)
    further (inr (f, o)) e s = inr (e ∙ f, (s, o))

drop_behind : (stem ext : Bytes) (k : ℕ) → k ≡ length stem + 1 → drop k (file_name stem ext) ≡ ext
drop_behind [] ext zero e = absurd (omega (arith, e))
drop_behind [] ext (suc zero) e = refl
drop_behind [] ext (suc (suc k)) e = absurd (omega (arith, e))
drop_behind (c ∷ stem) ext zero e = absurd (omega (arith, e))
drop_behind (c ∷ stem) ext (suc k) e = drop_behind stem ext k (omega (arith, e))

module _ (t : MimeTables) (c : ℕ) (stem ext : Bytes) (no_dot : NoDot ext) (text : IsText ext)
    (sorted : Sorted t.mimearr) where
  find-lookup :
      mimetype_find t (file_name (c ∷ stem) ext) (length (file_name (c ∷ stem) ext))
      ≡ mimetype_lookup t ext
  unfolding mimetype_find
  find-lookup =
      let n = length (file_name (c ∷ stem) ext) in
      let le : length (c ∷ stem) ≤ n = omega (arith, length-append (c ∷ stem) (b'.' ∷ ext)) in
      let dot = last_dot-file_name (c ∷ stem) ext n no_dot le in
      rw (dot, mimetype_find)
        (ap (mimetype_lookup t) (drop_behind (c ∷ stem) ext (suc (length stem) + 1) refl))

  lookup-linear :
      mimetype_lookup t ext ≡ or_else (common_find ext t.mimecommon) (linear ext t.mimearr)
  unfolding mimetype_lookup
  lookup-linear =
      ap (or_else (common_find ext t.mimecommon))
        (bsearch-linear (length t.mimearr + 1) ext t.mimearr text sorted (omega arith))

  -- The type of a file whose name has a dot, and not in front, is that of the part behind its last dot: the first
  -- of the common types with that name in whatever case; or, when there is none, the type with exactly
  -- that name in the other table; or none. This holds when the other table is sorted by names that are distinct
  -- and hold no NUL, and the part holds no NUL.
  pub mimetype_find-ByName :
      ((m : Mimetype) × CommonType t ext m
        × (mimetype_find t (file_name (c ∷ stem) ext) (length (file_name (c ∷ stem) ext)) ≡ some m))
      ⊎ (NoCommonType t ext
          × (((m : Mimetype) × OtherType t ext m
                × (mimetype_find t (file_name (c ∷ stem) ext) (length (file_name (c ∷ stem) ext))
                    ≡ some m))
              ⊎ (All (λ n. n.name ≢ ext) t.mimearr
                  × (mimetype_find t (file_name (c ∷ stem) ext) (length (file_name (c ∷ stem) ext))
                      ≡ none))))
  mimetype_find-ByName =
      let e = find-lookup ∙ lookup-linear in
      elim (common_find-cases ext t.mimecommon) [
        | inl (m, f, front, back, p, q, o) ↦
            inl (m, (front, back, p, q, o), e ∙ ap (λ a. or_else a (linear ext t.mimearr)) f)
        | inr (f, o) ↦
            let g = e ∙ ap (λ a. or_else a (linear ext t.mimearr)) f in
            elim (linear-cases ext t.mimearr text (Sorted-texts t.mimearr sorted)) [
              | inl (m, h, front, back, p, q) ↦ inr (o, inl (m, (front, back, p, q), g ∙ h))
              | inr (h, q) ↦ inr (o, inr (q, g ∙ h))
            ]
      ]
