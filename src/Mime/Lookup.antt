-- ===== src/Mime/Lookup.antt =====
-- The binary search of mk_mimetype_lookup in src/mk_mimetype.c against a linear one.
use Prim.Native.Nat.{Ordering}
use monkey.Prelude.{
  ℕ, zero, suc, ◌/◌, ◌<◌, ◌≡◌, ◌≢◌, refl, sym, ◌∙◌, ap, subst, ◌⊎◌, inl, inr, Option, none, some,
  List, [], ◌∷◌, ◌++◌, length, take, drop, length-take, length-drop, take-append-drop, All, arith,
}
use monkey.Libc.{bsearch, Bytes, strcmp}
use monkey.Mime.Order.{IsText, strcmp_eq, strcmp_refl, strcmp_flip, strcmp_trans}
use monkey.Mime.{Mimetype, mime_cmp}

-- The first entry with the name.
unfoldable pub linear : Bytes → List Mimetype → Option Mimetype
linear name [] = none
linear name (m ∷ table) = elim (strcmp name m.name) [ Ordering.eq ↦ some m | _ ↦ linear name table ]

abbrev pub IsBelow : Mimetype → Mimetype → Type 0
IsBelow m n = strcmp m.name n.name ≡ Ordering.lt

-- A table as qsort leaves it, with names that are distinct and hold no NUL.
abbrev pub Sorted : List Mimetype → Type 0
Sorted [] = Unit
Sorted (m ∷ table) = IsText m.name × All (IsBelow m) table × Sorted table

-- Where no entry has the name, the search goes on behind.
abbrev Misses : Bytes → Mimetype → Type 0
Misses name m = strcmp name m.name ≢ Ordering.eq

linear-append :
    (name : Bytes) (l r : List Mimetype)
    → All (Misses name) l
    → linear name (l ++ r) ≡ linear name r
unfolding linear
linear-append name [] r h = refl
linear-append name (m ∷ l) r h = ground (arith, h.0, linear-append name l r h.1)

linear-none : (name : Bytes) (l : List Mimetype) → All (Misses name) l → linear name l ≡ none
unfolding linear
linear-none name [] h = refl
linear-none name (m ∷ l) h = ground (arith, h.0, linear-none name l h.1)

linear-front :
    (name : Bytes) (l r : List Mimetype)
    → All (Misses name) r
    → linear name (l ++ r) ≡ linear name l
unfolding linear
linear-front name [] r h = linear-none name r h
linear-front name (m ∷ l) r h = ground (arith, linear-front name l r h)

-- What sorting says of the two parts of a table.
record Parts (l : List Mimetype) (m : Mimetype) (r : List Mimetype) : Type 0 where
  left : Sorted l
  right : Sorted r
  text : IsText m.name
  left_texts : All (λ n. IsText n.name) l
  right_texts : All (λ n. IsText n.name) r
  below : All (λ n. IsBelow n m) l
  above : All (IsBelow m) r

pub Sorted-texts : (l : List Mimetype) → Sorted l → All (λ n. IsText n.name) l
Sorted-texts [] h = tt
Sorted-texts (m ∷ l) h = (h.0, Sorted-texts l h.2)

All-left : (P : Mimetype → Type 0) (l r : List Mimetype) → All P (l ++ r) → All P l
All-left P [] r h = tt
All-left P (m ∷ l) r h = (h.0, All-left P l r h.1)

All-middle :
    (P : Mimetype → Type 0) (l r : List Mimetype) (m : Mimetype) → All P (l ++ (m ∷ r)) → P m
All-middle P [] r m h = h.0
All-middle P (n ∷ l) r m h = All-middle P l r m h.1

Sorted-Parts : (l r : List Mimetype) (m : Mimetype) → Sorted (l ++ (m ∷ r)) → Parts l m r
Sorted-Parts [] r m h = record {
  left = tt;
  right = h.2;
  text = h.0;
  left_texts = tt;
  right_texts = Sorted-texts r h.2;
  below = tt;
  above = h.1;
}
Sorted-Parts (n ∷ l) r m h =
    let p = Sorted-Parts l r m h.2 in
    record {
      left = (h.0, All-left (IsBelow n) l (m ∷ r) h.1, p.left);
      right = p.right;
      text = p.text;
      left_texts = (h.0, p.left_texts);
      right_texts = p.right_texts;
      below = (All-middle (IsBelow n) l r m h.1, p.below);
      above = p.above;
    }

-- A name below the middle is not behind it, and one above not in front of it.
Misses-above :
    (name : Bytes) (m : Mimetype) (r : List Mimetype)
    → IsText name
    → IsText m.name
    → All (λ n. IsText n.name) r
    → strcmp name m.name ≡ Ordering.lt
    → All (IsBelow m) r
    → All (Misses name) r
Misses-above name m [] t u v e h = tt
Misses-above name m (n ∷ r) t u v e h = (
  λ q. ground (arith, strcmp_trans name m.name n.name t u v.0 e h.0),
  Misses-above name m r t u v.1 e h.1,
)

Misses-lower :
    (name : Bytes) (l : List Mimetype)
    → All (λ n. strcmp n.name name ≡ Ordering.lt) l
    → IsText name
    → All (λ n. IsText n.name) l
    → All (Misses name) l
Misses-lower name [] h t u = tt
Misses-lower name (n ∷ l) h t u = (
  λ q.
      let same = strcmp_eq name n.name t u.0 q in
      ground (arith, strcmp_refl name, subst (λ x. strcmp x name ≡ Ordering.lt) (sym same) h.0),
  Misses-lower name l h.1 t u.1,
)

lower_trans :
    (name : Bytes) (m : Mimetype) (l : List Mimetype)
    → IsText name
    → IsText m.name
    → All (λ n. IsText n.name) l
    → strcmp m.name name ≡ Ordering.lt
    → All (λ n. IsBelow n m) l
    → All (λ n. strcmp n.name name ≡ Ordering.lt) l
lower_trans name m [] t u v e h = tt
lower_trans name m (n ∷ l) t u v e h =
    (strcmp_trans n.name m.name name v.0 u t h.0 e, lower_trans name m l t u v.1 e h.1)

pub Ordering-cases : (o : Ordering) → (o ≡ Ordering.lt) ⊎ ((o ≡ Ordering.eq) ⊎ (o ≡ Ordering.gt))
Ordering-cases Ordering.lt = inl refl
Ordering-cases Ordering.eq = inr (inl refl)
Ordering-cases Ordering.gt = inr (inr refl)

module _ (name : Bytes) (t : IsText name) (l r : List Mimetype) (m : Mimetype)
    (p : Parts l m r) where
  linear-here : strcmp name m.name ≡ Ordering.eq → linear name (l ++ (m ∷ r)) ≡ some m
  unfolding linear
  linear-here e =
      let same = strcmp_eq name m.name t p.text e in
      let lower : All (λ n. strcmp n.name name ≡ Ordering.lt) l =
        subst (λ x. All (λ n. strcmp n.name x ≡ Ordering.lt) l) (sym same) p.below in
      linear-append name l (m ∷ r) (Misses-lower name l lower t p.left_texts) ∙ rw (e, linear) refl

  linear-left : strcmp name m.name ≡ Ordering.lt → linear name (l ++ (m ∷ r)) ≡ linear name l
  linear-left e =
      linear-front name l (m ∷ r)
        (λ q. ground arith, Misses-above name m r t p.text p.right_texts e p.above)

  linear-right : strcmp name m.name ≡ Ordering.gt → linear name (l ++ (m ∷ r)) ≡ linear name r
  unfolding linear
  linear-right e =
      linear-append name l (m ∷ r) (
        Misses-lower name l
          (lower_trans name m l t p.text p.left_texts (strcmp_flip name m.name t p.text e) p.below)
          t p.left_texts)
      ∙ rw (e, linear) refl

module _ (fuel : ℕ) (name : Bytes) (table above : List Mimetype) (m : Mimetype)
    (d : drop (length table / 2) table ≡ m ∷ above) where
  abbrev below : List Mimetype
  below = take (length table / 2) table

  parted : table ≡ below ++ (m ∷ above)
  parted = sym (ap (λ r. below ++ r) (sym d) ∙ take-append-drop (length table / 2) table)

  length-above : length above < length table
  length-above = omega (arith, ap length d, length-drop (length table / 2) table)

  length-below : length below < length table
  length-below = omega (
    arith,
    ap length d,
    length-drop (length table / 2) table,
    length-take (length table / 2) table,
  )

  -- One round of the search, when the searches of both halves are right.
  bsearch-round :
      IsText name
      → Sorted table
      → (bsearch (mime_cmp name) fuel below ≡ linear name below)
      → (bsearch (mime_cmp name) fuel above ≡ linear name above)
      → bsearch (mime_cmp name) (suc fuel) table ≡ linear name table
  unfolding bsearch
  bsearch-round t s f g =
      let p = Sorted-Parts below above m (subst Sorted parted s) in
      let whole = ap (linear name) parted in
      elim (Ordering-cases (strcmp name m.name)) [
        | inl e ↦ rw (d, e, bsearch) (f ∙ sym (linear-left name t below above m p e) ∙ sym whole)
        | inr (inl e) ↦ rw (d, e, bsearch) (sym (linear-here name t below above m p e) ∙ sym whole)
        | inr (inr e) ↦
            rw (d, e, bsearch) (g ∙ sym (linear-right name t below above m p e) ∙ sym whole)
      ]

empty_half : (table : List Mimetype) → drop (length table / 2) table ≡ [] → table ≡ []
empty_half [] d = refl
empty_half (m ∷ table) d =
    absurd (omega (arith, ap length d, length-drop (length (m ∷ table) / 2) (m ∷ table)))

-- On a table that is sorted by names that are distinct and hold no NUL, the binary search of
-- mk_mimetype_lookup finds what a linear search finds, for every name without a NUL.
pub bsearch-linear :
    (fuel : ℕ) (name : Bytes) (table : List Mimetype)
    → IsText name
    → Sorted table
    → length table < fuel
    → bsearch (mime_cmp name) fuel table ≡ linear name table
unfolding bsearch linear
bsearch-linear zero name table t s h = absurd (omega arith)
bsearch-linear (suc fuel) name table t s h =
    go (drop (length table / 2) table) refl (λ l u v. bsearch-linear fuel name l t u v)
  where
    go :
        (rest : List Mimetype)
        → drop (length table / 2) table ≡ rest
        → ((l : List Mimetype)
            → Sorted l
            → length l < fuel
            → bsearch (mime_cmp name) fuel l ≡ linear name l)
        → bsearch (mime_cmp name) (suc fuel) table ≡ linear name table
    go [] d ih = rw (empty_half table d) refl
    go (m ∷ above) d ih =
        let p =
          Sorted-Parts (take (length table / 2) table) above m
            (subst Sorted (parted fuel name table above m d) s) in
        bsearch-round fuel name table above m d t s
          (ih (take (length table / 2) table) p.left
            (omega (arith, length-below fuel name table above m d)))
          (ih above p.right (omega (arith, length-above fuel name table above m d)))
