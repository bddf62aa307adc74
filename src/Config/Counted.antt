-- ===== src/Config/Counted.antt =====
-- The entries of the sections, counted as mk_config_create of src/mk_config.c counts them.
use monkey.Prelude.{
  ℕ, suc, ◌+◌, ◌≡◌, ◌≢◌, refl, sym, ap, subst, ◌∙◌, ◌⊎◌, inl, inr, none, some, List, [], ◌∷◌, ◌++◌,
  length, length-append, All, arith, Option-cases,
}
use monkey.Libc.{Bytes}
use monkey.Config.{Entry, Section, section_add, entry_add}

-- The section has an entry.
abbrev pub HasEntry : Section → Type 0
HasEntry s = length s.entries ≢ 0

-- The last section has `n` entries, and the sections before it have entries.
abbrev pub Counted : ℕ → List Section → Type 0
Counted n [] = n ≡ 0
Counted n (s ∷ []) = length s.entries ≡ n
Counted n (s ∷ t ∷ sections) = HasEntry s × Counted n (t ∷ sections)

pub section_add-Counted :
    (name : Bytes) (n : ℕ) (sections : List Section)
    → Counted n sections
    → (sections ≡ []) ⊎ (n ≢ 0)
    → Counted 0 (section_add name sections)
unfolding section_add
section_add-Counted name n [] h _ = refl
section_add-Counted name n (s ∷ []) h (inl e) = absurd (ground arith)
section_add-Counted name n (s ∷ []) h (inr e) = (λ z. e (sym h ∙ z), refl)
section_add-Counted name n (s ∷ t ∷ sections) h (inl e) = absurd (ground arith)
section_add-Counted name n (s ∷ t ∷ sections) h (inr e) =
    (h.0, section_add-Counted name n (t ∷ sections) h.1 (inr e))

entry_add-behind_none :
    (e : Entry) (s t : Section) (sections : List Section)
    → entry_add e (t ∷ sections) ≡ none
    → entry_add e (s ∷ t ∷ sections) ≡ none
unfolding entry_add
entry_add-behind_none e s t sections q = rw (q, entry_add) refl

entry_add-behind_some :
    (e : Entry) (s t : Section) (sections rest : List Section)
    → entry_add e (t ∷ sections) ≡ some rest
    → entry_add e (s ∷ t ∷ sections) ≡ some (s ∷ rest)
unfolding entry_add
entry_add-behind_some e s t sections rest q = rw (q, entry_add) refl

-- What the entry is added to, has a section.
pub entry_add-Counted :
    (e : Entry) (n : ℕ) (sections l : List Section)
    → Counted n sections
    → entry_add e sections ≡ some l
    → Counted (n + 1) l × (length l ≡ length sections) × (length sections ≢ 0)
unfolding entry_add
entry_add-Counted e n [] l h q = absurd (ground arith)
entry_add-Counted e n (s ∷ []) l h q =
    let one : Section = record s { entries = s.entries ++ (e ∷ []) } in
    let same : one ∷ [] ≡ l = ground arith in
    subst (λ l. Counted (n + 1) l × (length l ≡ length (s ∷ [])) × (length (s ∷ []) ≢ 0)) same
      (length-append s.entries (e ∷ []) ∙ ap (λ k. k + 1) h, refl, λ z. omega (arith, z))
entry_add-Counted e n (s ∷ t ∷ sections) l h q = elim (Option-cases (entry_add e (t ∷ sections))) [
  | inl r ↦ absurd (ground (arith, entry_add-behind_none e s t sections r, q))
  | inr (rest, r) ↦
      let whole = entry_add-behind_some e s t sections rest r in
      let same : s ∷ rest ≡ l = ground (arith, whole, q) in
      let ih = entry_add-Counted e n (t ∷ sections) rest h.1 r in
      subst
        (λ l.
          Counted (n + 1) l
          × (length l ≡ length (s ∷ t ∷ sections))
          × (length (s ∷ t ∷ sections) ≢ 0))
        same
        (
          behind s rest (n + 1) h.0 ih.0 (λ z. ih.2 (sym ih.1 ∙ z)),
          ap suc ih.1,
          λ z. omega (arith, z),
        )
]
  where
    behind :
        (s : Section) (rest : List Section) (n : ℕ)
        → HasEntry s
        → Counted n rest
        → length rest ≢ 0
        → Counted n (s ∷ rest)
    behind s [] n g c k = absurd (k refl)
    behind s (t ∷ rest) n g c k = (g, c)

pub Counted-All : (n : ℕ) (l : List Section) → Counted n l → n ≢ 0 → All HasEntry l
Counted-All n [] h e = tt
Counted-All n (s ∷ []) h e = (λ z. e (sym h ∙ z), tt)
Counted-All n (s ∷ t ∷ l) h e = (h.0, Counted-All n (t ∷ l) h.1 e)
