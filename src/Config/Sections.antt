-- ===== src/Config/Sections.antt =====
-- What mk_config_create of src/mk_config.c accepts: the sections of a configuration have entries.
use monkey.Prelude.{
  ◌-◌, ℕ, ◌+◌, ◌≡◌, ◌≢◌, refl, ap, subst, ◌⊎◌, inl, inr, Bool, true, false, ◌&&◌, ◌||◌, not, Option,
  none, some, List, [], ◌∷◌, drop, length, get_or, All, arith, ◌==◌, if◌then◌else◌, ℤ, pos, negsuc,
  Bool-cases,
}
use monkey.Libc.{Bytes, codes, cstr, strlen, fgets_lines, strncmp_eq}
use monkey.Text.{char_search, copy_substr}
use monkey.Config.{
  KeyVal, no_pair, over_read, pair, buf_size, Entry, Section, Reader, first_reader, Step, goes,
  fails, undefined, section_add, entry_add, read_section, key_val, read_entry, read_indented,
  read_body, read_line, strip_line, indent_of, Created, created, isblank, config_error, not_defined,
  read_lines, config_create,
}
use monkey.Config.Counted.{HasEntry, Counted, section_add-Counted, entry_add-Counted, Counted-All}

record Reads (r : Reader) : Type 0 where
  counted : Counted r.n_keys r.sections
  current : r.has_current ≡ false → r.sections ≡ []

-- What a line leaves is well-formed, when it is read.
record Left (s : Step) : Type 0 where
  reads : (r : Reader) → s ≡ goes r → Reads r

goes-Left : (r : Reader) → Reads r → Left (goes r)
goes-Left r h = record { reads = λ r' e. (let same : r ≡ r' = ground arith in subst Reads same h) }

fails-Left : (msg : Bytes) → Left (fails msg)
fails-Left msg = record { reads = λ r' e. absurd (ground arith) }

undefined-Left : Left undefined
undefined-Left = record { reads = λ r' e. absurd (ground arith) }

if-Left : (b : Bool) (x y : Step) → Left x → Left y → Left (if b then x else y)
if-Left true x y h g = h
if-Left false x y h g = g

guarded :
    (b : Bool) (msg : Bytes) (y : Step) → (b ≡ false → Left y) → Left (if b then fails msg else y)
guarded true msg y g = fails-Left msg
guarded false msg y g = g refl

section-Left :
    (r : Reader)
    → Reads r
    → (r.has_current && r.n_keys == 0) ≡ false
    → (o : Option Bytes)
    → Left (elim o [
      | none ↦ undefined
      | some name ↦
          goes (record r { sections = section_add name r.sections; has_current = true; n_keys = 0 })
    ])
section-Left r h g none = undefined-Left
section-Left r h g (some name) =
    let before : (r.sections ≡ []) ⊎ (r.n_keys ≢ 0) = elim (Bool-cases r.has_current) [
      | inl e ↦ inr (λ z. ground (arith, e, z, g))
      | inr e ↦ inl (h.current e)
    ] in
    goes-Left _ (record {
      counted = section_add-Counted name r.n_keys r.sections h.counted before;
      current = λ z. absurd (ground arith);
    })

read_section-Left : (buf : Bytes) (r : Reader) → Reads r → Left (read_section buf r)
unfolding read_section
read_section-Left buf r h = at (char_search buf b']' (pos (length buf)))
  where
    at :
        (z : ℤ)
        → Left (elim z [
          | negsuc _ ↦ fails (codes "Bad header definition")
          | pos end ↦
              if end == 0
              then fails (codes "Bad header definition")
              else if r.has_current && r.n_keys == 0
              then fails (codes "Previous section did not have keys")
              else elim (copy_substr buf 1 end) [
                | none ↦ undefined
                | some name ↦ goes (record r {
                  sections = section_add name r.sections;
                  has_current = true;
                  n_keys = 0;
                })
              ]
        ])
    at (negsuc _) = fails-Left _
    at (pos end) = guarded (end == 0) _ _ (λ _.
        guarded (r.has_current && r.n_keys == 0) _ _
          (λ g. section-Left r h g (copy_substr buf 1 end)))

entry-Left :
    (e : Entry) (r : Reader)
    → Reads r
    → (o : Option (List Section)) → entry_add e r.sections ≡ o
    → Left (elim o [
      | none ↦ undefined
      | some sections ↦ goes (record r { sections = sections; n_keys = r.n_keys + 1 })
    ])
entry-Left e r h none q = undefined-Left
entry-Left e r h (some l) q =
    let added = entry_add-Counted e r.n_keys r.sections l h.counted q in
    goes-Left _ (record {
      counted = added.0;
      current = λ c. absurd (added.2 (ap (λ s. length s) (h.current c)));
    })

read_entry-Left : (room : ℕ) (text : Bytes) (r : Reader) → Reads r → Left (read_entry room text r)
unfolding read_entry
read_entry-Left room text r h = at (key_val room text)
  where
    at :
        (o : KeyVal)
        → Left (elim o [
          | no_pair ↦ fails (codes "Each key must have a value")
          | over_read ↦ undefined
          | pair e ↦ elim (entry_add e r.sections) [
            | none ↦ undefined
            | some sections ↦ goes (record r { sections = sections; n_keys = r.n_keys + 1 })
          ]
        ])
    at no_pair = fails-Left _
    at over_read = undefined-Left
    at (pair e) = entry-Left e r h (entry_add e r.sections) refl

read_indented-Left : (indent buf : Bytes) (r : Reader) → Reads r → Left (read_indented indent buf r)
unfolding read_indented
read_indented-Left indent buf r h =
    let at = get_or buf (length indent) 0 in
    let entry = read_entry-Left (buf_size - length indent) (drop (length indent) buf) r h in
    guarded (not (strncmp_eq buf indent (length indent)) || isblank at)
      (codes "Invalid indentation level") _
      (λ _. if-Left (at == b'#' || length indent == length buf) _ _ (goes-Left r h) entry)

indent-Reads : (indent : Option Bytes) (r : Reader) → Reads r → Reads (record r { indent = indent })
indent-Reads indent r h = record { counted = h.counted; current = h.current }

read_body-Left : (buf : Bytes) (r : Reader) → Reads r → Left (read_body buf r)
unfolding read_body
read_body-Left buf r h = at r.indent
  where
    at :
        (o : Option Bytes)
        → Left (elim o [
          | some indent ↦ read_indented indent buf r
          | none ↦
              let indent = indent_of buf in
              let r' : Reader = record r { indent = some indent } in
              if length indent == length buf then goes r' else read_indented indent buf r'
        ])
    at (some indent) = read_indented-Left indent buf r h
    at none =
        let h' = indent-Reads (some (indent_of buf)) r h in
        if-Left _ _ _ (goes-Left _ h') (read_indented-Left (indent_of buf) buf _ h')

read_line-Left : (line : Bytes) (r : Reader) → Reads r → Left (read_line line r)
unfolding read_line
read_line-Left line r h =
    let buf = strip_line (cstr line) in
    let first = get_or buf 0 0 in
    let kept = goes-Left r h in
    if-Left (strlen line == 0) _ _ undefined-Left (
      if-Left (length buf == 0) _ _ kept (
        if-Left (first == b'#') _ _ kept
          (if-Left (first == b'[') _ _ (read_section-Left buf r h) (read_body-Left buf r h))))

-- What is created has entries in its sections.
abbrev Finished : Created → Type 0
Finished (created l) = All HasEntry l
Finished _ = Unit

read_lines-Finished :
    (n : ℕ) (lines : List Bytes) (r : Reader) → Reads r → Finished (read_lines n lines r)
unfolding read_lines
read_lines-Finished n [] r h = elim (Bool-cases (r.n_keys == 0)) [
  | inl e ↦ rw e tt
  | inr e ↦ rw e (Counted-All r.n_keys r.sections h.counted (λ z. ground arith))
]
read_lines-Finished n (buf ∷ lines) r h =
    at (λ r' h'. read_lines-Finished (n + 1) lines r' h') (read_line buf r) (read_line-Left buf r h)
  where
    at :
        ((r' : Reader) → Reads r' → Finished (read_lines (n + 1) lines r'))
        → (s : Step) → Left s
        → Finished (elim s [
          | goes r' ↦ read_lines (n + 1) lines r'
          | fails msg ↦ config_error (n + 1) msg
          | undefined ↦ not_defined
        ])
    at rest (goes r') g = rest r' (g.reads r' refl)
    at rest (fails msg) g = tt
    at rest undefined g = tt

-- Every section of a configuration that mk_config_create returns has an entry.
pub config_create-HasEntry :
    (file : Bytes) (sections : List Section)
    → config_create file ≡ created sections
    → All HasEntry sections
unfolding config_create
config_create-HasEntry file sections e = subst Finished e (
    read_lines-Finished 0 (fgets_lines buf_size file) first_reader
      (record { counted = refl; current = λ _. refl }))
