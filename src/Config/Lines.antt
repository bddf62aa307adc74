-- ===== src/Config/Lines.antt =====
-- What one round of mk_config_create in src/mk_config.c makes of a printed line.
use monkey.Prelude.{
  ◌-◌, suc, ◌+◌, ◌≡◌, refl, ap, subst, ◌∙◌, inl, inr, true, false, ◌&&◌, Option, none, some, List,
  [], ◌∷◌, ◌++◌, length, length-append, get_or, All, All-append, arith, ◌==◌, Option-cases,
}
use monkey.Libc.{Bytes, equal_by, isspace}
use monkey.Config.{
  buf_size, Entry, Section, Reader, goes, isblank, blanks, indent_of, section_add, entry_add,
  read_entry, read_indented, read_body, read_line,
}
use monkey.Config.Printed.{
  four, section_text, entry_text, line_of, InLine, IsName, IsKey, IsEntry, strip_line-line_of,
  cstr-line_of, read_section-section_text, key_val-text,
}

-- The indentation is not set, or four spaces.
abbrev pub IsFour : Option Bytes → Type 0
IsFour none = Unit
IsFour (some indent) = indent ≡ four

key_first : (key rest : Bytes) → IsKey key → get_or (key ++ rest) 0 0 ≡ get_or key 0 0
key_first [] rest h = absurd (omega (arith, h.some_byte))
key_first (c ∷ key) rest h = refl

key_begins : (key : Bytes) → IsKey key → isblank (get_or key 0 0) ≡ false
unfolding isspace
key_begins [] h = absurd (omega (arith, h.some_byte))
key_begins (c ∷ key) h = ground (arith, h.no_space.0)

read_indented-four :
    (e : Entry) (r : Reader)
    → IsEntry e
    → read_indented four (entry_text e) r
      ≡ read_entry (buf_size - length four) (e.key ++ (32 ∷ e.val)) r
unfolding read_indented equal_by
read_indented-four e r h =
    let longer : length (e.key ++ (32 ∷ e.val)) ≡ length e.key + suc (length e.val) =
      length-append e.key (32 ∷ e.val) in
    let first = key_first e.key (32 ∷ e.val) h.0 in
    let not_mark : (get_or e.key 0 0 == b'#') ≡ false = ground (arith, h.0.no_comment) in
    let not_end : (length four == length (entry_text e)) ≡ false = ground (arith, longer) in
    rw (first) (rw (key_begins e.key h.0) (rw (not_mark, not_end) refl))

blanks_none : (s : Bytes) → isblank (get_or s 0 0) ≡ false → blanks s ≡ 0
unfolding blanks
blanks_none [] h = refl
blanks_none (c ∷ s) h = rw h refl

indent_of-entry_text : (e : Entry) → IsEntry e → indent_of (entry_text e) ≡ four
unfolding indent_of blanks
indent_of-entry_text e h =
    rw
      (blanks_none (e.key ++ (32 ∷ e.val))
        (ap isblank (key_first e.key (32 ∷ e.val) h.0) ∙ key_begins e.key h.0))
      refl

abbrev with_indent : Reader → Option Bytes → Reader
with_indent r indent = record r { indent = indent }

-- The first line of a file that begins with a space sets the indentation.
read_body-entry_text :
    (e : Entry) (r : Reader)
    → IsEntry e
    → IsFour r.indent
    → read_body (entry_text e) r
      ≡ read_entry
          (buf_size - length four)
          (e.key ++ (32 ∷ e.val))
          (record r { indent = some four })
unfolding read_body
read_body-entry_text e r h k = elim (Option-cases r.indent) [
  | inl i ↦
      let set = indent_of-entry_text e h in
      let longer : length (e.key ++ (32 ∷ e.val)) ≡ length e.key + suc (length e.val) =
        length-append e.key (32 ∷ e.val) in
      let not_end : (length four == length (entry_text e)) ≡ false = ground (arith, longer) in
      rw (i, read_body)
        (rw set (rw not_end (read_indented-four e (record r { indent = some four }) h)))
  | inr (indent, i) ↦
      let same : indent ≡ four = subst IsFour i k in
      let j : r.indent ≡ some four = i ∙ ap some same in
      let kept : r ≡ record r { indent = some four } = ap (with_indent r) j in
      rw (j, read_body)
        (read_indented-four e r h
          ∙ ap (read_entry (buf_size - length four) (e.key ++ (32 ∷ e.val))) kept)
]

pub InLine-section_text : (name : Bytes) → IsName name → All InLine (section_text name)
InLine-section_text name h = (
  (λ e. ground arith, λ e. ground arith, λ e. ground arith),
  All-append InLine name (b']' ∷ []) h.bytes
      ((λ e. ground arith, λ e. ground arith, λ e. ground arith), tt),
)

space-InLine : InLine 32
space-InLine = (λ e. ground arith, λ e. ground arith, λ e. ground arith)

pub InLine-entry_text : (e : Entry) → IsEntry e → All InLine (entry_text e)
InLine-entry_text e h =
    let s = space-InLine in
    let text = All-append InLine e.key (32 ∷ e.val) h.0.bytes (s, h.1.bytes) in
    (s, (s, (s, (s, text))))

-- A printed section line begins a section behind one that has keys.
pub read_line-section :
    (name : Bytes) (r : Reader)
    → IsName name
    → (r.has_current && r.n_keys == 0) ≡ false
    → read_line (line_of (section_text name)) r
      ≡ goes (record r { sections = section_add name r.sections; has_current = true; n_keys = 0 })
unfolding read_line
read_line-section name r h g =
    let some_byte : (length (section_text name) == 0) ≡ false = ground arith in
    let inside = InLine-section_text name h in
    let some_line : (length (line_of (section_text name)) == 0) ≡ false = ground arith in
    rw
      (
        cstr-line_of (section_text name) inside,
        strip_line-line_of (section_text name) inside,
        read_line,
      )
      (rw (some_line, some_byte) (read_section-section_text name r h g))

-- A printed entry line is added to the last section.
pub read_line-entry :
    (e : Entry) (r : Reader) (sections : List Section)
    → IsEntry e
    → IsFour r.indent
    → entry_add e r.sections ≡ some sections
    → read_line (line_of (entry_text e)) r
      ≡ goes (record r { sections = sections; n_keys = r.n_keys + 1; indent = some four })
unfolding read_line read_entry
read_line-entry e r sections h k added =
    let body = read_body-entry_text e r h k in
    let some_byte : (length (entry_text e) == 0) ≡ false = ground arith in
    let inside = InLine-entry_text e h in
    let some_line : (length (line_of (entry_text e)) == 0) ≡ false = ground arith in
    rw (cstr-line_of (entry_text e) inside, strip_line-line_of (entry_text e) inside, read_line)
      (rw (some_line, some_byte) (body ∙ rw (key_val-text e h, read_entry) (rw added refl)))
