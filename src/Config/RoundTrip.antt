-- ===== src/Config/RoundTrip.antt =====
-- A printed configuration is read back by mk_config_create of src/mk_config.c.
use monkey.Prelude.{
  All-append, ℕ, ◌+◌, ◌≡◌, ◌≢◌, refl, sym, ap, ◌∙◌, true, false, ◌&&◌, Option, some, List, [], ◌∷◌,
  ◌++◌, map, length, append-nil, append_assoc, All, arith, ◌==◌,
}
use monkey.Libc.{Bytes}
use monkey.Config.{
  Entry, Section, Reader, first_reader, goes, section_add, entry_add, read_line, Created, created,
  read_lines, config_create,
}
use monkey.Config.Counted.{HasEntry}
use monkey.Config.File.{file_of, Fits, NoFeed, IsLine, fgets_lines-file_of}
use monkey.Config.Lines.{
  InLine-section_text, InLine-entry_text, IsFour, read_line-section, read_line-entry,
}
use monkey.Config.Printed.{four, section_text, entry_text, line_of, InLine, IsName, IsEntry}

abbrev pub entry_line : Entry → Bytes
entry_line e = line_of (entry_text e)

abbrev pub entry_lines : List Entry → List Bytes
entry_lines es = map entry_line es

-- The lines of a file with the sections.
abbrev pub print : List Section → List Bytes
print [] = []
print (s ∷ l) = line_of (section_text s.name) ∷ entry_lines s.entries ++ print l

abbrev pub IsSection : Section → Type 0
IsSection s = IsName s.name × All IsEntry s.entries × HasEntry s

-- The reader within a section.
abbrev within : List Section → Bytes → List Entry → ℕ → Option Bytes → Reader
within before name entries n indent = record {
  sections = before ++ (record { name = name; entries = entries } ∷ []);
  has_current = true;
  n_keys = n;
  indent = indent;
}

entry_add-last :
    (e : Entry) (before : List Section) (s : Section)
    → entry_add e (before ++ (s ∷ []))
      ≡ some (before ++ (record s { entries = s.entries ++ (e ∷ []) } ∷ []))
unfolding entry_add
entry_add-last e [] s = refl
entry_add-last e (t ∷ []) s = refl
entry_add-last e (t ∷ u ∷ before) s = rw (entry_add-last e (u ∷ before) s) refl

read_lines-goes :
    (line : ℕ) (buf : Bytes) (lines : List Bytes) (r r' : Reader)
    → read_line buf r ≡ goes r'
    → read_lines line (buf ∷ lines) r ≡ read_lines (line + 1) lines r'
unfolding read_lines
read_lines-goes line buf lines r r' e = rw (e, read_lines) refl

-- The reader behind the entries.
record Behind (rest : List Bytes) (before : List Section) (name : Bytes) (entries : List Entry)
    (n : ℕ) (c : Created) : Type 0 where
  line : ℕ
  n_keys : ℕ
  indent : Option Bytes
  is_four : IsFour indent
  counted : n_keys ≡ n
  reads : c ≡ read_lines line rest (within before name entries n_keys indent)

read_lines-entries :
    (es : List Entry) (rest : List Bytes) (line : ℕ) (before : List Section) (name : Bytes)
    (done : List Entry) (n : ℕ) (indent : Option Bytes)
    → All IsEntry es
    → IsFour indent
    → Behind rest before name
        (done ++ es)
        (n + length es)
        (read_lines line (entry_lines es ++ rest) (within before name done n indent))
read_lines-entries [] rest line before name done n indent h k = record {
  line = line;
  n_keys = n;
  indent = indent;
  is_four = k;
  counted = omega arith;
  reads = ap (λ d. read_lines line rest (within before name d n indent)) (sym (append-nil done));
}
read_lines-entries (e ∷ es) rest line before name done n indent h k =
    let s : Section = record { name = name; entries = done } in
    let added = entry_add-last e before s in
    let step =
      read_lines-goes line (entry_line e) (entry_lines es ++ rest)
        (within before name done n indent)
        (within before name (done ++ (e ∷ [])) (n + 1) (some four))
        (read_line-entry e (within before name done n indent) _ h.0 k added) in
    let ih =
      read_lines-entries es rest (line + 1) before name (done ++ (e ∷ [])) (n + 1) (some four) h.1
        refl in
    record {
      line = ih.line;
      n_keys = ih.n_keys;
      indent = ih.indent;
      is_four = ih.is_four;
      counted = omega (arith, ih.counted);
      reads =
          step
          ∙ ih.reads
          ∙ ap (λ d. read_lines ih.line rest (within before name d ih.n_keys ih.indent))
              (append_assoc done (e ∷ []) es);
    }

-- The sections may end here, or the next one may begin.
abbrev Ready : Reader → List Section → Type 0
Ready r [] = r.n_keys ≢ 0
Ready r (_ ∷ _) = (r.has_current && r.n_keys == 0) ≡ false

within-Ready :
    (before : List Section) (name : Bytes) (entries : List Entry) (n : ℕ) (indent : Option Bytes)
    (l : List Section)
    → n ≢ 0
    → Ready (within before name entries n indent) l
within-Ready before name entries n indent [] h = h
within-Ready before name entries n indent (s ∷ l) h = ground (arith, h)

read_lines-print :
    (l : List Section) (line : ℕ) (r : Reader)
    → All IsSection l
    → IsFour r.indent
    → Ready r l
    → read_lines line (print l) r ≡ created (r.sections ++ l)
unfolding read_lines section_add
read_lines-print [] line r h k e =
    let keys : (r.n_keys == 0) ≡ false = ground (arith, e) in
    rw keys (ap created (sym (append-nil r.sections)))
read_lines-print (s ∷ l) line r h k e =
    let begun = read_line-section s.name r h.0.0 e in
    let started = within r.sections s.name [] 0 r.indent in
    let first =
      read_lines-goes line (line_of (section_text s.name)) (entry_lines s.entries ++ print l) r
        started begun in
    let b =
      read_lines-entries s.entries (print l) (line + 1) r.sections s.name [] 0 r.indent h.0.1 k in
    let some_keys : b.n_keys ≢ 0 = λ z. h.0.2 (omega (arith, b.counted, z)) in
    let r' = within r.sections s.name s.entries b.n_keys b.indent in
    let rest =
      read_lines-print l b.line r' h.1 b.is_four
        (within-Ready r.sections s.name s.entries b.n_keys b.indent l some_keys) in
    first ∙ b.reads ∙ rest ∙ ap created (append_assoc r.sections (s ∷ []) l)

text-IsLine : (s : Bytes) → All InLine s → IsLine (line_of s)
text-IsLine s h = record { text = s; is_text = refl; no_feed = no_feeds s h }
  where
    no_feeds : (s : Bytes) → All InLine s → NoFeed s
    no_feeds [] h = tt
    no_feeds (c ∷ s) h = (h.0.1, no_feeds s h.1)

entry_lines-IsLine : (es : List Entry) → All IsEntry es → All IsLine (entry_lines es)
entry_lines-IsLine [] h = tt
entry_lines-IsLine (e ∷ es) h =
    (text-IsLine (entry_text e) (InLine-entry_text e h.0), entry_lines-IsLine es h.1)

print-IsLine : (l : List Section) → All IsSection l → All IsLine (print l)
print-IsLine [] h = tt
print-IsLine (s ∷ l) h = (
  text-IsLine (section_text s.name) (InLine-section_text s.name h.0.0),
  All-append IsLine (entry_lines s.entries) (print l) (entry_lines-IsLine s.entries h.0.1)
      (print-IsLine l h.1),
)

-- mk_config_create reads back what a file of sections with entries says, when its lines fit the buffer, and
-- with them what is copied from behind each key: the section names in brackets, and for each entry an
-- indented line with the key, a space and the value. The file has a section at least, a name has no
-- closing bracket, a key no white space and no number sign in front, a value no white space at its ends,
-- and none of them a NUL or a line break.
pub config_create-print :
    (s : Section) (l : List Section)
    → All IsSection (s ∷ l)
    → All Fits (print (s ∷ l))
    → config_create (file_of (print (s ∷ l))) ≡ created (s ∷ l)
unfolding config_create
config_create-print s l h k =
    ap (λ lines. read_lines 0 lines first_reader)
      (fgets_lines-file_of (print (s ∷ l)) (print-IsLine (s ∷ l) h) k)
    ∙ read_lines-print (s ∷ l) 0 first_reader h tt refl
