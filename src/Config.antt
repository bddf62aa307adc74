-- ===== src/Config.antt =====
-- The configuration files of src/mk_config.c: mk_config_create, mk_config_section_get and
-- mk_config_section_getval, for a file that can be opened.
pub mod Counted
pub mod Sections
pub mod Printed
pub mod Lines
pub mod File
pub mod RoundTrip
use monkey.Prelude.{
  ℕ, zero, suc, ◌+◌, ◌-◌, Bool, true, false, ◌&&◌, ◌||◌, not, Option, none, some, List, [], ◌∷◌,
  ◌++◌, length, take, drop, get_or, leb, ltb, ◌==◌, if◌then◌else◌, ℤ, pos, negsuc, minus_one,
}
use monkey.Libc.{Bytes, codes, cstr, strlen, fgets_lines, strcasecmp_eq, strncmp_eq}
use monkey.Libc.Numbers.{strtol}
use monkey.Text.{StringLine, char_search, copy_substr, string_trim, split_line}

-- struct mk_config_entry
pub record Entry : Type 0 where
  pub key : Bytes
  pub val : Bytes

-- struct mk_config_section
pub record Section : Type 0 where
  pub name : Bytes
  pub entries : List Entry

-- What mk_config_create keeps between the lines: the sections, whether one is current, the keys of the
-- current one, and the indentation.
pub record Reader : Type 0 where
  pub sections : List Section
  pub has_current : Bool
  pub n_keys : ℕ
  pub indent : Option Bytes

abbrev pub first_reader : Reader
first_reader = record { sections = []; has_current = false; n_keys = 0; indent = none }

-- A line is read; or mk_config_error ends the server; or the behaviour is undefined.
pub data Step : Type 0 where
  goes : Reader → Step
  fails : Bytes → Step
  undefined : Step

abbrev last_is : ℕ → Bytes → Bool
last_is c buf = ltb 0 (length buf) && get_or buf (length buf - 1) 0 == c

abbrev pub without_last : Bytes → Bytes
without_last buf = take (length buf - 1) buf

-- The line without its end.
unfoldable pub strip_line : Bytes → Bytes
strip_line buf =
    if last_is b'\n' buf
    then (let line = without_last buf in if last_is 13 line then without_last line else line)
    else buf

-- isblank(3)
abbrev pub isblank : ℕ → Bool
isblank c = c == 32 || c == 9

-- `do { i++; } while (i < len && isblank(buf[i]))`: the blanks behind the first byte.
unfoldable pub blanks : Bytes → ℕ
blanks [] = 0
blanks (c ∷ s) = let rest = blanks s in if isblank c then suc rest else 0

unfoldable pub indent_of : Bytes → Bytes
indent_of buf = take (blanks (drop 1 buf) + 1) buf

-- mk_config_section_add
unfoldable pub section_add : Bytes → List Section → List Section
section_add name sections = sections ++ (record { name = name; entries = [] } ∷ [])

-- mk_config_entry_add: in the last section. Without a section it reports an error and goes on with a
-- section that is not there.
unfoldable pub entry_add : Entry → List Section → Option (List Section)
entry_add e [] = none
entry_add e (s ∷ []) = some (record s { entries = s.entries ++ (e ∷ []) } ∷ [])
entry_add e (s ∷ t ∷ sections) = elim (entry_add e (t ∷ sections)) [
  | none ↦ none
  | some rest ↦ some (s ∷ rest)
]

-- A line that begins with a bracket.
unfoldable pub read_section : Bytes → Reader → Step
read_section buf r = elim (char_search buf b']' (pos (length buf))) [
  | negsuc _ ↦ fails (codes "Bad header definition")
  | pos end ↦
      if end == 0
      then fails (codes "Bad header definition")
      else if r.has_current && r.n_keys == 0
      then fails (codes "Previous section did not have keys")
      else elim (copy_substr buf 1 end) [
        | none ↦ undefined
        | some name ↦
            goes
              (record r { sections = section_add name r.sections; has_current = true; n_keys = 0 })
      ]
]

abbrev pub or_empty : Option Bytes → Bytes
or_empty none = []
or_empty (some s) = s

-- The size of `buf`.
abbrev pub buf_size : ℕ
buf_size = 255

-- A line has no key with a value; or it has one; or bytes behind the end of `buf` are read.
pub data KeyVal : Type 0 where
  no_pair : KeyVal
  pair : Entry → KeyVal
  over_read : KeyVal

abbrev pub trimmed_pair : Bytes → Bytes → KeyVal
trimmed_pair key val = pair (record {
  key = or_empty (string_trim (some key)).0;
  val = or_empty (string_trim (some val)).0;
})

-- The key and the value of `text`, the line behind its indentation; `room` bytes of `buf` are left from there.
-- The value is copied with the length of `text`, from behind the key.
unfoldable pub key_val : ℕ → Bytes → KeyVal
key_val room text = elim (char_search text b' ' (pos (length text))) [
  | negsuc _ ↦ no_pair
  | pos i ↦ elim (ltb room (i + length text)) [
    | true ↦ over_read
    | false ↦ elim (copy_substr text 0 i) [
      | none ↦ no_pair
      | some key ↦ elim (copy_substr (drop i text) 1 (length text)) [
        | none ↦ no_pair
        | some val ↦ trimmed_pair key val
      ]
    ]
  ]
]

unfoldable pub read_entry : ℕ → Bytes → Reader → Step
read_entry room text r = elim (key_val room text) [
  | no_pair ↦ fails (codes "Each key must have a value")
  | over_read ↦ undefined
  | pair e ↦ elim (entry_add e r.sections) [
    | none ↦ undefined
    | some sections ↦ goes (record r { sections = sections; n_keys = r.n_keys + 1 })
  ]
]

-- A line with the indentation `indent`.
unfoldable pub read_indented : Bytes → Bytes → Reader → Step
read_indented indent buf r =
    let at = get_or buf (length indent) 0 in
    if not (strncmp_eq buf indent (length indent)) || isblank at
    then fails (codes "Invalid indentation level")
    else if at == b'#' || length indent == length buf
    then goes r
    else read_entry (buf_size - length indent) (drop (length indent) buf) r

-- Any other line. The first one sets the indentation.
unfoldable pub read_body : Bytes → Reader → Step
read_body buf r = elim r.indent [
  | some indent ↦ read_indented indent buf r
  | none ↦
      let indent = indent_of buf in
      let r' : Reader = record r { indent = some indent } in
      if length indent == length buf then goes r' else read_indented indent buf r'
]

-- One round of the loop. The byte before the buffer is read when it holds an empty string.
unfoldable pub read_line : Bytes → Reader → Step
read_line line r =
    let buf = strip_line (cstr line) in
    let first = get_or buf 0 0 in
    if strlen line == 0
    then undefined
    else if length buf == 0
    then goes r
    else if first == b'#'
    then goes r
    else if first == b'['
    then read_section buf r
    else read_body buf r

-- The configuration; or an error with its line; or undefined behaviour.
pub data Created : Type 0 where
  created : List Section → Created
  config_error : ℕ → Bytes → Created
  not_defined : Created

unfoldable pub read_lines : ℕ → List Bytes → Reader → Created
read_lines line [] r =
    if r.n_keys == 0
    then config_error line (codes "Section do not have keys")
    else created r.sections
read_lines line (buf ∷ lines) r = elim (read_line buf r) [
  | goes r' ↦ read_lines (line + 1) lines r'
  | fails msg ↦ config_error (line + 1) msg
  | undefined ↦ not_defined
]

-- mk_config_create, of the bytes of the file.
unfoldable pub config_create : Bytes → Created
config_create file = read_lines 0 (fgets_lines buf_size file) first_reader

unfoldable pub section_get : Bytes → List Section → Option Section
section_get name [] = none
section_get name (s ∷ sections) =
    if strcasecmp_eq s.name name then some s else section_get name sections

-- MK_CONFIG_VAL_STR, _NUM, _BOOL and _LIST; `no_bool` stands for the -1 of a value that is neither.
pub data Value : Type 0 where
  str : Bytes → Value
  num : ℤ → Value
  bool : Bool → Value
  no_bool : Value
  list : List StringLine → Value

pub data ValueMode : Type 0 where
  as_str as_num as_bool as_list : ValueMode

unfoldable pub value_of : ValueMode → Bytes → Value
value_of as_str val = str val
value_of as_num val = num (strtol val)
value_of as_bool val =
    if strcasecmp_eq val (codes "on")
    then bool true
    else if strcasecmp_eq val (codes "off")
    then bool false
    else no_bool
value_of as_list val = list (split_line val)

-- mk_config_section_getval
unfoldable pub section_getval : Bytes → ValueMode → List Entry → Option Value
section_getval key mode [] = none
section_getval key mode (e ∷ entries) =
    if strcasecmp_eq e.key key then some (value_of mode e.val) else section_getval key mode entries
