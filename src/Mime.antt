-- ===== src/Mime.antt =====
-- src/mk_mimetype.c: the type of a file by the extension of its name.
pub mod Order
pub mod Lookup
pub mod Files
use monkey.Prelude.{
  ℕ, zero, suc, ◌+◌, ◌/◌, Option, none, some, List, [], ◌∷◌, ◌++◌, length, drop, get_or, take, ltb,
  ◌==◌, if◌then◌else◌,
}
use Prim.Native.Nat.{Ordering}
use monkey.Libc.{bsearch, Bytes, cstr, strcasecmp_eq, strcmp}
use monkey.Types.{Pointer, crlf}

-- struct mimetype
pub record Mimetype : Type 0 where
  pub name : Bytes
  pub mime_type : Pointer

-- mimecommon, mimearr and mimetype_default
pub record MimeTables : Type 0 where
  pub mimecommon : List Mimetype
  pub mimearr : List Mimetype
  pub mimetype_default : Mimetype

-- mk_mimetype_add: the item that is added.
unfoldable pub new_mime : Bytes → Bytes → Mimetype
new_mime name type = record {
  name = cstr name;
  mime_type = record { data_at = some (cstr type ++ crlf); len = length (cstr type) + 2 };
}

-- MIME_COMMON
abbrev pub mime_common : ℕ
mime_common = 10

-- The loop of mk_mimetype_read_config: the first ten entries of the file go to one table, the others to
-- the other one.
unfoldable pub read_config : List (Bytes × Bytes) → ℕ → List Mimetype × List Mimetype
read_config [] i = ([], [])
read_config ((key, val) ∷ entries) i =
    let rest = read_config entries (i + 1) in
    if ltb i mime_common
    then (new_mime key val ∷ rest.0, rest.1)
    else (rest.0, new_mime key val ∷ rest.1)

-- The linear search of mk_mimetype_lookup.
unfoldable pub common_find : Bytes → List Mimetype → Option Mimetype
common_find name [] = none
common_find name (m ∷ table) = if strcasecmp_eq name m.name then some m else common_find name table

abbrev pub mime_cmp : Bytes → Mimetype → Ordering
mime_cmp name m = strcmp name m.name

abbrev pub or_else {ℓ} : {A : Type ℓ} → Option A → Option A → Option A
or_else (some a) b = some a
or_else none b = b

-- mk_mimetype_lookup. A table of n entries takes n rounds at most.
unfoldable pub mimetype_lookup : MimeTables → Bytes → Option Mimetype
mimetype_lookup t name =
    or_else (common_find name t.mimecommon)
      (bsearch (mime_cmp name) (length t.mimearr + 1) t.mimearr)

-- The last dot at `j` or before; the NUL behind the name is read too.
unfoldable pub last_dot : Bytes → ℕ → Option ℕ
last_dot text zero = if get_or text 0 0 == b'.' then some 0 else none
last_dot text (suc j) = if get_or text (suc j) 0 == b'.' then some (suc j) else last_dot text j

-- mk_mimetype_find. Without a dot the index ends at -1, and the whole name is looked up.
unfoldable pub mimetype_find : MimeTables → Bytes → ℕ → Option Mimetype
mimetype_find t text len = elim (last_dot text len) [
  | none ↦ mimetype_lookup t text
  | some zero ↦ none
  | some (suc j) ↦ mimetype_lookup t (drop (suc j + 1) text)
]
