-- ===== src/Site/Files.antt =====
-- mk_file_get_info of src/mk_file.c: what it reports of a file.
use monkey.Prelude.{
  ◌≡◌, refl, ◌⊎◌, inl, inr, Bool, true, false, Option, none, some, arith, Bool-cases, pos,
  minus_one,
}
use monkey.Libc.{Bytes, cstr}
use monkey.Types.{FileInfo}
use monkey.Site.{
  Stat, Looked, found, denied, missing, System, is_link_kind, target_info, file_get_info,
}

-- What `path` leads to: the file itself, or the target of a link.
pub data Leads (sys : System) (path : Bytes) : Bool → Stat → Type 0 where
  itself :
      (f : Stat)
      → sys.lstat (cstr path) ≡ found f
      → is_link_kind f.kind ≡ false
      → Leads sys path false f
  over_link :
      (f target : Stat)
      → sys.lstat (cstr path) ≡ found f
      → is_link_kind f.kind ≡ true
      → sys.stat (cstr path) ≡ some target
      → Leads sys path true target

-- When mk_file_get_info returns 0, the path leads to a file, and what is reported is that file's: its
-- size and date, whether it is a directory, whether a link was followed, and the worker's access by the
-- bits of owner, group and others. Otherwise it returns -1.
pub file_get_info-Leads :
    (sys : System) (path : Bytes) (info : FileInfo)
    → ((is_link : Bool) × (target : Stat) × Leads sys path is_link target
        × (file_get_info sys path info ≡ (pos 0, target_info sys is_link target)))
      ⊎ ((file_get_info sys path info).0 ≡ minus_one)
unfolding file_get_info
file_get_info-Leads sys path info = go (sys.lstat (cstr path)) (sys.stat (cstr path)) refl refl
  where
    go :
        (l : Looked) (s : Option Stat)
        → sys.lstat (cstr path) ≡ l
        → sys.stat (cstr path) ≡ s
        → ((is_link : Bool) × (target : Stat) × Leads sys path is_link target
            × (file_get_info sys path info ≡ (pos 0, target_info sys is_link target)))
          ⊎ ((file_get_info sys path info).0 ≡ minus_one)
    go missing s e q = inr (ground arith)
    go denied s e q = inr (ground arith)
    go (found f) none e q = elim (Bool-cases (is_link_kind f.kind)) [
      | inl k ↦ inr (ground arith)
      | inr k ↦ inl (false, f, itself f e k, ground arith)
    ]
    go (found f) (some target) e q = elim (Bool-cases (is_link_kind f.kind)) [
      | inl k ↦ inl (true, target, over_link f target e k q, ground arith)
      | inr k ↦ inl (false, f, itself f e k, ground arith)
    ]
