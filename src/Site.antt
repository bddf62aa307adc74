-- ===== src/Site.antt =====
-- What a request is answered from: the virtual hosts of the configuration, mk_config_host_find of
-- src/mk_config.c, the system calls on files, and mk_file_get_info of src/mk_file.c. A system call is a
-- function of its arguments: the files stay as they are while one event is handled.
pub mod Hosts
pub mod Files
use monkey.Prelude.{
  ℕ, Bool, true, false, ◌&&◌, ◌||◌, Option, none, some, List, [], ◌∷◌, ◌==◌, if◌then◌else◌, ℤ, pos,
  minus_one,
}
use monkey.Libc.{Bytes, cstr, strncmp_eq}
use monkey.Types.{Pointer, FileInfo}
use monkey.Date.{Tm}

-- struct host_alias
pub record HostAlias : Type 0 where
  pub name : Bytes
  pub len : ℕ

-- struct error_page
pub record ErrorPage : Type 0 where
  pub status : ℕ
  pub real_path : Bytes

-- struct host
pub record Host : Type 0 where
  pub server_names : List HostAlias
  pub documentroot : Bytes
  pub host_signature : Bytes
  pub header_host_signature : Bytes
  pub error_pages : List ErrorPage

-- What server_config has beside the fields of ServerConfig. The first host is there always.
pub record Site : Type 0 where
  pub default_host : Host
  pub other_hosts : List Host
  pub index_files : Option (List Bytes)
  pub user_dir : Option Bytes
  pub transport : Bytes
  pub open_flags_no_atime : Bool

-- The aliases of one host: equal lengths and equal names.
unfoldable pub alias_find : Bytes → ℕ → List HostAlias → Option HostAlias
alias_find name len [] = none
alias_find name len (a ∷ aliases) =
    if a.len == len && strncmp_eq a.name name len then some a else alias_find name len aliases

unfoldable pub host_loop : Bytes → ℕ → List Host → Option (Host × HostAlias)
host_loop name len [] = none
host_loop name len (h ∷ hosts) = elim (alias_find name len h.server_names) [
  | some a ↦ some (h, a)
  | none ↦ host_loop name len hosts
]

-- mk_config_host_find: the host that is found, or the one that was set before.
unfoldable pub host_find : Site → Pointer → Host → ℤ × Host
host_find site host before = elim host.data_at [
  | none ↦ (minus_one, before)
  | some name ↦ elim (host_loop name host.len (site.default_host ∷ site.other_hosts)) [
    | none ↦ (minus_one, before)
    | some (h, _) ↦ (pos 0, h)
  ]
]

pub data Kind : Type 0 where
  regular directory link : Kind

-- The fields of struct stat that the code reads, with the permission bits that it tests.
pub record Stat : Type 0 where
  pub kind : Kind
  pub st_size : ℤ
  pub st_mtime : ℤ
  pub st_uid : ℕ
  pub st_gid : ℕ
  pub r_usr : Bool
  pub r_grp : Bool
  pub r_oth : Bool
  pub x_usr : Bool
  pub x_grp : Bool
  pub x_oth : Bool

-- lstat(2): the file, the error EACCES, or another error.
pub data Looked : Type 0 where
  found : Stat → Looked
  denied missing : Looked

-- The system as a worker sees it. `open_file` takes the path and whether O_NOATIME is set; `getpwnam` gives
-- the home directory; `strptime` is for the format of the dates in headers; `sendfile` is
-- what the transport plugin's send_file returns for a descriptor, an offset and a count.
pub record System : Type 0 where
  pub lstat : Bytes → Looked
  pub stat : Bytes → Option Stat
  pub euid : ℕ
  pub egid : ℕ
  pub readlink : Bytes → Option Bytes
  pub access : Bytes → Bool
  pub open_file : Bytes → Bool → ℤ
  pub getpwnam : Bytes → Option Bytes
  pub strptime : Bytes → Option Tm
  pub mktime : Tm → ℤ
  pub sendfile : ℤ → ℤ → ℤ → ℤ
  pub now : ℤ

-- mk_utils_gmt2utime
unfoldable pub gmt2utime : System → Bytes → ℤ
gmt2utime sys date = elim (sys.strptime (cstr date)) [ none ↦ minus_one | some tm ↦ sys.mktime tm ]

abbrev pub is_directory_kind : Kind → Bool
is_directory_kind directory = true
is_directory_kind _ = false

abbrev pub is_link_kind : Kind → Bool
is_link_kind link = true
is_link_kind _ = false

-- One kind of access, from the bits of the owner, the group and the others.
unfoldable pub allows : System → Stat → Bool → Bool → Bool → Bool
allows sys target usr grp oth =
    (usr && target.st_uid == sys.euid) || (grp && target.st_gid == sys.egid) || oth

-- The information on what a path leads to; `is_link` says that it leads there over a link.
unfoldable pub target_info : System → Bool → Stat → FileInfo
target_info sys is_link target = record {
  size = target.st_size;
  last_modification = target.st_mtime;
  exists = true;
  is_file = (if is_directory_kind target.kind then false else if is_link then false else true);
  is_link = is_link;
  is_directory = is_directory_kind target.kind;
  exec_access = allows sys target target.x_usr target.x_grp target.x_oth;
  read_access = allows sys target target.r_usr target.r_grp target.r_oth;
  no_atime = target.st_uid == sys.euid || sys.euid == 0;
}

-- A link whose target cannot be looked at: what has been set by then.
abbrev pub dangling : FileInfo → FileInfo
dangling info = record info {
  exists = true;
  is_file = false;
  is_link = true;
  is_directory = false;
  exec_access = false;
  read_access = false;
}

-- mk_file_get_info: the returned value and the structure, which is `info` before. The open flags are
-- assigned O_RDONLY and O_NONBLOCK besides.
unfoldable pub file_get_info : System → Bytes → FileInfo → ℤ × FileInfo
file_get_info sys path info = elim (sys.lstat (cstr path)) [
  | missing ↦ (minus_one, record info { exists = false })
  | denied ↦ (minus_one, record info { exists = true })
  | found f ↦ elim (is_link_kind f.kind) [
    | false ↦ (pos 0, target_info sys false f)
    | true ↦ elim (sys.stat (cstr path)) [
      | none ↦ (minus_one, dangling info)
      | some target ↦ (pos 0, target_info sys true target)
    ]
  ]
]
