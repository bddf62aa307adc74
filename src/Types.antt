-- ===== src/Types.antt =====
-- The structures that the request handling shares: src/include/mk_memory.h, mk_request.h, mk_http.h,
-- mk_config.h and mk_file.h. Each record has the fields that the modelled code reads or writes.
use monkey.Prelude.{
  ℕ, ◌+◌, ◌-◌, ◌%◌, ◌^◌, Bool, false, Option, none, some, List, [], ◌∷◌, ℤ, pos, minus_one,
}
use monkey.Libc.{Bytes}

-- An `unsigned long` difference wraps.
abbrev pub sub_word : ℕ → ℕ → ℕ
sub_word a b = (a + 2 ^ 64 - b) % 2 ^ 64

-- mk_pointer: NULL, or the buffer from the pointer on.
pub record Pointer : Type 0 where
  pub data_at : Option Bytes
  pub len : ℕ

-- mk_pointer_reset
abbrev pub null : Pointer
null = record { data_at = none; len = 0 }

-- mk_pointer_init: a literal.
abbrev pub literal : Bytes → ℕ → Pointer
literal text n = record { data_at = some text; len = n }

abbrev pub crlf : Bytes
crlf = 13 ∷ 10 ∷ []

abbrev pub endblock : Bytes
endblock = 13 ∷ 10 ∷ 13 ∷ 10 ∷ []

pub data Method : Type 0 where
  unknown get post head put delete : Method

-- HTTP_PROTOCOL_*; a request that is not parsed yet has 0.
abbrev pub protocol_unknown : ℤ
protocol_unknown = minus_one

abbrev pub protocol_09 : ℤ
protocol_09 = pos 9

abbrev pub protocol_10 : ℤ
protocol_10 = pos 10

abbrev pub protocol_11 : ℤ
protocol_11 = pos 11

-- struct header_toc_row: offsets into the parsed buffer, and `status == 1`.
pub record Row : Type 0 where
  pub init : ℕ
  pub end : ℕ
  pub found : Bool

-- struct headers_toc, with the buffer that its rows point into; `length` is that of the list.
pub record Toc : Type 0 where
  pub base : Bytes
  pub rows : List Row

-- struct response_headers
pub record ResponseHeaders : Type 0 where
  pub status : ℕ
  pub custom_status : Pointer
  pub content_length : ℤ
  pub real_length : ℤ
  pub cgi : ℕ
  pub pconnections_left : ℤ
  pub range_from : ℤ
  pub range_to : ℤ
  pub transfer_encoding : ℤ
  pub breakline : ℤ
  pub connection : ℤ
  pub last_modified : ℤ
  pub content_type : Pointer
  pub content_encoding : Pointer
  pub location : Option Bytes
  pub extra_rows : Option (List Bytes)

-- struct file_info
pub record FileInfo : Type 0 where
  pub size : ℤ
  pub last_modification : ℤ
  pub exists : Bool
  pub is_file : Bool
  pub is_link : Bool
  pub is_directory : Bool
  pub exec_access : Bool
  pub read_access : Bool
  -- O_NOATIME among `flags_read_only`
  pub no_atime : Bool

-- struct session_request
pub record SessionRequest : Type 0 where
  pub body : Pointer
  pub headers_toc : Toc
  pub method : Method
  pub uri : Pointer
  pub uri_processed : Pointer
  pub query_string : Pointer
  pub protocol : ℤ
  pub keep_alive : Bool
  pub close_now : Bool
  pub content_length : ℤ
  pub content_type : Pointer
  pub connection : Pointer
  pub host : Pointer
  pub host_port : Pointer
  pub if_modified_since : Pointer
  pub range : Pointer
  pub post_data : Pointer
  pub real_path : Pointer
  pub user_home : Bool
  pub port : ℤ
  pub fd_file : ℤ
  pub stage30_blocked : Bool
  pub loop : ℕ
  pub bytes_to_send : ℤ
  pub bytes_offset : ℤ
  pub file_info : FileInfo
  pub headers : ResponseHeaders
  pub handled_by : Bool

-- MK_PLUGIN_RET_CONTINUE
abbrev pub ret_continue : ℤ
ret_continue = pos 100

pub data Status : Type 0 where
  incomplete completed : Status

-- struct client_session. `body` holds the bytes read so far, so its length is `body_length`.
pub record ClientSession : Type 0 where
  pub socket : ℕ
  pub pipelined : Bool
  pub counter_connections : ℕ
  pub status : Status
  pub body : Bytes
  pub body_fixed : Bool
  pub body_size : ℕ
  pub body_pos_end : ℤ
  pub first_method : Method
  pub init_time : ℕ
  pub request_list : List SessionRequest

-- struct server_config
pub record ServerConfig : Type 0 where
  pub keep_alive : Bool
  pub max_keep_alive_request : ℕ
  pub keep_alive_timeout : ℕ
  pub timeout : ℕ
  pub resume : Bool
  pub symlink : Bool
  pub max_request_size : ℕ
  pub standard_port : ℕ
  pub worker_capacity : ℕ
  pub workers : ℕ

-- mk_header_response_reset. It leaves the lengths, the count of connections, `breakline` and the custom
-- status as they are, which are 0 and NULL here.
pub response_reset : ResponseHeaders
response_reset = record {
  status = 0;
  custom_status = null;
  content_length = minus_one;
  real_length = pos 0;
  cgi = 0;
  pconnections_left = pos 0;
  range_from = minus_one;
  range_to = minus_one;
  transfer_encoding = minus_one;
  breakline = pos 0;
  connection = pos 0;
  last_modified = minus_one;
  content_type = null;
  content_encoding = null;
  location = none;
  extra_rows = none;
}

-- mk_request_init
unfoldable pub request_init : SessionRequest
request_init = record {
  body = null;
  headers_toc = record { base = []; rows = [] };
  method = unknown;
  uri = null;
  uri_processed = null;
  query_string = null;
  protocol = pos 0;
  keep_alive = false;
  close_now = false;
  content_length = pos 0;
  content_type = null;
  connection = null;
  host = null;
  host_port = null;
  if_modified_since = null;
  range = null;
  post_data = null;
  real_path = null;
  user_home = false;
  port = pos 0;
  fd_file = minus_one;
  stage30_blocked = false;
  loop = 0;
  bytes_to_send = minus_one;
  bytes_offset = pos 0;
  file_info = record {
    size = minus_one;
    last_modification = pos 0;
    exists = false;
    is_file = false;
    is_link = false;
    is_directory = false;
    exec_access = false;
    read_access = false;
    no_atime = false;
  };
  headers = response_reset;
  handled_by = false;
}
