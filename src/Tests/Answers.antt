-- ===== src/Tests/Answers.antt =====
-- Tests of Serve, Response, Site and of mk_conn_write: a server with one file, and requests to it.
use Prim.Native.Nat.{Ordering}
use monkey.Prelude.{
  ◌≤◌, ◌^◌, ◌-◌, negsuc, ◌<◌, ◌≡◌, ◌⊎◌, refl, Bool, true, false, none, some, [], ◌∷◌, length, All,
  arith, pos, minus_one, if◌then◌else◌, eq_ℤ,
}
use monkey.Libc.{Bytes, codes, strcmp, memmem, starts_by, memchr}
use monkey.Libc.Numbers.{to_int}
use monkey.Text.{char_search}
use monkey.Types.{
  Pointer, get, SessionRequest, ClientSession, ServerConfig, request_init, response_reset,
}
use monkey.Http.Range.{range_set}
use monkey.Session.{new_session}
use monkey.Response.{text_of}
use monkey.Site.{Host, Site, regular, Stat, found, missing, System, file_get_info}
use monkey.Http.Send.{exit_abort}
use monkey.Serve.Plugins.{Server}
use monkey.Serve.Errors.{headers_sent}
use monkey.Serve.Users.{user_limit}
use monkey.Serve.Static.{send_headers}
use monkey.Serve.Init.{http_init, serve_static}
use monkey.Serve.Process.{take_user}
use monkey.Serve.Write.{write_loop}
use monkey.Serve.Known.{Fine}
use monkey.Serve.Answered.{http_init-Fine}
use monkey.Serve.Opens.{Refuses, Opens}
use monkey.Serve.Backward.{AnsweredOnce, http_init-Refuses}
use monkey.Serve.Permitted.{IsPermitted, serve_static-Permitted}
use monkey.Serve.Responses.{responses, responses-send_headers, take_user_unknown}
use monkey.Serve.Unsent.{chunk, write_loop-left}
use monkey.Serve.Order.{Ordered, write_loop-order}

abbrev pub test_config : ServerConfig
test_config = record {
  keep_alive = true;
  max_keep_alive_request = 2;
  keep_alive_timeout = 15;
  timeout = 15;
  resume = true;
  symlink = false;
  max_request_size = 16384;
  standard_port = 80;
  worker_capacity = 2;
  workers = 1;
}

abbrev pub equals : Bytes → Bytes → Bool
equals a b = elim (strcmp a b) [ Ordering.eq ↦ true | _ ↦ false ]

abbrev pub test_stat : Stat
test_stat = record {
  kind = regular;
  st_size = pos 3;
  st_mtime = pos 100;
  st_uid = 7;
  st_gid = 7;
  r_usr = true;
  r_grp = false;
  r_oth = true;
  x_usr = false;
  x_grp = false;
  x_oth = false;
}

-- The file /srv/a, and no users.
abbrev pub test_system : System
test_system = record {
  lstat = λ path. if equals path (codes "/srv/a") then found test_stat else missing;
  stat = λ path. none;
  euid = 8;
  egid = 8;
  readlink = λ path. none;
  access = λ path. false;
  open_file = λ path no_atime. if equals path (codes "/srv/a") then pos 9 else minus_one;
  getpwnam = λ user. none;
  strptime = λ date. none;
  mktime = λ tm. minus_one;
  sendfile = λ fd offset count. count;
  now = pos 1000;
}

abbrev pub test_host : Host
test_host = record {
  server_names = record { name = codes "a.b"; len = 3 } ∷ [];
  documentroot = codes "/srv";
  host_signature = codes "Monkey";
  header_host_signature = codes "Server: Monkey";
  error_pages = [];
}

abbrev pub test_site : Site
test_site = record {
  default_host = record test_host { server_names = record { name = codes "c"; len = 1 } ∷ [] };
  other_hosts = test_host ∷ [];
  index_files = none;
  user_dir = some (codes "www");
  transport = codes "http";
  open_flags_no_atime = false;
}

abbrev pub test_server : Server
test_server = record {
  config = test_config;
  site = test_site;
  sys = test_system;
  mimes = record {
    mimecommon = [];
    mimearr = [];
    mimetype_default = record {
      name = codes "default";
      mime_type = record { data_at = some (codes "text/plain\r\n"); len = 12 };
    };
  };
  stages = record { stage_20 = []; stage_30 = []; stage_40 = [] };
}

abbrev pub text_pointer : Bytes → Pointer
text_pointer text = record { data_at = some text; len = length text }

abbrev pub request_for : Bytes → SessionRequest
request_for uri = record request_init {
  method = get;
  uri = text_pointer uri;
  uri_processed = text_pointer uri;
}

abbrev pub test_session : ClientSession
test_session = new_session 3 100

abbrev backward : SessionRequest
backward = request_for (codes "/../etc")

backward_test : memmem (text_of backward.uri_processed) (codes "..") ≡ true
unfolding memmem starts_by
backward_test = refl

http_init-Refuses_example :
    All (Refuses test_host 403) (http_init test_server test_host test_session backward).log
    × AnsweredOnce test_host backward (http_init test_server test_host test_session backward)
http_init-Refuses_example =
    http_init-Refuses test_server test_host test_session backward backward_test

-- The request for /srv/a behind the checks of its path.
abbrev pub looked_up : SessionRequest
looked_up = record (request_for (codes "/a")) {
  real_path = text_pointer (codes "/srv/a");
  file_info = (file_get_info test_system (codes "/srv/a") request_init.file_info).1;
}

serve_static-Permitted_example :
    All
      (Opens (IsPermitted test_host looked_up))
      (serve_static test_server test_host test_session looked_up).log
serve_static-Permitted_example = serve_static-Permitted test_server test_host test_session looked_up

http_init-Fine_example :
    Fine (http_init test_server test_host test_session (request_for (codes "/a")))
http_init-Fine_example =
    http_init-Fine test_server test_host test_session tt (request_for (codes "/a"))

-- The last five bytes of a file of three.
abbrev beyond : SessionRequest
beyond = record looked_up {
  range = text_pointer (codes "bytes=0-4");
  headers = record response_reset {
    status = 206;
    content_length = pos 5;
    real_length = pos 3;
    range_from = pos 0;
    range_to = pos 4;
  };
}

responses-send_headers_example : responses (send_headers test_server test_host beyond).log ≡ (
    if eq_ℤ (range_set test_config (headers_sent beyond) beyond.file_info.size).0 (pos 0)
    then 1
    else 2)
responses-send_headers_example = responses-send_headers test_server test_host beyond refl refl

abbrev to_user : SessionRequest
to_user = request_for (codes "/~al")

to_user_limit : user_limit (codes "/~al") 4 < 253
unfolding user_limit char_search memchr to_int
to_user_limit = omega arith

take_user_unknown_example :
    (responses (take_user test_server test_host test_session to_user).log ≡ 2)
    × ((take_user test_server test_host test_session to_user).value ≡ some exit_abort)
take_user_unknown_example =
    take_user_unknown test_server test_host test_session (codes "www") to_user refl refl refl
      to_user_limit refl

write_loop-order_example :
    Ordered test_server test_session
      (pos 0)
      (looked_up ∷ [])
      (write_loop test_server test_session (pos 0) (looked_up ∷ []))
write_loop-order_example = write_loop-order test_server test_session (pos 0) (looked_up ∷ [])

-- A transport that sends ten bytes, and a file of more than 2^31 bytes.
abbrev slow_server : Server
slow_server = record test_server {
  sys = record test_system { sendfile = λ fd offset count. pos 10 };
}

abbrev large_request : SessionRequest
large_request = record looked_up {
  handled_by = false;
  bytes_to_send = pos 3000000010;
  bytes_offset = pos 0;
}

write_loop-left_example :
    ((chunk slow_server test_session
        (pos 0)
        large_request
        []
        3000000010
        0
        10
        refl
        refl
        refl
        refl
        (omega arith)
        (omega arith)).request.bytes_to_send
      ≡ pos (3000000010 - 10))
    × (((3000000010 - 10 < 2 ^ 31)
          × ((write_loop slow_server test_session (pos 0) (large_request ∷ [])).value
              ≡ some (pos (3000000010 - 10))))
        ⊎ ((2 ^ 31 ≤ 3000000010 - 10)
            × ((write_loop slow_server test_session (pos 0) (large_request ∷ [])).value
                ≡ (write_loop slow_server test_session
                    (negsuc (2 ^ 32 - 1 - (3000000010 - 10)))
                    []).value)))
write_loop-left_example =
    write_loop-left slow_server test_session (pos 0) large_request [] 3000000010 0 10 refl refl refl
      refl (omega arith) (omega arith)
