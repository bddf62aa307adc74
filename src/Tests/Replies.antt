-- ===== src/Tests/Replies.antt =====
-- Tests of the response headers, the virtual hosts, mk_request_process and mk_conn_write.
use monkey.Prelude.{
  All, ◌⊎◌, ◌<◌, ◌≤◌, ◌^◌, ◌≡◌, ◌≢◌, ◌↔◌, refl, Option, none, some, List, [], ◌∷◌, ◌++◌, length,
  arith, ℤ, pos, negsuc, minus_one, ◌+ℤ◌, ◌-ℤ◌,
}
use monkey.Libc.{
  Bytes, strcmp, codes, cstr, memchr, memrchr, equal_by, starts_by, find_by, isdigit, tolower,
  toupper,
}
use monkey.Libc.Numbers.{strtol, to_int}
use monkey.Text.{
  string_itop, char_search, char_search_r, string_search_n, string_search_len, search_loop,
}
use monkey.Text.Decimal.{strtol-string_itop}
use monkey.Url.{url_decode}
use monkey.Types.{get, SessionRequest, request_init, response_reset, endblock}
use monkey.Toc.{toc_parse, toc_loop, header_get, get_loop, row_matches, row_value}
use monkey.Date.{Tm, utime2gmt, cache_get}
use monkey.Http.Methods.{protocol_check}
use monkey.Http.Status.{find_status, status_response}
use monkey.Http.Send.{send_file}
use monkey.Sched.{register_thread}
use monkey.Sched.Queues.{register_thread-IsNode}
use monkey.Session.{session_get}
use monkey.Request.Header.{
  header_process, process_text, process_line, process_headers, uri_bounds, split_query,
  pointer_create, with_line, host_step, host_port_at, to_short, own_headers, connection_step,
  default_keep_alive,
}
use monkey.Response.{
  Banner, add_entry, add_content_length, status_line, gmt_of, header_send, extra_entries,
}
use monkey.Response.Entries.{header_entries, header_send-entries}
use monkey.Response.Length.{content_length_iff}
use monkey.Mime.{Mimetype, MimeTables, mimetype_find}
use monkey.Mime.Lookup.{Sorted}
use monkey.Mime.Files.{CommonType, NoCommonType, OtherType, mimetype_find-ByName}
use monkey.Types.{null}
use monkey.Serve.Plugins.{Action, run_stage_40}
use monkey.Serve.Errors.{send_chunk}
use monkey.Serve.Write.{handler_write, write_loop, write_node, stops}
use monkey.Worker.{Thread, proceed}
use monkey.Worker.Calls.{IsThread}
use monkey.Worker.Write.{conn_write, write_session, after_write}
use monkey.Worker.Written.{conn_write-IsThread}
use monkey.Tests.Answers.{test_config, test_server, test_session, looked_up}

strtol-string_itop_example : strtol (string_itop (negsuc 41)) ≡ negsuc 41
strtol-string_itop_example = strtol-string_itop (negsuc 41) (omega arith) (omega arith)

content_length_iff_example :
    (add_content_length (record response_reset { content_length = pos 5000000000 }) (some [])
      ≡ add_entry (codes "Content-Length: ") (string_itop (to_int (pos 5000000000))) (some []))
    × ((strtol (string_itop (to_int (pos 5000000000))) ≡ pos 5000000000) ↔ (5000000000 < 2 ^ 31))
content_length_iff_example =
    content_length_iff (record response_reset { content_length = pos 5000000000 }) 5000000000 []
      refl

abbrev one_day : Tm
one_day = record {
  tm_year = 70;
  tm_mon = 0;
  tm_mday = 1;
  tm_hour = 0;
  tm_min = 0;
  tm_sec = 1;
  tm_wday = 4;
}

-- The date 1 is in the cache.
abbrev test_banner : Banner
test_banner = record {
  host_signature = codes "Server: Monkey";
  current_time = codes "today\r\n";
  gmtime = λ date. some one_day;
  clock = none;
  cache = record { time = pos 1; text = codes "Thu, 01 Jan 1970 00:00:01 GMT\r\n"; hits = 1 } ∷ [];
}

abbrev found_file : SessionRequest
found_file = record looked_up {
  headers = record response_reset { status = 200; content_length = pos 3; last_modified = pos 1 };
}

known_line : status_line found_file.headers ≡ some (codes "HTTP/1.1 200 OK\r\n")
unfolding status_line find_status status_response
known_line = refl

cached_date :
    gmt_of test_banner (pos 1) ≡ (pos 31, some (codes "Thu, 01 Jan 1970 00:00:01 GMT\r\n"))
unfolding utime2gmt cache_get
cached_date = refl

header_send-entries_example :
    (header_send test_config test_banner test_session found_file
      ≡ some (
          header_entries test_config test_banner test_session found_file
            (codes "HTTP/1.1 200 OK\r\n")
            31
            (codes "Thu, 01 Jan 1970 00:00:01 GMT\r\n")
          ++ extra_entries found_file.headers))
    × (length (
          header_entries test_config test_banner test_session found_file
            (codes "HTTP/1.1 200 OK\r\n")
            31
            (codes "Thu, 01 Jan 1970 00:00:01 GMT\r\n"))
        ≤ 27)
header_send-entries_example =
    header_send-entries test_config test_banner test_session found_file
      (codes "HTTP/1.1 200 OK\r\n") 31 (codes "Thu, 01 Jan 1970 00:00:01 GMT\r\n") known_line
      cached_date

abbrev plain_request : SessionRequest
plain_request = record request_init {
  body = record { data_at = some (codes "GET /a HTTP/1.1" ++ endblock); len = 15 };
  method = get;
}

abbrev request_in : Option (ℤ × SessionRequest) → SessionRequest
request_in none = request_init
request_in (some (r, sr)) = sr

plain_test :
    header_process test_config plain_request
    ≡ some (pos 0, request_in (header_process test_config plain_request))
unfolding header_process process_text process_line process_headers uri_bounds split_query
    pointer_create with_line host_step host_port_at to_short own_headers connection_step
    default_keep_alive char_search char_search_r string_search_n string_search_len search_loop cstr
    memchr memrchr equal_by starts_by find_by tolower toupper toc_parse toc_loop header_get get_loop
    row_matches row_value url_decode protocol_check to_int strtol isdigit request_init ◌+ℤ◌ ◌-ℤ◌
plain_test = refl

-- A session whose one request has three bytes of a file left to send.
abbrev sending : Thread
sending = record {
  node = register_thread 2;
  sessions =
      record test_session { request_list = record looked_up { bytes_to_send = pos 3 } ∷ [] } ∷ [];
}

sending-IsThread : IsThread test_config 2 sending
sending-IsThread = record {
  node = register_thread-IsNode 2;
  buffers = (
    record { within = omega arith; fixed = λ e. refl; dynamic = λ e. absurd (ground arith) },
    tt,
  );
  distinct = (tt, tt);
}

abbrev written : Option (ℤ × Thread × List Action) → ℤ × Thread × List Action
written none = (minus_one, sending, [])
written (some w) = w

sending_test :
    conn_write test_server proceed 120 3 sending
    ≡ some (written (conn_write test_server proceed 120 3 sending))
unfolding conn_write write_session handler_write write_loop write_node send_chunk send_file stops
    run_stage_40 session_get ◌-ℤ◌ ◌+ℤ◌ after_write request_init to_int
sending_test = refl

conn_write-IsThread_example :
    IsThread test_config 2 (written (conn_write test_server proceed 120 3 sending)).1
conn_write-IsThread_example =
    conn_write-IsThread test_server 2 proceed 120 3 sending
      (written (conn_write test_server proceed 120 3 sending)).0
      (written (conn_write test_server proceed 120 3 sending)).1
      (written (conn_write test_server proceed 120 3 sending)).2 sending-IsThread sending_test

abbrev entry : Bytes → Mimetype
entry name = record { name = name; mime_type = null }

abbrev entries : List Mimetype
entries = entry (codes "a") ∷ entry (codes "b") ∷ entry (codes "c") ∷ []

entries-Sorted : Sorted entries
unfolding strcmp
entries-Sorted = (
  ((λ e. ground (arith, e)), tt),
  (refl, (refl, tt)),
  (((λ e. ground (arith, e)), tt), (refl, tt), (((λ e. ground (arith, e)), tt), tt, tt)),
)

abbrev tables : MimeTables
tables = record { mimecommon = []; mimearr = entries; mimetype_default = entry (codes "d") }

mimetype_find-ByName_example :
    ((m : Mimetype) × CommonType tables (codes "b") m
      × (mimetype_find tables (codes "x.b") 3 ≡ some m))
    ⊎ (NoCommonType tables (codes "b")
        × (((m : Mimetype) × OtherType tables (codes "b") m
              × (mimetype_find tables (codes "x.b") 3 ≡ some m))
            ⊎ (All (λ n. n.name ≢ codes "b") tables.mimearr
                × (mimetype_find tables (codes "x.b") 3 ≡ none))))
mimetype_find-ByName_example =
    mimetype_find-ByName tables b'x' [] (codes "b") ((λ e. ground (arith, e)), tt)
      ((λ e. ground (arith, e)), tt) entries-Sorted
