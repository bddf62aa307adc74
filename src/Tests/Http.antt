-- ===== src/Tests/Http.antt =====
-- Tests of Http and MethodData: src/mk_http.c and src/mk_method.c.
use monkey.Prelude.{
  ◌≡◌, refl, true, false, ◌++◌, length, arith, if◌then◌else◌, pos, minus_one, ◌+ℤ◌, ◌-ℤ◌, pos_part,
}
use monkey.Libc.{Bytes, codes, memchr, equal_by}
use monkey.Libc.Numbers.{to_int}
use monkey.Text.{char_search}
use monkey.Types.{
  get, SessionRequest, ClientSession, ServerConfig, request_init, literal, response_reset, endblock,
}
use monkey.Http.Methods.{method_get, method_check}
use monkey.Http.Range.{range_set, span_of}
use monkey.Http.Spans.{between, span, accepted, range_set-span}
use monkey.Http.Pending.{pending_request, pending_method, find_end}
use monkey.Http.Completion.{Ready, pending_request-Ready}
use monkey.MethodData.{parse_data, Tells, parse_data-Tells, validate_content_length}
use monkey.Session.{new_session}

abbrev test_config : ServerConfig
test_config = record {
  keep_alive = true;
  max_keep_alive_request = 2;
  keep_alive_timeout = 15;
  timeout = 15;
  resume = true;
  symlink = false;
  max_request_size = 16384;
  standard_port = 80;
  worker_capacity = 2;
  workers = 1;
}

abbrev request_text : Bytes
request_text = codes "GET /" ++ endblock

abbrev test_session : ClientSession
test_session = record (new_session 3 100) { body = request_text }

abbrev ranged : SessionRequest
ranged = record request_init {
  range = literal (codes "bytes=6-9") 9;
  headers = record response_reset { range_from = pos 6; range_to = pos 9 };
}

method_get_test : method_get (codes "GET /") ≡ get
unfolding method_get method_check char_search memchr equal_by
method_get_test = refl

-- bytes=6-9 of a file of ten bytes
range_set-span_example : range_set test_config ranged (pos 10) ≡ (
  (if accepted (between 6 9) 10 then pos 0 else minus_one),
  record ranged {
    bytes_offset = (span (between 6 9) 10).offset;
    bytes_to_send = (span (between 6 9) 10).count;
  },
)
range_set-span_example =
    range_set-span test_config ranged (between 6 9) 10 refl refl (omega arith, omega arith) refl
      refl

-- bytes=6-9 of a file of eight bytes
range_set_test : (range_set test_config ranged (pos 8)).0 ≡ pos 0
unfolding range_set span_of ◌-ℤ◌ ◌+ℤ◌ to_int
range_set_test = refl

pending_test : (pending_request test_config test_session).0 ≡ pos 0
unfolding pending_request pending_method find_end method_get method_check char_search memchr
    equal_by
pending_test = refl

pending_request-Ready_example :
    Ready test_config test_session
      (pending_request test_config test_session).1
      (pos_part (find_end request_text minus_one))
pending_request-Ready_example = pending_request-Ready test_config test_session 0 pending_test

parse_data-Tells_example :
    Tells test_session request_init
      (validate_content_length request_text (length request_text))
      (parse_data test_session request_init)
parse_data-Tells_example = parse_data-Tells test_session request_init
