-- ===== src/Tests/Requests.antt =====
-- Tests of Request: mk_request_parse and mk_request_header_process of src/mk_request.c.
use monkey.Prelude.{drop, ◌+◌}
use monkey.Prelude.{
  ℕ, ◌-◌, ◌^◌, ◌≡◌, ◌≢◌, refl, true, false, Option, none, some, ◌∷◌, ◌++◌, All, arith, ℤ, pos,
  minus_one, ◌+ℤ◌, ◌-ℤ◌,
}
use monkey.Libc.{
  Bytes, codes, cstr, memchr, memrchr, equal_by, starts_by, find_by, isdigit, tolower, toupper,
}
use monkey.Libc.Numbers.{to_int, strtol}
use monkey.Text.{char_search, char_search_r, string_search_n, string_search_len, search_loop}
use monkey.Url.{url_decode}
use monkey.Types.{
  Pointer, SessionRequest, ClientSession, ServerConfig, request_init, get, endblock, crlf,
}
use monkey.Toc.{toc_parse, toc_loop, header_get, get_loop, row_matches, row_value}
use monkey.Http.Methods.{protocol_check}
use monkey.Http.Completion.{IsEnd}
use monkey.Session.{new_session}
use monkey.Request.{request_parse}
use monkey.Request.Blocks.{IsParsed, request_parse-IsParsed}
use monkey.Request.Header.{
  header_process, process_text, process_line, process_headers, uri_bounds, split_query,
  pointer_create, with_line, host_step, host_port_at, to_short, own_headers, connection_step,
  default_keep_alive,
}
use monkey.Request.Outcome.{host_step_empty}
use monkey.Request.Processed.{Processed, header_process-Processed}

abbrev test_config : ServerConfig
test_config = record {
  keep_alive = true;
  max_keep_alive_request = 2;
  keep_alive_timeout = 15;
  timeout = 15;
  resume = true;
  symlink = false;
  max_request_size = 16384;
  standard_port = 80;
  worker_capacity = 2;
  workers = 1;
}

-- Two pipelined requests.
abbrev two_requests : Bytes
two_requests = codes "GET /" ++ endblock ++ codes "HEAD /" ++ endblock

abbrev pipelined : ClientSession
pipelined = record (new_session 3 100) {
  counter_connections = 1;
  body = two_requests;
  body_pos_end = pos 15;
  first_method = get;
}

pipelined_text : All (λ c. c ≢ 0) two_requests
pipelined_text = ground arith

pipelined-IsEnd : IsEnd two_requests 15
unfolding starts_by
pipelined-IsEnd = record { block = refl; fits = omega arith }

request_parse-IsParsed_example : IsParsed pipelined 15 (request_parse pipelined)
request_parse-IsParsed_example =
    request_parse-IsParsed pipelined 15 (omega arith) pipelined_text (omega arith) refl refl
      pipelined-IsEnd

abbrev first_session : ClientSession
first_session = record pipelined { counter_connections = 0 }

-- A NUL stands in front of the second header's end.
abbrev broken : ClientSession
broken = record pipelined { body = codes "GET /" ++ endblock ++ (0 ∷ codes "HEAD ") ++ endblock }

abbrev empty_host : Pointer
empty_host = record { data_at = some (10 ∷ codes "A: b" ++ endblock); len = 2 ^ 64 - 1 }

colon_test : char_search_r (10 ∷ codes "A: b" ++ endblock) b':' minus_one ≡ pos 2
unfolding char_search_r memrchr cstr
colon_test = refl

host_step_empty_example : host_step test_config empty_host request_init ≡ none
host_step_empty_example =
    host_step_empty test_config empty_host request_init (10 ∷ codes "A: b" ++ endblock) 2 refl refl
      colon_test (omega arith)

abbrev request_of : Bytes → ℕ → SessionRequest
request_of text len = record request_init {
  body = record { data_at = some text; len = len };
  method = get;
}

abbrev plain_request : SessionRequest
plain_request = request_of (codes "GET /a?b HTTP/1.1" ++ endblock) 17

abbrev request_in : Option (ℤ × SessionRequest) → SessionRequest
request_in none = request_init
request_in (some (r, sr)) = sr

plain_test :
    header_process test_config plain_request
    ≡ some (pos 0, request_in (header_process test_config plain_request))
unfolding header_process process_text process_line process_headers uri_bounds split_query
    pointer_create with_line host_step host_port_at to_short own_headers connection_step
    default_keep_alive char_search char_search_r string_search_n string_search_len search_loop cstr
    memchr memrchr equal_by starts_by find_by tolower toupper toc_parse toc_loop header_get get_loop
    row_matches row_value url_decode protocol_check to_int strtol isdigit request_init ◌+ℤ◌ ◌-ℤ◌
plain_test = refl

header_process-Processed_example :
    Processed plain_request (request_in (header_process test_config plain_request))
header_process-Processed_example =
    header_process-Processed test_config (codes "GET /a?b HTTP/1.1" ++ endblock) plain_request
      (request_in (header_process test_config plain_request)) refl plain_test

-- An empty Host value, and a colon in the next header.
abbrev hostile : Bytes
hostile = codes "GET / HTTP/1.1" ++ crlf ++ codes "Host:" ++ crlf ++ codes "A: b" ++ endblock

hostile_test : header_process test_config (request_of hostile 27) ≡ none
unfolding header_process process_text process_line process_headers uri_bounds split_query
    pointer_create with_line host_step host_port_at to_short own_headers connection_step
    default_keep_alive char_search char_search_r string_search_n string_search_len search_loop cstr
    memchr memrchr equal_by starts_by find_by tolower toupper toc_parse toc_loop header_get get_loop
    row_matches row_value url_decode protocol_check to_int strtol isdigit request_init ◌+ℤ◌ ◌-ℤ◌
hostile_test = refl

-- "GET /? HTTP/1.1"
question_test : memchr (drop 4 (codes "GET /? HTTP/1.1")) b'?' (5 + 2) ≡ some 1
unfolding memchr
question_test = refl
