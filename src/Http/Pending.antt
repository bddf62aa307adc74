-- ===== src/Http/Pending.antt =====
-- mk_http_pending_request of src/mk_http.c: whether all of a request has arrived.
use monkey.Prelude.{
  ℕ, ◌-◌, Bool, true, false, length, drop, ltb, ◌==◌, if◌then◌else◌, ℤ, pos, minus_one, pos_part,
  leb_ℤ, ltb_ℤ,
}
use monkey.Libc.{Bytes, strncmp_eq}
use monkey.Libc.Numbers.{to_int}
use monkey.Text.{sensitive, string_search}
use monkey.Types.{ClientSession, ServerConfig, Method, unknown, post, put, completed, endblock}
use monkey.Http.Methods.{method_get}
use monkey.MethodData.{validate_content_length}

-- `body_pos_end`, once it is found, and -1 before.
unfoldable pub find_end : Bytes → ℤ → ℤ
find_end body pos_end =
    if ltb_ℤ pos_end (pos 0)
    then (if strncmp_eq (drop (length body - 4) body) endblock 4
        then pos (length body - 4)
        else string_search body endblock sensitive)
    else pos_end

abbrev pub first_method_of : Method → Bytes → Method
first_method_of unknown body = method_get body
first_method_of m body = m

abbrev pub sends_data : Method → Bool
sends_data post = true
sends_data put = true
sends_data _ = false

-- A POST or PUT request whose header ends at `end`: the returned value, and whether the request is
-- marked as completed.
unfoldable pub pending_data : ServerConfig → Bytes → ℕ → ℤ × Bool
pending_data config body end =
    let current = length body - end - 4 in
    let content_length = to_int (validate_content_length body current) in
    if leb_ℤ (pos config.max_request_size) content_length
    then (pos 0, false)
    else if end == length body - 4
    then (if leb_ℤ content_length (pos 0) then (pos 0, true) else (minus_one, false))
    else if ltb_ℤ (pos current) content_length
    then (minus_one, false)
    else (pos 0, true)

abbrev pub complete_if : Bool → ClientSession → ClientSession
complete_if true cs = record cs { status = completed }
complete_if false cs = cs

unfoldable pub pending_method : ServerConfig → ClientSession → ℤ × ClientSession
pending_method config cs =
    if sends_data cs.first_method
    then (if ltb_ℤ (pos 0) cs.body_pos_end
        then (let result = pending_data config cs.body (pos_part cs.body_pos_end) in
            (result.0, complete_if result.1 cs))
        else (minus_one, cs))
    else (pos 0, record cs { status = completed })

unfoldable pub pending_request : ServerConfig → ClientSession → ℤ × ClientSession
unfolding pending_method
pending_request config cs =
    let end = find_end cs.body cs.body_pos_end in
    if ltb (length cs.body) 4
    then (minus_one, cs)
    else if ltb_ℤ end (pos 0)
    then (minus_one, cs)
    else pending_method config
        (record cs { body_pos_end = end; first_method = first_method_of cs.first_method cs.body })
