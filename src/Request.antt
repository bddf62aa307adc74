-- ===== src/Request.antt =====
-- The parsing of a session's bytes into requests: mk_request_parse of src/mk_request.c.
pub mod Blocks
pub mod Single
pub mod Header
pub mod Line
pub mod Outcome
pub mod Processed
use monkey.Prelude.{
  ℕ, zero, suc, ◌+◌, ◌-◌, Bool, true, false, ◌||◌, ◌&&◌, not, Option, none, some, List, [], ◌∷◌,
  ◌++◌, length, drop, ltb, leb, ◌==◌, if◌then◌else◌, ℤ, pos, negsuc, minus_one, pos_part, leb_ℤ,
  ltb_ℤ, ◌+ℤ◌, ◌-ℤ◌,
}
use monkey.Libc.{Bytes}
use monkey.Text.{sensitive, string_search}
use monkey.Types.{
  Pointer, Method, unknown, get, post, head, put, delete, SessionRequest, ClientSession,
  request_init, null, endblock, sub_word,
}
use monkey.Http.Methods.{method_get}

-- Where the block that begins at `i` ends: a keep-alive session may hold pipelined requests.
unfoldable pub block_end : ClientSession → ℕ → ℤ
block_end cs i =
    if ltb 0 cs.counter_connections
    then string_search (drop i cs.body) endblock sensitive +ℤ pos i
    else cs.body_pos_end

abbrev pub is_post : Method → Bool
is_post post = true
is_post _ = false

abbrev pub may_pipeline : Method → Bool
may_pipeline get = true
may_pipeline head = true
may_pipeline _ = false

-- mk_method_get_data. An int that is negative becomes a huge length.
unfoldable pub get_data : Bytes → ℕ → ℕ → Pointer
get_data body offset body_length = record {
  data_at = some (drop offset body);
  len = sub_word body_length offset;
}

-- The request of the block from `i` up to `end`.
unfoldable pub block_request : ClientSession → ℕ → ℕ → SessionRequest
block_request cs i end =
    let method = (if i == 0 then cs.first_method else method_get (drop i cs.body)) in
    record request_init {
      body = record { data_at = some (drop i cs.body); len = sub_word end i };
      method = method;
      post_data = (if is_post method then get_data cs.body (end + 4) (length cs.body) else null);
    }

abbrev pub link : ClientSession → SessionRequest → ClientSession
link cs sr = record cs { request_list = cs.request_list ++ (sr ∷ []) }

-- The loop from `i` on, with the blocks so far: the returned value, the session and the blocks.
unfoldable pub parse_loop : ℕ → ℕ → ℕ → ClientSession → ℤ × ClientSession × ℕ
parse_loop zero i blocks cs = (pos 0, cs, blocks)
parse_loop (suc fuel) i blocks cs = elim (leb_ℤ (pos i) cs.body_pos_end) [
  | false ↦ (pos 0, cs, blocks)
  | true ↦ elim (block_end cs i) [
    | negsuc _ ↦ (minus_one, cs, blocks)
    | pos end ↦ parse_loop fuel (end + 4) (blocks + 1) (link cs (block_request cs i end))
  ]
]

abbrev pub all_pipeline : List SessionRequest → Bool
all_pipeline [] = true
all_pipeline (sr ∷ list) = may_pipeline sr.method && all_pipeline list

-- The check of a session with more than one block.
unfoldable pub check_pipeline : ℤ × ClientSession × ℕ → ℤ × ClientSession
check_pipeline (r, cs, blocks) =
    if ltb_ℤ r (pos 0)
    then (r, cs)
    else if leb blocks 1
    then (pos 0, cs)
    else if all_pipeline cs.request_list
    then (pos 0, record cs { pipelined = true })
    else (minus_one, cs)

-- mk_request_parse. A block begins three bytes behind the one before at least.
unfoldable pub request_parse : ClientSession → ℤ × ClientSession
unfolding parse_loop
request_parse cs = check_pipeline (parse_loop (pos_part cs.body_pos_end + 2) 0 0 cs)
