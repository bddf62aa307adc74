-- ===== src/Request/Single.antt =====
-- mk_request_parse of src/mk_request.c on the first request of a connection, and on a block whose end is
-- not found.
use monkey.Prelude.{
  ℕ, suc, ◌+◌, ◌-◌, ◌^◌, ◌<◌, ◌≡◌, ap, ◌∙◌, none, List, [], ◌∷◌, ◌++◌, drop, arith, pos, pos_part,
  ◌+ℤ◌,
}
use monkey.Libc.{strstr}
use monkey.Text.{string_search}
use monkey.Types.{SessionRequest, ClientSession, endblock}
use monkey.Request.{block_end, block_request, link, parse_loop, check_pipeline, request_parse}
use monkey.Request.Blocks.{loop_stops, loop_goes}

block_end_first :
    (cs : ClientSession) (i : ℕ) → cs.counter_connections ≡ 0 → block_end cs i ≡ cs.body_pos_end
unfolding block_end
block_end_first cs i e = ground arith

one_block :
    (cs : ClientSession) (list : List SessionRequest)
    → check_pipeline (pos 0, record cs { request_list = list }, 0 + 1)
      ≡ (pos 0, record cs { request_list = list })
unfolding check_pipeline
one_block cs list = ground arith

-- In a session that has not ended a request yet, with no request listed and a header that ends at
-- `last`, mk_request_parse returns 0 and lists one request, for the bytes before `last`, however many
-- headers stand in the buffer.
pub request_parse_first :
    (cs : ClientSession) (last : ℕ)
    → cs.counter_connections ≡ 0
    → cs.request_list ≡ []
    → cs.body_pos_end ≡ pos last
    → request_parse cs ≡ (pos 0, record cs { request_list = block_request cs 0 last ∷ [] })
unfolding request_parse
request_parse_first cs last first none_yet e =
    let sr = block_request cs 0 last in
    let fuel : pos_part cs.body_pos_end + 2 ≡ suc (last + 1) = omega (arith, ap pos_part e) in
    ap (λ n. check_pipeline (parse_loop n 0 0 cs)) fuel
    ∙ ap check_pipeline (
        loop_goes (last + 1) 0 0 cs last e (omega arith) (block_end_first cs 0 first ∙ e)
        ∙ loop_stops (last + 1) (last + 4) (0 + 1) (link cs sr) e (omega arith))
    ∙ one_block cs (cs.request_list ++ (sr ∷ []))
    ∙ ap (λ l. (pos 0, record cs { request_list = l ++ (sr ∷ []) })) none_yet

-- In a keep-alive session, where the bytes from `i` on, behind the first request, have no header's end
-- before their first NUL, the block that begins at `i` ends at `i - 1`, and its length is 2^64 - 1.
pub block_end_lost :
    (cs : ClientSession) (i : ℕ)
    → 0 < cs.counter_connections
    → 0 < i
    → i < 2 ^ 64
    → strstr (drop i cs.body) endblock ≡ none
    → (block_end cs i ≡ pos (i - 1)) × ((block_request cs i (i - 1)).body.len ≡ 2 ^ 64 - 1)
unfolding block_end block_request string_search ◌+ℤ◌
block_end_lost cs i h pi small e = (rw e (ground arith), omega arith)
