-- ===== src/Request/Blocks.antt =====
-- The blocks that mk_request_parse of src/mk_request.c makes of a keep-alive session's bytes.
use monkey.Prelude.{
  ℕ, zero, suc, ◌+◌, ◌-◌, ◌^◌, ◌<◌, ◌≤◌, ◌≡◌, ◌≢◌, refl, sym, ap, subst, ◌∙◌, ◌⊎◌, inl, inr, true,
  false, some, List, [], ◌∷◌, ◌++◌, append-nil, append_assoc, length, drop, drop-drop, All,
  All-drop, arith, leb, ◌==◌, if◌then◌else◌, ℤ, pos, pos_part, ◌+ℤ◌, Bool-cases,
}
use monkey.Libc.{starts_by, strstr}
use monkey.Libc.Find.{find_by-starts, find_by-first, find_by-found}
use monkey.Text.{string_search}
use monkey.Types.{SessionRequest, ClientSession, endblock, sub_word}
use monkey.Http.Methods.{method_get}
use monkey.Http.Completion.{exact, IsEnd, block-IsEnd}
use monkey.Request.{
  block_end, block_request, link, parse_loop, all_pipeline, check_pipeline, request_parse,
}

-- The requests of a buffer from position `i` on, whose last header ends at `last`: each goes from where
-- the one before has ended, line breaks included, to the next header's end.
pub data Blocks (cs : ClientSession) (last : ℕ) : ℕ → List SessionRequest → Type 0 where
  done : {i : ℕ} → last < i → Blocks cs last i []
  block :
      {i : ℕ} {list : List SessionRequest} (sr : SessionRequest) (end : ℕ)
      → i ≤ end
      → end ≤ last
      → IsEnd cs.body end
      → ((j : ℕ) → i ≤ j → j < end → starts_by exact endblock (drop j cs.body) ≡ false)
      → sr.body.data_at ≡ some (drop i cs.body)
      → sr.body.len ≡ end - i
      → sr.method ≡ (if i == 0 then cs.first_method else method_get (drop i cs.body))
      → Blocks cs last (end + 4) list
      → Blocks cs last i (sr ∷ list)

-- Linking a request changes nothing that the blocks are read from.
Blocks-link :
    (cs : ClientSession) (sr : SessionRequest) (last : ℕ) {i : ℕ} {list : List SessionRequest}
    → Blocks (link cs sr) last i list
    → Blocks cs last i list
Blocks-link cs sr last (done lt) = done lt
Blocks-link cs sr last (block r end ge le is_end before at len method rest) =
    block r end ge le is_end before at len method (Blocks-link cs sr last rest)

-- Where the next header ends.
record NextEnd (cs : ClientSession) (last i : ℕ) : Type 0 where
  pub end : ℕ
  pub found : block_end cs i ≡ pos end
  pub ge : i ≤ end
  pub le : end ≤ last
  pub is_end : IsEnd cs.body end
  pub first : (j : ℕ) → i ≤ j → j < end → starts_by exact endblock (drop j cs.body) ≡ false

block_end_at :
    (cs : ClientSession) (i k : ℕ)
    → 0 < cs.counter_connections
    → strstr (drop i cs.body) endblock ≡ some k
    → block_end cs i ≡ pos (k + i)
unfolding block_end string_search ◌+ℤ◌
block_end_at cs i k h e = rw e (ground arith)

next_end :
    (cs : ClientSession) (last i : ℕ)
    → 0 < cs.counter_connections
    → All (λ c. c ≢ 0) cs.body
    → IsEnd cs.body last
    → i ≤ last
    → NextEnd cs last i
next_end cs last i h text at le =
    let there : starts_by exact endblock (drop (last - i) (drop i cs.body)) ≡ true =
      ap (starts_by exact endblock) (drop-drop (last - i) i last cs.body (omega arith))
      ∙ at.block in
    let (k, found, below) =
      find_by-found exact endblock (drop i cs.body) (last - i)
        (All-drop (λ c. c ≢ 0) i cs.body text) there in
    let here = find_by-starts exact endblock (drop i cs.body) k found in
    record {
      end = k + i;
      found = block_end_at cs i k h found;
      ge = omega arith;
      le = omega (arith, below);
      is_end =
          block-IsEnd cs.body (k + i)
            (ap (starts_by exact endblock) (sym (drop-drop k i (k + i) cs.body refl)) ∙ here);
      first = λ j ge lt.
          ap (starts_by exact endblock) (sym (drop-drop (j - i) i j cs.body (omega arith)))
          ∙ find_by-first exact endblock (drop i cs.body) k (j - i) found (omega arith);
    }

-- What the loop makes from position `i` on.
record Rounds (fuel i blocks : ℕ) (cs : ClientSession) (last : ℕ) : Type 0 where
  pub list : List SessionRequest
  pub result :
      parse_loop fuel i blocks cs
      ≡ (pos 0, record cs { request_list = cs.request_list ++ list }, blocks + length list)
  pub blocks_are : Blocks cs last i list

pub loop_stops :
    (fuel i blocks : ℕ) (cs : ClientSession) {last : ℕ}
    → cs.body_pos_end ≡ pos last
    → last < i
    → parse_loop fuel i blocks cs ≡ (pos 0, cs, blocks)
unfolding parse_loop
loop_stops zero i blocks cs e lt = refl
loop_stops (suc fuel) i blocks cs e lt = ground arith

pub loop_goes :
    (fuel i blocks : ℕ) (cs : ClientSession) {last : ℕ} (end : ℕ)
    → cs.body_pos_end ≡ pos last
    → i ≤ last
    → block_end cs i ≡ pos end
    → parse_loop (suc fuel) i blocks cs
      ≡ parse_loop fuel (end + 4) (blocks + 1) (link cs (block_request cs i end))
unfolding parse_loop
loop_goes fuel i blocks cs end e le found = ground arith

sub_word_small : (a b : ℕ) → b ≤ a → a < 2 ^ 64 → sub_word a b ≡ a - b
sub_word_small a b le lt = omega arith

block_request-parts :
    (cs : ClientSession) (i end : ℕ)
    → i ≤ end
    → end < 2 ^ 64
    → ((block_request cs i end).body.data_at ≡ some (drop i cs.body))
      × ((block_request cs i end).body.len ≡ end - i)
      × ((block_request cs i end).method
          ≡ (if i == 0 then cs.first_method else method_get (drop i cs.body)))
unfolding block_request
block_request-parts cs i end le lt = (refl, sub_word_small end i le lt, refl)

module _ (last : ℕ) (small : last < 2 ^ 64) where
  loop_stops-Rounds :
      (fuel i blocks : ℕ) (cs : ClientSession)
      → cs.body_pos_end ≡ pos last
      → last < i
      → Rounds fuel i blocks cs last
  loop_stops-Rounds fuel i blocks cs e lt = record {
    list = [];
    result =
        loop_stops fuel i blocks cs e lt
        ∙ ap (λ l. (pos 0, record cs { request_list = l }, blocks))
            (sym (append-nil cs.request_list))
        ∙ ap (λ n. (pos 0, record cs { request_list = cs.request_list ++ [] }, n)) (omega arith);
    blocks_are = done lt;
  }

  parse_loop-Rounds :
      (fuel i blocks : ℕ) (cs : ClientSession)
      → cs.body_pos_end ≡ pos last
      → 0 < cs.counter_connections
      → All (λ c. c ≢ 0) cs.body
      → IsEnd cs.body last
      → last < fuel + i
      → Rounds fuel i blocks cs last
  parse_loop-Rounds zero i blocks cs e h text at enough =
      loop_stops-Rounds zero i blocks cs e (omega arith)
  parse_loop-Rounds (suc fuel) i blocks cs e h text at enough = elim (Bool-cases (leb i last)) [
    | inr past ↦ loop_stops-Rounds (suc fuel) i blocks cs e (ground arith)
    | inl le ↦
        let n = next_end cs last i h text at (ground arith) in
        let sr = block_request cs i n.end in
        let rest =
          parse_loop-Rounds fuel (n.end + 4) (blocks + 1) (link cs sr) e h text at
            (omega (arith, n.ge)) in
        let parts = block_request-parts cs i n.end n.ge (omega (arith, n.le)) in
        record {
          list = sr ∷ rest.list;
          result =
              loop_goes fuel i blocks cs n.end e (ground arith) n.found
              ∙ rest.result
              ∙ ap (λ l. (pos 0, record cs { request_list = l }, blocks + 1 + length rest.list))
                  (append_assoc cs.request_list (sr ∷ []) rest.list)
              ∙ ap
                  (λ k.
                    (pos 0, record cs { request_list = cs.request_list ++ (sr ∷ rest.list) }, k))
                  (omega arith);
          blocks_are =
              block sr n.end n.ge n.le n.is_end n.first parts.0 parts.1 parts.2
                (Blocks-link cs sr last rest.blocks_are);
        }
  ]

-- What mk_request_parse makes of a keep-alive session whose last header ends at `last`.
pub record IsParsed (cs : ClientSession) (last : ℕ) (result : ℤ × ClientSession) : Type 0 where
  pub blocks_are : Blocks cs last 0 result.1.request_list
  pub accepted :
      result.0 ≡ pos 0
      → (length result.1.request_list ≤ 1) ⊎ (all_pipeline result.1.request_list ≡ true)
  pub refused :
      result.0 ≢ pos 0
      → (1 < length result.1.request_list) × (all_pipeline result.1.request_list ≡ false)
  pub same_body : (result.1.body ≡ cs.body) × (result.1.body_pos_end ≡ cs.body_pos_end)

check_pipeline-IsParsed :
    (cs : ClientSession) (last : ℕ) (list : List SessionRequest)
    → Blocks cs last 0 list
    → IsParsed cs last (check_pipeline (pos 0, record cs { request_list = list }, length list))
unfolding check_pipeline
check_pipeline-IsParsed cs last list h = elim (Bool-cases (leb (length list) 1)) [
  | inl few ↦ rw few (record {
    blocks_are = h;
    accepted = λ ok. inl (ground arith);
    refused = λ e. absurd (e refl);
    same_body = (refl, refl);
  })
  | inr many ↦ elim (Bool-cases (all_pipeline list)) [
    | inl all ↦
        rw (many, all)
          (record {
            blocks_are = h;
            accepted = λ ok. inr all;
            refused = λ e. absurd (e refl);
            same_body = (refl, refl);
          })
    | inr some_other ↦
        rw (many, some_other)
          (record {
            blocks_are = h;
            accepted = λ ok. absurd (ground arith);
            refused = λ e. (ground arith, some_other);
            same_body = (refl, refl);
          })
  ]
]

-- A keep-alive session with no request yet, whose bytes hold no NUL and are fewer than 2^64, and whose
-- `body_pos_end` is the position `last` of a header's end: mk_request_parse cuts the bytes from the
-- first on into one request for each header that ends at or before `last`, each with the method that
-- its text begins with. With two requests or more it returns 0 only if all of them use GET or HEAD, and
-- -1 only if one does not. With one request it returns 0.
pub request_parse-IsParsed :
    (cs : ClientSession) (last : ℕ)
    → 0 < cs.counter_connections
    → All (λ c. c ≢ 0) cs.body
    → length cs.body < 2 ^ 64
    → cs.request_list ≡ []
    → cs.body_pos_end ≡ pos last
    → IsEnd cs.body last
    → IsParsed cs last (request_parse cs)
unfolding request_parse
request_parse-IsParsed cs last h text small none_yet e at =
    let fuel : last < pos_part cs.body_pos_end + 2 + 0 = omega (arith, ap pos_part e) in
    let loop =
      parse_loop-Rounds last (omega (arith, at.fits)) (pos_part cs.body_pos_end + 2) 0 0 cs e h text
        at fuel in
    let whole : parse_loop (pos_part cs.body_pos_end + 2) 0 0 cs
        ≡ (pos 0, record cs { request_list = loop.list }, length loop.list) =
      loop.result
      ∙ ap (λ l. (pos 0, record cs { request_list = l ++ loop.list }, 0 + length loop.list))
          none_yet
      ∙ ap (λ n. (pos 0, record cs { request_list = loop.list }, n)) (omega arith) in
    subst (λ r. IsParsed cs last (check_pipeline r)) (sym whole)
      (check_pipeline-IsParsed cs last loop.list loop.blocks_are)
