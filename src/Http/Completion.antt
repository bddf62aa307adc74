-- ===== src/Http/Completion.antt =====
-- The answer of mk_http_pending_request of src/mk_http.c, and the end of a header.
use monkey.Prelude.{
  ℕ, suc, ◌+◌, ◌-◌, ◌≤◌, ◌≡◌, refl, sym, ap, ◌∙◌, ◌⊎◌, inl, inr, Bool, true, false, Option, none,
  some, [], ◌∷◌, length, drop, arith, ltb, ◌==◌, ℤ, pos, negsuc, pos_part, ltb_ℤ, ◌≤ℤ◌, Bool-cases,
  length-drop, position,
}
use monkey.Libc.{Bytes, strncmp_eq, equal_by, starts_by, strstr}
use monkey.Libc.Find.{find_by-starts}
use monkey.Libc.Numbers.{to_int}
use monkey.Text.{string_search}
use monkey.Types.{ClientSession, ServerConfig, completed, endblock}
use monkey.MethodData.{validate_content_length}
use monkey.Http.Pending.{
  find_end, sends_data, first_method_of, pending_data, complete_if, pending_method, pending_request,
}

abbrev pub exact : ℕ → ℕ
exact c = c

-- No NUL is part of the text.
abbrev pub NoNul : Bytes → Type 0
NoNul [] = ℕ
NoNul (y ∷ s) = ((y == 0) ≡ false) × NoNul s

equal_by-starts_by :
    (needle s : Bytes)
    → NoNul needle
    → equal_by exact s needle (length needle) ≡ true
    → starts_by exact needle s ≡ true
unfolding equal_by starts_by
equal_by-starts_by [] s h e = refl
equal_by-starts_by (y ∷ needle) [] h e = ground arith
equal_by-starts_by (y ∷ needle) (x ∷ s) (ne, h) e =
    let rest = equal_by-starts_by needle s h in ground (arith, rest)

starts_by-length :
    (needle s : Bytes) → NoNul needle → starts_by exact needle s ≡ true → length needle ≤ length s
unfolding starts_by
starts_by-length [] s h e = omega arith
starts_by-length (y ∷ needle) [] h e = absurd (ground arith)
starts_by-length (y ∷ needle) (x ∷ s) (ne, h) e =
    let rest = starts_by-length needle s h in ground (arith, rest)

endblock_text : NoNul endblock
endblock_text = (refl, (refl, (refl, (refl, 0))))

-- The end of the header stands at `end`.
pub record IsEnd (body : Bytes) (end : ℕ) : Type 0 where
  pub block : starts_by exact endblock (drop end body) ≡ true
  pub fits : end + 4 ≤ length body

-- `body_pos_end` is unset, or the end of the header.
abbrev pub Marks : Bytes → ℤ → Type 0
Marks body (pos end) = IsEnd body end
Marks body (negsuc k) = ℕ

pub block-IsEnd :
    (body : Bytes) (end : ℕ) → starts_by exact endblock (drop end body) ≡ true → IsEnd body end
block-IsEnd body end e =
    let len = starts_by-length endblock (drop end body) endblock_text e in
    record { block = e; fits = omega (arith, len, length-drop end body) }

not_below : (end : ℕ) → ltb (end + 0) 0 ≡ false
not_below end = ground arith

is_below : (k : ℕ) → ltb 0 (0 + suc k) ≡ true
is_below k = ground arith

find_end-Marks :
    (body : Bytes) (pos_end : ℤ) → Marks body pos_end → Marks body (find_end body pos_end)
unfolding find_end string_search
find_end-Marks body (pos end) h = rw (not_below end) h
find_end-Marks body (negsuc k) h =
    elim (Bool-cases (strncmp_eq (drop (length body - 4) body) endblock 4)) [
      | inl e ↦
          rw (is_below k, e)
            (block-IsEnd body (length body - 4)
              (equal_by-starts_by endblock (drop (length body - 4) body) endblock_text e))
      | inr e ↦ rw (is_below k, e) (found (strstr body endblock) refl)
    ]
  where
    found : (at : Option ℕ) → strstr body endblock ≡ at → Marks body (position at)
    found none e = 0
    found (some i) e = block-IsEnd body i (find_by-starts exact endblock body i e)

-- What Content-Length says of the data behind a header that ends at `end`, and what has arrived.
abbrev pub arrived : Bytes → ℕ → ℕ
arrived body end = length body - end - 4

abbrev pub announced : Bytes → ℕ → ℤ
announced body end = to_int (validate_content_length body (arrived body end))

-- A request that is reported as ready, whose header ends at `end`.
pub record Ready (config : ServerConfig) (before after : ClientSession) (end : ℕ) : Type 0 where
  pub position : after.body_pos_end ≡ pos end
  pub header : IsEnd before.body end
  pub same_body : after.body ≡ before.body
  pub no_data : sends_data after.first_method ≡ false → after.status ≡ completed
  pub data_there :
      sends_data after.first_method ≡ true
      → ((after.status ≡ completed) × (announced before.body end ≤ℤ pos (arrived before.body end)))
        ⊎ (pos config.max_request_size ≤ℤ announced before.body end)

pending_data-there :
    (config : ServerConfig) (body : Bytes) (end : ℕ)
    → (pending_data config body end).0 ≡ pos 0
    → (((pending_data config body end).1 ≡ true) × (announced body end ≤ℤ pos (arrived body end)))
      ⊎ (pos config.max_request_size ≤ℤ announced body end)
unfolding pending_data
pending_data-there config body end e = ground arith

completes :
    (config : ServerConfig) (cs : ClientSession)
    → sends_data cs.first_method ≡ false
    → pending_method config cs ≡ (pos 0, complete_if true cs)
unfolding pending_method
completes config cs e = ground arith

data_of :
    (config : ServerConfig) (cs : ClientSession)
    → sends_data cs.first_method ≡ true
    → (pending_method config cs).0 ≡ pos 0
    → let result = pending_data config cs.body (pos_part cs.body_pos_end) in
      (pending_method config cs ≡ (result.0, complete_if result.1 cs)) × (result.0 ≡ pos 0)
unfolding pending_method
data_of config cs e r = ground arith

marked_pos : (i : ℤ) → ltb_ℤ i (pos 0) ≡ false → i ≡ pos (pos_part i)
marked_pos i e = ground arith

Marks-IsEnd :
    (body : Bytes) (i : ℤ) → Marks body i → ltb_ℤ i (pos 0) ≡ false → IsEnd body (pos_part i)
Marks-IsEnd body (pos end) h e = h
Marks-IsEnd body (negsuc k) h e = absurd (ground arith)

complete_if-Ready :
    (config : ServerConfig) (done : Bool) (cs : ClientSession)
    → Marks cs.body cs.body_pos_end
    → ltb_ℤ cs.body_pos_end (pos 0) ≡ false
    → (sends_data cs.first_method ≡ false → done ≡ true)
    → (sends_data cs.first_method ≡ true
        → ((done ≡ true)
            × (announced cs.body (pos_part cs.body_pos_end)
                ≤ℤ pos (arrived cs.body (pos_part cs.body_pos_end))))
          ⊎ (pos config.max_request_size ≤ℤ announced cs.body (pos_part cs.body_pos_end)))
    → Ready config cs (complete_if done cs) (pos_part cs.body_pos_end)
complete_if-Ready config true cs h found no_data sent = record {
  position = marked_pos cs.body_pos_end found;
  header = Marks-IsEnd cs.body cs.body_pos_end h found;
  same_body = refl;
  no_data = λ _. refl;
  data_there = λ s. elim (sent s) [ inl (_, all) ↦ inl (refl, all) | inr big ↦ inr big ];
}
complete_if-Ready config false cs h found no_data sent = record {
  position = marked_pos cs.body_pos_end found;
  header = Marks-IsEnd cs.body cs.body_pos_end h found;
  same_body = refl;
  no_data = λ s. absurd (ground (arith, no_data s));
  data_there = λ s. elim (sent s) [ inl (all, _) ↦ absurd (ground arith) | inr big ↦ inr big ];
}

pending_method-Ready :
    (config : ServerConfig) (cs : ClientSession)
    → Marks cs.body cs.body_pos_end
    → (pending_method config cs).0 ≡ pos 0
    → ltb_ℤ cs.body_pos_end (pos 0) ≡ false
    → Ready config cs (pending_method config cs).1 (pos_part cs.body_pos_end)
pending_method-Ready config cs h e found = elim (Bool-cases (sends_data cs.first_method)) [
  | inr none_sent ↦
      rw (completes config cs none_sent)
        (complete_if-Ready config true cs h found (λ _. refl) (λ s. absurd (ground arith)))
  | inl sent ↦
      let result = data_of config cs sent e in
      rw result.0 (
        complete_if-Ready config (pending_data config cs.body (pos_part cs.body_pos_end)).1 cs h
          found (λ s. absurd (ground arith))
          (λ s. pending_data-there config cs.body (pos_part cs.body_pos_end) result.1))
]

abbrev pub prepared : ClientSession → ClientSession
prepared cs = record cs {
  body_pos_end = find_end cs.body cs.body_pos_end;
  first_method = first_method_of cs.first_method cs.body;
}

reaches_method :
    (config : ServerConfig) (cs : ClientSession)
    → (pending_request config cs).0 ≡ pos 0
    → (pending_request config cs ≡ pending_method config (prepared cs))
      × (ltb_ℤ (find_end cs.body cs.body_pos_end) (pos 0) ≡ false)
unfolding pending_request
reaches_method config cs e = ground arith

Ready-prepared :
    (config : ServerConfig) (cs after : ClientSession) (end : ℕ)
    → Ready config (prepared cs) after end
    → Ready config cs after end
Ready-prepared config cs after end h = record {
  position = h.position;
  header = h.header;
  same_body = h.same_body;
  no_data = h.no_data;
  data_there = h.data_there;
}

-- When mk_http_pending_request returns 0, in a session whose `body_pos_end` is unset or right,
-- `body_pos_end` is the position of a header's end that stands wholly inside the bytes read, no
-- byte is changed, a request other than POST and PUT is marked as completed, and one of these two is
-- marked as completed with all of its announced data there, unless the announced length reaches the
-- configured maximum.
pub pending_request-Ready :
    (config : ServerConfig) (cs : ClientSession)
    → Marks cs.body cs.body_pos_end
    → (pending_request config cs).0 ≡ pos 0
    → Ready config cs (pending_request config cs).1 (pos_part (find_end cs.body cs.body_pos_end))
pending_request-Ready config cs h e =
    let reached = reaches_method config cs e in
    rw reached.0 (
      Ready-prepared config cs (pending_method config (prepared cs)).1
        (pos_part (find_end cs.body cs.body_pos_end))
        (pending_method-Ready config (prepared cs) (find_end-Marks cs.body cs.body_pos_end h)
          (ap (λ r. r.0) (sym reached.0) ∙ e) reached.1))
