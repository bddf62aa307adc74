-- ===== src/Request/Outcome.antt =====
-- What the headers of a request decide in mk_request_header_process of src/mk_request.c: the host's port,
-- and whether the connection is kept.
use monkey.Prelude.{
  ℕ, ◌+◌, ◌-◌, ◌%◌, ◌^◌, ◌<◌, ◌≡◌, refl, ap, ◌∙◌, ◌⊎◌, inl, inr, Bool, true, false, not, none, some,
  arith, ℤ, pos, negsuc, minus_one, leb_ℤ, Bool-cases, Option-cases,
}
use monkey.Libc.{Bytes, codes}
use monkey.Libc.Numbers.{to_int}
use monkey.Text.{insensitive, string_search_n, char_search_r}
use monkey.Types.{Pointer, SessionRequest, ServerConfig, sub_word, protocol_10, protocol_11}
use monkey.Request.Header.{
  host_step, host_port_at, to_short, with_close, default_keep_alive, connection_step, own_lookups,
  own_headers,
}

-- The part of the request line that the headers do not change.
pub record SameLine (before after : SessionRequest) : Type 0 where
  pub uri : after.uri ≡ before.uri
  pub uri_processed : after.uri_processed ≡ before.uri_processed
  pub query_string : after.query_string ≡ before.query_string
  pub protocol : after.protocol ≡ before.protocol
  pub method : after.method ≡ before.method

host_port_at-SameLine :
    (text : Bytes) (len pos_sep : ℕ) (sr : SessionRequest) {r : ℤ} {sr' : SessionRequest}
    → host_port_at text len pos_sep sr ≡ some (r, sr')
    → SameLine sr sr'
unfolding host_port_at
host_port_at-SameLine text len pos_sep sr e = record {
  uri = ground arith;
  uri_processed = ground arith;
  query_string = ground arith;
  protocol = ground arith;
  method = ground arith;
}

pub host_step-SameLine :
    (config : ServerConfig) (host : Pointer) (sr : SessionRequest) {r : ℤ} {sr' : SessionRequest}
    → host_step config host sr ≡ some (r, sr')
    → SameLine sr sr'
unfolding host_step
host_step-SameLine config host sr {r} {sr'} e = elim (Option-cases host.data_at) [
  | inl n ↦ record {
    uri = ground arith;
    uri_processed = ground arith;
    query_string = ground arith;
    protocol = ground arith;
    method = ground arith;
  }
  | inr (text, d) ↦ go text d (char_search_r text b':' (to_int (pos host.len))) refl
]
  where
    go :
        (text : Bytes)
        → host.data_at ≡ some text
        → (p : ℤ) → char_search_r text b':' (to_int (pos host.len)) ≡ p
        → SameLine sr sr'
    go text d (pos p) q = host_port_at-SameLine text host.len p sr {r = r} (ground arith)
    go text d (negsuc k) q = record {
      uri = ground arith;
      uri_processed = ground arith;
      query_string = ground arith;
      protocol = ground arith;
      method = ground arith;
    }

pub SameLine-trans : {a b c : SessionRequest} → SameLine a b → SameLine b c → SameLine a c
SameLine-trans h k = record {
  uri = k.uri ∙ h.uri;
  uri_processed = k.uri_processed ∙ h.uri_processed;
  query_string = k.query_string ∙ h.query_string;
  protocol = k.protocol ∙ h.protocol;
  method = k.method ∙ h.method;
}

pub own_lookups-SameLine : (sr : SessionRequest) → SameLine sr (own_lookups sr)
own_lookups-SameLine sr = record {
  uri = refl;
  uri_processed = refl;
  query_string = refl;
  protocol = refl;
  method = refl;
}

default_keep_alive-SameLine : (sr : SessionRequest) → SameLine sr (default_keep_alive sr)
unfolding default_keep_alive
default_keep_alive-SameLine sr = record {
  uri = ground arith;
  uri_processed = ground arith;
  query_string = ground arith;
  protocol = ground arith;
  method = ground arith;
}

connection_step-SameLine : (sr : SessionRequest) → SameLine sr (connection_step sr)
unfolding connection_step
connection_step-SameLine sr = record {
  uri = ground arith;
  uri_processed = ground arith;
  query_string = ground arith;
  protocol = ground arith;
  method = ground arith;
}

pub own_headers-SameLine : (sr : SessionRequest) → SameLine sr (own_headers sr)
unfolding own_headers
own_headers-SameLine sr =
    SameLine-trans
      (SameLine-trans (own_lookups-SameLine sr) (default_keep_alive-SameLine (own_lookups sr)))
      (connection_step-SameLine (default_keep_alive (own_lookups sr)))

pub host_step-keep_alive :
    (config : ServerConfig) (host : Pointer) (sr : SessionRequest) {r : ℤ} {sr' : SessionRequest}
    → host_step config host sr ≡ some (r, sr')
    → sr'.keep_alive ≡ sr.keep_alive
unfolding host_step host_port_at
host_step-keep_alive config host sr e = ground arith

-- The Connection header asks for keep-alive.
abbrev pub AsksKeepAlive : Pointer → Type 0
AsksKeepAlive p =
    (text : Bytes) × (p.data_at ≡ some text)
    × (leb_ℤ (pos 0) (string_search_n text (codes "Keep-Alive") insensitive (to_int (pos p.len)))
        ≡ true)

-- How version and Connection header decide on the connection.
pub record Decides (protocol : ℤ) (keep_before : Bool) (after : SessionRequest) : Type 0 where
  pub agree :
      (protocol ≡ protocol_10) ⊎ (protocol ≡ protocol_11) → after.keep_alive ≡ not after.close_now
  pub kept :
      keep_before ≡ false
      → after.keep_alive ≡ true
      → (protocol ≡ protocol_11) ⊎ AsksKeepAlive after.connection
  pub old_closes : protocol ≡ protocol_10 → after.connection.data_at ≡ none → after.close_now ≡ true

connection_step-kept :
    (sr : SessionRequest)
    → (connection_step sr).keep_alive ≡ true
    → (sr.keep_alive ≡ true) ⊎ AsksKeepAlive (connection_step sr).connection
unfolding connection_step
connection_step-kept sr k = elim (Option-cases sr.connection.data_at) [
  | inl n ↦ inl (ground arith)
  | inr (text, d) ↦
      elim (Bool-cases (
        leb_ℤ (pos 0) (
          string_search_n text (codes "Keep-Alive") insensitive
            (to_int (pos sr.connection.len))))) [
              | inl asks ↦
                  let same : connection_step sr ≡ with_close false sr = ground arith in
                  rw same (inr (text, d, asks))
              | inr silent ↦ inl (ground arith)
            ]
]

connection_step-agree :
    (sr : SessionRequest)
    → sr.keep_alive ≡ not sr.close_now
    → (connection_step sr).keep_alive ≡ not (connection_step sr).close_now
unfolding connection_step
connection_step-agree sr e = ground arith

connection_step-none :
    (sr : SessionRequest) → (connection_step sr).connection.data_at ≡ none → connection_step sr ≡ sr
unfolding connection_step
connection_step-none sr e = ground arith

default_keep_alive-agree :
    (sr : SessionRequest)
    → (sr.protocol ≡ protocol_10) ⊎ (sr.protocol ≡ protocol_11)
    → (default_keep_alive sr).keep_alive ≡ not (default_keep_alive sr).close_now
unfolding default_keep_alive
default_keep_alive-agree sr h = ground arith

default_keep_alive-kept :
    (sr : SessionRequest)
    → sr.keep_alive ≡ false
    → (default_keep_alive sr).keep_alive ≡ true
    → sr.protocol ≡ protocol_11
unfolding default_keep_alive
default_keep_alive-kept sr e k = ground arith

default_keep_alive-old :
    (sr : SessionRequest) → sr.protocol ≡ protocol_10 → (default_keep_alive sr).close_now ≡ true
unfolding default_keep_alive
default_keep_alive-old sr e = ground arith

host_step_at :
    (config : ServerConfig) (host : Pointer) (sr : SessionRequest) (text : Bytes) (p : ℕ)
    → host.data_at ≡ some text
    → char_search_r text b':' (to_int (pos host.len)) ≡ pos p
    → host_step config host sr ≡ host_port_at text host.len p sr
unfolding host_step
host_step_at config host sr text p d c = ground arith

short_negative :
    (p : ℕ) → p + 2 < 2 ^ 15 → to_short (pos (sub_word (2 ^ 64 - 1) (p + 1))) ≡ negsuc (p + 1)
unfolding to_short
short_negative p lt =
    let e : sub_word (2 ^ 64 - 1) (p + 1) % 2 ^ 16 ≡ 2 ^ 16 - 2 - p = omega arith in
    rw e (ground arith)

host_port_at_negative :
    (text : Bytes) (p : ℕ) (sr : SessionRequest)
    → p + 2 < 2 ^ 15
    → host_port_at text (2 ^ 64 - 1) p sr ≡ none
unfolding host_port_at
host_port_at_negative text p sr lt = rw (short_negative p lt) (ground arith)

-- For a Host header with an empty value, whose length has wrapped round to 2^64 - 1, a colon is searched in
-- all that follows in the buffer. If one stands there, not too far behind, the length of the port is
-- negative, and what the code does with it is undefined.
pub host_step_empty :
    (config : ServerConfig) (host : Pointer) (sr : SessionRequest) (text : Bytes) (p : ℕ)
    → host.data_at ≡ some text
    → host.len ≡ 2 ^ 64 - 1
    → char_search_r text b':' minus_one ≡ pos p
    → p + 2 < 2 ^ 15
    → host_step config host sr ≡ none
unfolding to_int
host_step_empty config host sr text p d l c lt =
    host_step_at config host sr text p d (ap (λ n. char_search_r text b':' (to_int (pos n))) l ∙ c)
    ∙ ap (λ n. host_port_at text n p sr) l
    ∙ host_port_at_negative text p sr lt

pub own_headers-Decides : (sr : SessionRequest) → Decides sr.protocol sr.keep_alive (own_headers sr)
unfolding own_headers
own_headers-Decides sr =
    let found = own_lookups sr in
    let chosen = default_keep_alive found in
    record {
      agree = λ known. connection_step-agree chosen (default_keep_alive-agree found known);
      kept = λ off on. elim (connection_step-kept chosen on) [
        | inl default ↦ inl (default_keep_alive-kept found off default)
        | inr asked ↦ inr asked
      ];
      old_closes = λ old missing.
          rw (connection_step-none chosen missing) (default_keep_alive-old found old);
    }
