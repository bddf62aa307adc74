-- ===== src/Session/KeepAlive.antt =====
-- mk_http_keepalive_check and mk_http_request_end of src/mk_http.c: how long a connection is kept.
use monkey.Prelude.{
  ℕ, ◌+◌, ◌<◌, ◌≤◌, ◌≡◌, ◌≢◌, refl, ◌⊎◌, inl, inr, true, false, none, some, List, [], ◌∷◌, All,
  arith, ◌==◌, if◌then◌else◌, ℤ, pos, minus_one, ltb_ℤ, leb_ℤ, Bool-cases, Option-cases,
}
use monkey.Types.{SessionRequest, ClientSession, ServerConfig, protocol_11, unknown, incomplete}
use monkey.Session.Table.{
  session_get_socket, session_get-put, session_get-remove, All-session_remove, All-put_session,
}
use monkey.Session.{
  ka_next, last_of, keepalive_last, keepalive_check, request_free_list, session_get, session_remove,
  put_session, request_end,
}

-- What must hold of the last request of a connection that is kept.
pub record MayContinue (config : ServerConfig) (counter : ℕ) (sr : SessionRequest) : Type 0 where
  pub configured : config.keep_alive ≡ true
  pub wanted : sr.keep_alive ≡ true
  pub not_closed : sr.close_now ≡ false
  pub below : counter < config.max_keep_alive_request
  pub old_client :
      ltb_ℤ sr.protocol protocol_11 ≡ true
      → (sr.connection.len ≢ 0) × (leb_ℤ sr.headers.content_length (pos 0) ≡ false)

keepalive_last-MayContinue :
    (config : ServerConfig) (counter : ℕ) (sr : SessionRequest)
    → keepalive_last config counter sr ≡ pos 0
    → MayContinue config counter sr
unfolding keepalive_last
keepalive_last-MayContinue config counter sr e = record {
  configured = ground arith;
  wanted = ground arith;
  not_closed = ground arith;
  below = ground arith;
  old_client = λ old. (λ z. ground arith, ground arith);
}

keepalive_last-cases :
    (config : ServerConfig) (counter : ℕ) (sr : SessionRequest)
    → (keepalive_last config counter sr ≡ minus_one) ⊎ (keepalive_last config counter sr ≡ pos 0)
unfolding keepalive_last
keepalive_last-cases config counter sr = ground arith

-- The session of a kept connection when the next request is awaited.
abbrev pub kept_session : ℕ → ClientSession → ClientSession
kept_session now cs = ka_next now (request_free_list cs)

abbrev pub IsBelow : ServerConfig → ClientSession → Type 0
IsBelow config cs = cs.counter_connections ≤ config.max_keep_alive_request

keepalive_check-below :
    (config : ServerConfig) (cs : ClientSession)
    → ltb_ℤ (keepalive_check config cs) (pos 0) ≡ false
    → (sr : SessionRequest) × (rest : List SessionRequest) × (cs.request_list ≡ sr ∷ rest)
      × MayContinue config cs.counter_connections (last_of sr rest)
unfolding keepalive_check
keepalive_check-below config cs e = go cs.request_list refl
  where
    go :
        (l : List SessionRequest)
        → cs.request_list ≡ l
        → (sr : SessionRequest) × (rest : List SessionRequest) × (cs.request_list ≡ sr ∷ rest)
          × MayContinue config cs.counter_connections (last_of sr rest)
    go [] q = absurd (ground arith)
    go (sr ∷ rest) q = (
      sr,
      rest,
      q,
      keepalive_last-MayContinue config cs.counter_connections (last_of sr rest)
          (ground (arith, keepalive_last-cases config cs.counter_connections (last_of sr rest))),
    )

keepalive_last-Stops :
    (config : ServerConfig) (counter : ℕ) (sr : SessionRequest)
    → ltb_ℤ (keepalive_last config counter sr) (pos 0) ≡ true
    → ¬ MayContinue config counter sr
unfolding keepalive_last
keepalive_last-Stops config counter sr e h =
    ground (arith, h.configured, h.wanted, h.not_closed, h.below, h.old_client)

keepalive_check-Stops :
    (config : ServerConfig) (cs : ClientSession) (sr : SessionRequest) (rest : List SessionRequest)
    → ltb_ℤ (keepalive_check config cs) (pos 0) ≡ true
    → cs.request_list ≡ sr ∷ rest
    → ¬ MayContinue config cs.counter_connections (last_of sr rest)
unfolding keepalive_check
keepalive_check-Stops config cs sr rest e q =
    keepalive_last-Stops config cs.counter_connections (last_of sr rest) (ground arith)

-- A session that waits for its next request, after the one of `before`.
pub record Waits (now : ℕ) (before after : ClientSession) : Type 0 where
  pub socket : after.socket ≡ before.socket
  pub counted : after.counter_connections ≡ before.counter_connections + 1
  pub started : after.init_time ≡ now
  pub nothing_read : after.body ≡ []
  pub no_end : after.body_pos_end ≡ minus_one
  pub no_method : after.first_method ≡ unknown
  pub not_complete : after.status ≡ incomplete
  pub no_requests : after.request_list ≡ []
  pub memory : (after.body_fixed ≡ before.body_fixed) × (after.body_size ≡ before.body_size)

kept_session-Waits : (now : ℕ) (cs : ClientSession) → Waits now cs (kept_session now cs)
unfolding ka_next request_free_list
kept_session-Waits now cs = record {
  socket = refl;
  counted = refl;
  started = refl;
  nothing_read = refl;
  no_end = refl;
  no_method = refl;
  not_complete = refl;
  no_requests = refl;
  memory = (refl, refl);
}

request_end_removes :
    (config : ServerConfig) (now socket : ℕ) (l : List ClientSession) (cs : ClientSession)
    → session_get socket l ≡ some cs
    → ltb_ℤ (keepalive_check config cs) (pos 0) ≡ true
    → request_end config now socket l ≡ (minus_one, session_remove socket l)
unfolding request_end
request_end_removes config now socket l cs e k = rw (e, k, request_end)

request_end_keeps :
    (config : ServerConfig) (now socket : ℕ) (l : List ClientSession) (cs : ClientSession)
    → session_get socket l ≡ some cs
    → ltb_ℤ (keepalive_check config cs) (pos 0) ≡ false
    → request_end config now socket l ≡ (pos 0, put_session socket (kept_session now cs) l)
unfolding request_end
request_end_keeps config now socket l cs e k = rw (e, k, request_end)

request_end_missing :
    (config : ServerConfig) (now socket : ℕ) (l : List ClientSession)
    → session_get socket l ≡ none
    → request_end config now socket l ≡ (minus_one, l)
unfolding request_end
request_end_missing config now socket l e = rw (e, request_end)

-- What the end of a request on `socket` does to the sessions `l`.
pub data Ends (config : ServerConfig) (now socket : ℕ) (l : List ClientSession)
    : ℤ × List ClientSession → Type 0 where
  unknown_socket : session_get socket l ≡ none → Ends config now socket l (minus_one, l)
  closes :
      (cs : ClientSession)
      → session_get socket l ≡ some cs
      → ((sr : SessionRequest) (rest : List SessionRequest)
          → cs.request_list ≡ sr ∷ rest
          → ¬ MayContinue config cs.counter_connections (last_of sr rest))
      → ((j : ℕ) → j ≢ socket → session_get j (session_remove socket l) ≡ session_get j l)
      → Ends config now socket l (minus_one, session_remove socket l)
  continues :
      (cs after : ClientSession) (sr : SessionRequest) (rest : List SessionRequest)
      → session_get socket l ≡ some cs
      → cs.request_list ≡ sr ∷ rest
      → MayContinue config cs.counter_connections (last_of sr rest)
      → Waits now cs after
      → ((j : ℕ)
          → session_get j (put_session socket after l)
            ≡ (if socket == j then some after else session_get j l))
      → Ends config now socket l (pos 0, put_session socket after l)

-- When a request has ended, mk_http_request_end keeps the connection exactly if the session has a
-- request and the last one and the configuration allow it. Then the session waits for the next request
-- in the same memory, with nothing read and one more request counted, and all other sessions are as
-- they were. Otherwise the session is removed and no other; without a session nothing happens.
pub request_end-Ends :
    (config : ServerConfig) (now socket : ℕ) (l : List ClientSession)
    → Ends config now socket l (request_end config now socket l)
request_end-Ends config now socket l = elim (Option-cases (session_get socket l)) [
  | inl e ↦ rw (request_end_missing config now socket l e) (unknown_socket e)
  | inr (cs, e) ↦ elim (Bool-cases (ltb_ℤ (keepalive_check config cs) (pos 0))) [
    | inl k ↦ rw (request_end_removes config now socket l cs e k) (
        closes cs e (λ sr rest q. keepalive_check-Stops config cs sr rest k q)
          (λ j ne. session_get-remove socket j l ne))
    | inr k ↦
        let (sr, rest, q, may) = keepalive_check-below config cs k in
        rw (request_end_keeps config now socket l cs e k) (
          continues cs (kept_session now cs) sr rest e q may (kept_session-Waits now cs) (λ j.
            session_get-put socket j (kept_session now cs) l cs
              (unfold ka_next request_free_list in session_get_socket socket l e) e))
  ]
]

-- If no session counts more requests than the configuration allows, none does so when a request has
-- ended.
pub request_end-IsBelow :
    (config : ServerConfig) (now socket : ℕ) (l : List ClientSession)
    → All (IsBelow config) l
    → All (IsBelow config) (request_end config now socket l).1
request_end-IsBelow config now socket l h = elim (Option-cases (session_get socket l)) [
  | inl e ↦ rw (request_end_missing config now socket l e) h
  | inr (cs, e) ↦ elim (Bool-cases (ltb_ℤ (keepalive_check config cs) (pos 0))) [
    | inl k ↦ rw (request_end_removes config now socket l cs e k) (All-session_remove _ socket l h)
    | inr k ↦
        let (sr, rest, q, may) = keepalive_check-below config cs k in
        rw (request_end_keeps config now socket l cs e k) (
          All-put_session _ socket (kept_session now cs) l
            (unfold ka_next request_free_list in omega (arith, may.below)) h)
  ]
]
