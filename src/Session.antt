-- ===== src/Session.antt =====
-- A client's session: mk_session_create, mk_session_get, mk_session_remove, mk_handler_read and
-- mk_request_ka_next of src/mk_request.c, and mk_http_keepalive_check and mk_http_request_end of
-- src/mk_http.c.
pub mod Buffer
pub mod KeepAlive
pub mod Table
use monkey.Prelude.{
  ℕ, zero, suc, ◌+◌, ◌-◌, Bool, true, false, ◌&&◌, ◌||◌, not, ◌⊎◌, inl, inr, Option, none, some,
  List, [], ◌∷◌, ◌++◌, length, ltb, leb, ◌==◌, if◌then◌else◌, ℤ, pos, negsuc, minus_one, ltb_ℤ,
  leb_ℤ,
}
use monkey.Libc.{Bytes}
use monkey.Types.{SessionRequest, ClientSession, ServerConfig, unknown, incomplete, protocol_11}
use monkey.Sched.{Connection, find_busy}

-- MK_REQUEST_CHUNK
abbrev pub chunk : ℕ
chunk = 4096

abbrev pub new_session : ℕ → ℕ → ClientSession
new_session socket arrive_time = record {
  socket = socket;
  pipelined = false;
  counter_connections = 0;
  status = incomplete;
  body = [];
  body_fixed = true;
  body_size = chunk;
  body_pos_end = minus_one;
  first_method = unknown;
  init_time = arrive_time;
  request_list = [];
}

-- mk_session_create: the session, unless the scheduler does not know the socket, and the thread's list.
unfoldable pub session_create :
    ℕ → List Connection → List ClientSession → Option ClientSession × List ClientSession
session_create socket busy sessions = elim (find_busy socket busy) [
  | none ↦ (none, sessions)
  | some sc ↦ (
    some (new_session socket sc.arrive_time),
    sessions ++ (new_session socket sc.arrive_time ∷ []),
  )
]

unfoldable pub session_get : ℕ → List ClientSession → Option ClientSession
session_get socket [] = none
session_get socket (cs ∷ sessions) =
    if cs.socket == socket then some cs else session_get socket sessions

unfoldable pub session_remove : ℕ → List ClientSession → List ClientSession
session_remove socket [] = []
session_remove socket (cs ∷ sessions) =
    if cs.socket == socket then sessions else cs ∷ session_remove socket sessions

-- What a read from the socket gives: bytes, EAGAIN, another error, or the end of the stream.
pub data Read : Type 0 where
  got : Bytes → Read
  again failed closed : Read

-- What mk_handler_read does with the session: it keeps it and returns a value, removes it, or closes
-- it early with an HTTP error, by mk_request_premature_close. The last two return -1.
pub data Handled : Type 0 where
  kept : ℤ → ClientSession → Handled
  removed : Handled
  premature_close : ℕ → Handled

-- The buffer is full: it grows by a chunk, from the fixed array into allocated memory or by a
-- reallocation, which may fail.
unfoldable pub grow : ServerConfig → Bool → ClientSession → ℕ ⊎ ClientSession
grow config reallocated cs =
    let new_size = cs.body_size + chunk in
    if leb config.max_request_size new_size
    then inl 413
    else if cs.body_fixed
    then inr (record cs { body_fixed = false; body_size = new_size })
    else if reallocated
    then inr (record cs { body_size = new_size })
    else inl 500

unfoldable pub read_result : Read → ClientSession → Handled
read_result (got bytes) cs = kept (pos (length bytes)) (record cs { body = cs.body ++ bytes })
read_result again cs = kept (pos 1) cs
read_result failed cs = removed
read_result closed cs = removed

-- The read into the rest of the buffer. `read n` is what reading at most `n` bytes gives.
unfoldable pub read_into : (ℕ → Read) → ClientSession → Handled
read_into read cs = read_result (read (cs.body_size - length cs.body)) cs

unfoldable pub handler_read : ServerConfig → Bool → (ℕ → Read) → ClientSession → Handled
handler_read config reallocated read cs =
    if leb cs.body_size (length cs.body)
    then elim (grow config reallocated cs) [
      | inl status ↦ premature_close status
      | inr cs' ↦ read_into read cs'
    ]
    else read_into read cs

unfoldable pub ka_next : ℕ → ClientSession → ClientSession
ka_next now cs = record cs {
  first_method = unknown;
  body_pos_end = minus_one;
  body = [];
  counter_connections = cs.counter_connections + 1;
  init_time = now;
  status = incomplete;
}

-- mk_list_entry_last
abbrev pub last_of : SessionRequest → List SessionRequest → SessionRequest
last_of sr [] = sr
last_of sr (next ∷ rest) = last_of next rest

-- mk_http_keepalive_check behind its look at the list
unfoldable pub keepalive_last : ServerConfig → ℕ → SessionRequest → ℤ
keepalive_last config counter sr =
    if not config.keep_alive || not sr.keep_alive
    then minus_one
    else if ltb_ℤ sr.protocol protocol_11 && sr.connection.len == 0
    then minus_one
    else if ltb_ℤ sr.protocol protocol_11 && leb_ℤ sr.headers.content_length (pos 0)
    then minus_one
    else if sr.close_now
    then minus_one
    else if leb config.max_keep_alive_request counter
    then minus_one
    else pos 0

keepalive_requests : ServerConfig → ℕ → List SessionRequest → ℤ
keepalive_requests config counter [] = minus_one
keepalive_requests config counter (sr ∷ rest) = keepalive_last config counter (last_of sr rest)

unfoldable pub keepalive_check : ServerConfig → ClientSession → ℤ
unfolding keepalive_requests
keepalive_check config cs = keepalive_requests config cs.counter_connections cs.request_list

-- mk_request_free_list
unfoldable pub request_free_list : ClientSession → ClientSession
request_free_list cs = record cs { request_list = [] }

abbrev pub put_session : ℕ → ClientSession → List ClientSession → List ClientSession
put_session socket cs [] = []
put_session socket cs (c ∷ sessions) =
    if c.socket == socket then cs ∷ sessions else c ∷ put_session socket cs sessions

-- mk_http_request_end: the returned value and the sessions. With 0 the socket goes back to reading.
unfoldable pub request_end : ServerConfig → ℕ → ℕ → List ClientSession → ℤ × List ClientSession
request_end config now socket sessions = elim (session_get socket sessions) [
  | none ↦ (minus_one, sessions)
  | some cs ↦
      if ltb_ℤ (keepalive_check config cs) (pos 0)
      then (minus_one, session_remove socket sessions)
      else (pos 0, put_session socket (ka_next now (request_free_list cs)) sessions)
]
