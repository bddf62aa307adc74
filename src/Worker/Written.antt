-- ===== src/Worker/Written.antt =====
-- What mk_conn_write of src/mk_connection.c keeps of a worker thread's state.
use monkey.Prelude.{
  ℕ, zero, suc, ◌+◌, ◌≡◌, refl, subst, ◌∙◌, inl, inr, true, some, List, [], ◌∷◌, arith, ℤ, pos,
  negsuc, pos_part, ltb_ℤ, leb_ℤ, eq_ℤ, Bool-cases, Option-cases,
}
use monkey.Types.{SessionRequest, ClientSession}
use monkey.Sched.Queues.{IsNode}
use monkey.Sched.Reach.{update_status-IsBusy}
use monkey.Session.{
  session_get, put_session, request_end, request_free_list, ka_next, keepalive_check,
}
use monkey.Session.Buffer.{IsBuffer}
use monkey.Session.Table.{session_get_socket}
use monkey.Request.{request_parse, parse_loop, check_pipeline, block_end, block_request, link}
use monkey.Serve.Plugins.{Action, Server}
use monkey.Serve.Write.{handler_write, parsed_list}
use monkey.Worker.{Thread, Verdict, owned, closing, proceed}
use monkey.Worker.Calls.{IsThread, SameBuffer, SameBuffer-IsBuffer, All-session_get}
use monkey.Worker.Invariant.{put-IsThread, remove-IsThread, node-IsThread}
use monkey.Worker.Write.{in_process, after_write, write_session, conn_write}

SameBuffer-refl : (cs : ClientSession) → SameBuffer cs cs
SameBuffer-refl cs = record { socket = refl; body = refl; fixed = refl; size = refl }

SameBuffer-trans : {a b c : ClientSession} → SameBuffer a b → SameBuffer b c → SameBuffer a c
SameBuffer-trans x y = record {
  socket = y.socket ∙ x.socket;
  body = y.body ∙ x.body;
  fixed = y.fixed ∙ x.fixed;
  size = y.size ∙ x.size;
}

parse_step-SameBuffer :
    (fuel i blocks : ℕ) (cs : ClientSession) (b : ℤ)
    → ((end : ℕ)
        → SameBuffer
            (link cs (block_request cs i end))
            (parse_loop fuel (end + 4) (blocks + 1) (link cs (block_request cs i end))).1)
    → block_end cs i ≡ b
    → leb_ℤ (pos i) cs.body_pos_end ≡ true
    → SameBuffer cs (parse_loop (suc fuel) i blocks cs).1
unfolding parse_loop
parse_step-SameBuffer fuel i blocks cs (negsuc n) rest q e =
    rw (e, q, parse_loop) (SameBuffer-refl cs)
parse_step-SameBuffer fuel i blocks cs (pos end) rest q e =
    let same : SameBuffer cs (link cs (block_request cs i end)) = record {
      socket = refl;
      body = refl;
      fixed = refl;
      size = refl;
    } in
    rw (e, q, parse_loop) (SameBuffer-trans same (rest end))

parse_loop-SameBuffer :
    (fuel i blocks : ℕ) (cs : ClientSession) → SameBuffer cs (parse_loop fuel i blocks cs).1
unfolding parse_loop
parse_loop-SameBuffer zero i blocks cs = SameBuffer-refl cs
parse_loop-SameBuffer (suc fuel) i blocks cs = elim (Bool-cases (leb_ℤ (pos i) cs.body_pos_end)) [
  | inr e ↦ rw (e, parse_loop) (SameBuffer-refl cs)
  | inl e ↦
      parse_step-SameBuffer fuel i blocks cs (block_end cs i)
        (λ end.
          parse_loop-SameBuffer fuel (end + 4) (blocks + 1) (link cs (block_request cs i end)))
        refl e
]

check_pipeline-SameBuffer :
    (r : ℤ) (cs : ClientSession) (blocks : ℕ) → SameBuffer cs (check_pipeline (r, cs, blocks)).1
unfolding check_pipeline
check_pipeline-SameBuffer r cs blocks = record {
  socket = ground arith;
  body = ground arith;
  fixed = ground arith;
  size = ground arith;
}

request_parse-SameBuffer : (cs : ClientSession) → SameBuffer cs (request_parse cs).1
unfolding request_parse
request_parse-SameBuffer cs =
    let r = parse_loop (pos_part cs.body_pos_end + 2) 0 0 cs in
    SameBuffer-trans (parse_loop-SameBuffer (pos_part cs.body_pos_end + 2) 0 0 cs)
      (check_pipeline-SameBuffer r.0 r.1 r.2)

parsed_list-SameBuffer :
    (cs : ClientSession) (l : List SessionRequest) → SameBuffer cs (parsed_list cs l).1
parsed_list-SameBuffer cs [] = request_parse-SameBuffer cs
parsed_list-SameBuffer cs (sr ∷ rest) = SameBuffer-refl cs

handler_write-SameBuffer :
    (srv : Server) (cs : ClientSession) → SameBuffer cs (handler_write srv cs).1
unfolding handler_write
handler_write-SameBuffer srv cs =
    elim (Bool-cases (eq_ℤ (parsed_list cs cs.request_list).0 (pos 0))) [
      | inl e ↦ rw e (
          SameBuffer-trans (parsed_list-SameBuffer cs cs.request_list)
            (record { socket = refl; body = refl; fixed = refl; size = refl }))
      | inr e ↦ rw e (parsed_list-SameBuffer cs cs.request_list)
    ]

module _ (srv : Server) (k : ℕ) where
  -- The session that waits for its next request.
  next-IsBuffer :
      (now : ℕ) (cs : ClientSession)
      → IsBuffer srv.config cs
      → IsBuffer srv.config (ka_next now (request_free_list cs))
  unfolding ka_next request_free_list
  next-IsBuffer now cs h = record { within = omega arith; fixed = h.fixed; dynamic = h.dynamic }

  request_end-IsThread :
      (now socket : ℕ) (t : Thread)
      → IsThread srv.config k t
      → IsThread srv.config k
          (record t { sessions = (request_end srv.config now socket t.sessions).1 })
  unfolding request_end
  request_end-IsThread now socket t h = elim (Option-cases (session_get socket t.sessions)) [
    | inl e ↦ rw (e, request_end) h
    | inr (cs, e) ↦ elim (Bool-cases (ltb_ℤ (keepalive_check srv.config cs) (pos 0))) [
      | inl q ↦ rw (e, q, request_end) (remove-IsThread srv.config k socket t h)
      | inr q ↦
          rw (e, q, request_end)
            (put-IsThread srv.config k socket (ka_next now (request_free_list cs)) t h
              (unfold ka_next request_free_list in session_get_socket socket t.sessions e)
              (next-IsBuffer now cs
                (All-session_get (IsBuffer srv.config) socket t.sessions h.buffers e)))
    ]
  ]

  after_write-IsThread :
      (now socket : ℕ) (ret : ℤ) (cs : ClientSession) (t : Thread)
      → IsThread srv.config k t
      → cs.socket ≡ socket
      → IsBuffer srv.config cs
      → IsThread srv.config k (after_write srv.config now socket ret cs t).1
  unfolding after_write
  after_write-IsThread now socket ret cs t h e b =
      let put = put-IsThread srv.config k socket cs t h e b in
      elim (Bool-cases (ltb_ℤ ret (pos 0))) [
        | inl q ↦ rw q (remove-IsThread srv.config k socket t h)
        | inr q ↦ elim (Bool-cases (eq_ℤ ret (pos 0))) [
          | inl z ↦
              rw (q, z)
                (request_end-IsThread now socket
                  (record t { sessions = put_session socket cs t.sessions }) put)
          | inr z ↦ rw (q, z) put
        ]
      ]

  in_process-IsThread :
      (socket : ℕ) (t : Thread)
      → IsThread srv.config k t
      → IsThread srv.config k (in_process socket t)
  in_process-IsThread socket t h =
      let (busy, size) = update_status-IsBusy socket t.node.busy_queue h.node.busy in
      let n : IsNode k (in_process socket t).node = record {
        all_there = omega (arith, h.node.all_there, size);
        free = h.node.free;
        busy = busy;
      } in
      node-IsThread srv.config k (in_process socket t).node t n h

  write_session-IsThread :
      (now socket : ℕ) (cs : ClientSession) (t : Thread) (r : ℤ) (t' : Thread) (log : List Action)
      → IsThread srv.config k t
      → session_get socket t.sessions ≡ some cs
      → write_session srv now socket cs t ≡ some (r, t', log)
      → IsThread srv.config k t'
  unfolding write_session
  write_session-IsThread now socket cs t r t' log h e q =
      elim (Option-cases (handler_write srv cs).0) [
        | inl n ↦ absurd (ground arith)
        | inr (ret, n) ↦
            let w = (handler_write srv cs).1 in
            let same = handler_write-SameBuffer srv cs in
            let is : (after_write srv.config now socket ret w t).1 ≡ t' = ground arith in
            subst (IsThread srv.config k) is (
              after_write-IsThread now socket ret w t h
                (same.socket ∙ session_get_socket socket t.sessions e)
                (SameBuffer-IsBuffer srv.config cs w same
                  (All-session_get (IsBuffer srv.config) socket t.sessions h.buffers e)))
      ]

  -- Whenever mk_conn_write has a result, it leaves a well-formed worker thread well-formed, whatever the
  -- requests of the session are, and whatever the plugins and the system calls do: the scheduler's
  -- entries are each in one queue, the sessions have distinct sockets, and the session's buffer is kept.
  pub conn_write-IsThread :
      (verdict : Verdict) (now socket : ℕ) (t : Thread) (r : ℤ) (t' : Thread) (log : List Action)
      → IsThread srv.config k t
      → conn_write srv verdict now socket t ≡ some (r, t', log)
      → IsThread srv.config k t'
  unfolding conn_write
  conn_write-IsThread owned now socket t r t' log h e =
      let is : t ≡ t' = ground arith in subst (IsThread srv.config k) is h
  conn_write-IsThread closing now socket t r t' log h e =
      let is : t ≡ t' = ground arith in subst (IsThread srv.config k) is h
  conn_write-IsThread proceed now socket t r t' log h e =
      let v = in_process-IsThread socket t h in
      elim (Option-cases (session_get socket (in_process socket t).sessions)) [
        | inl n ↦
            let is : in_process socket t ≡ t' = ground arith in subst (IsThread srv.config k) is v
        | inr (cs, n) ↦
            write_session-IsThread now socket cs (in_process socket t) r t' log v n (ground arith)
      ]
