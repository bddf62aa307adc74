-- ===== src/Worker/Invariant.antt =====
-- The events of src/mk_connection.c on a worker thread, and what they keep of its state.
use monkey.Prelude.{
  ℕ, ◌+◌, ◌<◌, ◌≡◌, ◌≢◌, refl, sym, ap, subst, ◌∙◌, inl, inr, Bool, false, none, some, List, [],
  ◌∷◌, ◌++◌, length, All, All-append, arith, leb, if◌then◌else◌, ℤ, pos, minus_one, ltb_ℤ, eq_ℤ,
  Bool-cases, Option-cases,
}
use monkey.Types.{ClientSession, ServerConfig}
use monkey.Sched.{Connection, Node, find_busy, remove_client}
use monkey.Sched.Queues.{IsNode, remove_client-IsNode}
use monkey.Session.{
  Read, Handled, kept, removed, premature_close, session_create, session_get, session_remove,
  put_session, handler_read, new_session,
}
use monkey.Session.Buffer.{IsBuffer, IsRead, Keeps, handler_read-IsBuffer, new_session-IsBuffer}
use monkey.Session.Table.{session_get_socket, All-session_remove, All-put_session}
use monkey.Http.Pending.{pending_request}
use monkey.Worker.Distinct.{
  Distinct, Distinct-session_remove, Distinct-put_session, session_get-Fresh, Distinct-append,
}
use monkey.Worker.Timeouts.{check_timeouts_lem, alive}
use monkey.Worker.{
  Thread, Verdict, owned, closing, proceed, Event, after_read, read_session, register_event,
  create_event, conn_read, conn_error, conn_close, conn_timeout, check_timeouts, session_expired,
}
use monkey.Worker.Calls.{
  IsThread, SameBuffer-IsBuffer, pending_request-SameBuffer, handler_read_socket, All-session_get,
  register_client_total, register_client-IsNode,
}

module _ (config : ServerConfig) (k : ℕ) where
  -- A session is replaced by one with the same socket, or removed.
  pub put-IsThread :
      (socket : ℕ) (cs : ClientSession) (t : Thread)
      → IsThread config k t
      → cs.socket ≡ socket
      → IsBuffer config cs
      → IsThread config k (record t { sessions = put_session socket cs t.sessions })
  put-IsThread socket cs t h e b = record {
    node = h.node;
    buffers = All-put_session (IsBuffer config) socket cs t.sessions b h.buffers;
    distinct = Distinct-put_session socket cs t.sessions e h.distinct;
  }

  pub remove-IsThread :
      (socket : ℕ) (t : Thread)
      → IsThread config k t
      → IsThread config k (record t { sessions = session_remove socket t.sessions })
  remove-IsThread socket t h = record {
    node = h.node;
    buffers = All-session_remove (IsBuffer config) socket t.sessions h.buffers;
    distinct = Distinct-session_remove socket t.sessions h.distinct;
  }

  pub node-IsThread :
      (n : Node) (t : Thread)
      → IsNode k n
      → IsThread config k t
      → IsThread config k (record t { node = n })
  node-IsThread n t v h = record { node = v; buffers = h.buffers; distinct = h.distinct }

  after_read-IsThread :
      (socket : ℕ) (ret : ℤ) (cs : ClientSession) (t : Thread)
      → IsThread config k t
      → cs.socket ≡ socket
      → IsBuffer config cs
      → IsThread config k (after_read config socket ret cs t).1
  unfolding after_read
  after_read-IsThread socket ret cs t h e b =
      let arrived = (pending_request config cs).1 in
      let same = pending_request-SameBuffer config cs in
      let put =
        put-IsThread socket arrived t h (same.socket ∙ e)
          (SameBuffer-IsBuffer config cs arrived same b) in
      elim (Bool-cases (ltb_ℤ (pos 0) ret)) [
        | inr nothing ↦ rw (nothing) (put-IsThread socket cs t h e b)
        | inl some_bytes ↦ elim (Bool-cases (eq_ℤ (pending_request config cs).0 (pos 0))) [
          | inl whole ↦ rw (some_bytes, whole) put
          | inr waits ↦ elim (Bool-cases (leb config.max_request_size (length arrived.body + 1))) [
            | inl full ↦ rw (some_bytes, waits, full) (remove-IsThread socket t h)
            | inr room ↦ rw (some_bytes, waits, room) put
          ]
        ]
      ]

  module _ (reallocated : Bool) (read : ℕ → Read) (reads : (n : ℕ) → IsRead n (read n)) where
    read_session-IsThread :
        (socket : ℕ) (cs : ClientSession) (t : Thread)
        → IsThread config k t
        → cs.socket ≡ socket
        → IsBuffer config cs
        → IsThread config k (read_session config reallocated read socket cs t).1
    unfolding read_session
    read_session-IsThread socket cs t h e b = go (handler_read config reallocated read cs) refl
      where
        go :
            (r : Handled)
            → handler_read config reallocated read cs ≡ r
            → IsThread config k (read_session config reallocated read socket cs t).1
        go (kept ret cs') q =
            let b' : Keeps (IsBuffer config) (kept ret cs') =
              subst (Keeps (IsBuffer config)) q
                (handler_read-IsBuffer config reallocated read cs reads b).0 in
            rw (q, read_session)
              (after_read-IsThread socket ret cs' t h
                (handler_read_socket config reallocated read cs cs' ret q ∙ e) b')
        go removed q = rw (q, read_session) (remove-IsThread socket t h)
        go (premature_close s) q = rw (q, read_session) (remove-IsThread socket t h)

    created_session :
        (socket : ℕ) (busy : List Connection) (l : List ClientSession) {cs : ClientSession}
        → (session_create socket busy l).0 ≡ some cs
        → (time : ℕ) × (cs ≡ new_session socket time)
          × ((session_create socket busy l).1 ≡ l ++ (new_session socket time ∷ []))
    unfolding session_create
    created_session socket busy l e = elim (Option-cases (find_busy socket busy)) [
      | inl n ↦ absurd (ground arith)
      | inr (sc, q) ↦ (sc.arrive_time, ground arith, ground arith)
    ]

    create_event-IsThread :
        (socket : ℕ) (t : Thread)
        → IsThread config k t
        → session_get socket t.sessions ≡ none
        → IsThread config k (create_event config reallocated read socket t).1
    unfolding create_event
    create_event-IsThread socket t h e =
        elim (Option-cases (session_create socket t.node.busy_queue t.sessions).0) [
          | inl n ↦ rw (n, create_event) h
          | inr (cs, n) ↦
              let (time, made, list) = created_session socket t.node.busy_queue t.sessions n in
              let fresh = new_session socket time in
              let t' : Thread = record t {
                sessions = (session_create socket t.node.busy_queue t.sessions).1;
              } in
              let list_is : t'.sessions ≡ t.sessions ++ (fresh ∷ []) = list in
              let b = new_session-IsBuffer config socket time in
              let h' : IsThread config k t' = record {
                node = h.node;
                buffers =
                    subst (All (IsBuffer config)) (sym list_is)
                      (All-append (IsBuffer config) t.sessions (fresh ∷ []) h.buffers (b, tt));
                distinct = subst Distinct (sym list_is) (
                    Distinct-append t.sessions fresh h.distinct
                      (session_get-Fresh socket t.sessions e));
              } in
              rw (n, create_event)
                (read_session-IsThread socket cs t' h' (ap (λ c. c.socket) made)
                  (subst (IsBuffer config) (sym made) b))
        ]

    register_event-IsThread :
        (refused : Bool) (now socket : ℕ) (t : Thread)
        → IsThread config k t
        → 0 < length t.node.av_queue
        → (ev : Event) × (register_event refused now socket t ≡ some ev) × IsThread config k ev.1
    unfolding register_event
    register_event-IsThread refused now socket t h room =
        let (r, n, q) = register_client_total refused socket now t.node room in
        let ret : ℤ = if eq_ℤ r minus_one then minus_one else pos 0 in
        (
          (ret, record t { node = n }, false),
          rw (q, register_event) refl,
          node-IsThread n t (register_client-IsNode refused socket now t.node h.node q) h,
        )

    -- In a well-formed worker thread with a free connection entry, and where a read gives at least one byte and
    -- at most those asked for, or none with an error or the end of the stream, mk_conn_read always has a
    -- result, and leaves the thread well-formed, whatever the plugins say to the event and the connection.
    pub conn_read-IsThread :
        (verdict : Verdict) (refused : Bool) (now socket : ℕ) (t : Thread)
        → IsThread config k t
        → 0 < length t.node.av_queue
        → (ev : Event) × (conn_read config verdict refused reallocated read now socket t ≡ some ev)
          × IsThread config k ev.1
    unfolding conn_read
    conn_read-IsThread owned refused now socket t h room = (_, refl, h)
    conn_read-IsThread closing refused now socket t h room = (_, refl, h)
    conn_read-IsThread proceed refused now socket t h room =
        elim (Option-cases (session_get socket t.sessions)) [
          | inr (cs, e) ↦ (
            read_session config reallocated read socket cs t,
            rw (e, conn_read) refl,
            read_session-IsThread socket cs t h (session_get_socket socket t.sessions e)
                (All-session_get (IsBuffer config) socket t.sessions h.buffers e),
          )
          | inl e ↦ elim (Option-cases (find_busy socket t.node.busy_queue)) [
            | inr (sc, b) ↦ (
              create_event config reallocated read socket t,
              rw (e, b, conn_read) refl,
              create_event-IsThread socket t h e,
            )
            | inl b ↦
                let (ev, q, v) = register_event-IsThread refused now socket t h room in
                (ev, rw (e, b, conn_read) q, v)
          ]
        ]

  alive-All :
      (P : ClientSession → Type 0) (now : ℕ) (l : List ClientSession)
      → All P l
      → All P (alive config now l)
  alive-All P now [] h = tt
  alive-All P now (cs ∷ l) h = elim (Bool-cases (session_expired config now cs)) [
    | inl e ↦ rw e (alive-All P now l h.1)
    | inr e ↦ rw e (h.0, alive-All P now l h.1)
  ]

  alive-Distinct : (now : ℕ) (l : List ClientSession) → Distinct l → Distinct (alive config now l)
  alive-Distinct now [] h = tt
  alive-Distinct now (cs ∷ l) h = elim (Bool-cases (session_expired config now cs)) [
    | inl e ↦ rw e (alive-Distinct now l h.1)
    | inr e ↦ rw e (alive-All (λ c. c.socket ≢ cs.socket) now l h.0, alive-Distinct now l h.1)
  ]

  check_timeouts-IsThread :
      (now : ℕ) (t : Thread) → IsThread config k t → IsThread config k (check_timeouts config now t)
  check_timeouts-IsThread now t h =
      let (sessions, node) = check_timeouts_lem config now k t h.node h.distinct in
      record {
        node = node;
        buffers =
            subst (All (IsBuffer config)) (sym sessions)
              (alive-All (IsBuffer config) now t.sessions h.buffers);
        distinct = subst Distinct (sym sessions) (alive-Distinct now t.sessions h.distinct);
      }

  -- The handlers of an error, of a closed connection and of a timeout leave a well-formed thread well-formed,
  -- whatever the plugins say to the event.
  pub conn_error-IsThread :
      (verdict : Verdict) (now socket : ℕ) (t : Thread)
      → IsThread config k t
      → IsThread config k (conn_error verdict socket t).1
        × IsThread config k (conn_close verdict socket t).1
        × IsThread config k (conn_timeout config verdict now t).1
  unfolding conn_error conn_close conn_timeout
  conn_error-IsThread owned now socket t h = (h, h, h)
  conn_error-IsThread closing now socket t h = (h, h, h)
  conn_error-IsThread proceed now socket t h =
      let n = (remove_client socket t.node).1 in
      let v = (remove_client-IsNode k socket t.node h.node).0 in
      let closed = node-IsThread n t v h in
      (
        elim (Option-cases (session_get socket t.sessions)) [
          | inl e ↦ rw (e, conn_error) closed
          | inr (cs, e) ↦ rw (e, conn_error) (remove-IsThread socket (record t { node = n }) closed)
        ],
        closed,
        check_timeouts-IsThread now t h,
      )
