-- ===== src/Worker/Timeouts.antt =====
-- mk_sched_check_timeouts of src/mk_scheduler.c: which connections and sessions it ends.
use monkey.Prelude.{
  subst, ℕ, ◌≡◌, ◌≢◌, refl, sym, ap, ◌∙◌, ◌⊎◌, ◌+◌, true, false, arith, ◌==◌, ℤ, pos, ltb_ℤ, leb_ℤ,
  inl, inr, Option, none, some, List, [], ◌∷◌, ◌++◌, All, All-append, append_assoc, if◌then◌else◌,
  Bool-cases,
}
use monkey.Libc.Numbers.{to_int}
use monkey.Types.{ClientSession, ServerConfig, Status, incomplete, completed}
use monkey.Sched.{Connection, Node, remove_client}
use monkey.Sched.Queues.{IsNode, remove_client-IsNode}
use monkey.Session.{session_remove}
use monkey.Worker.Distinct.{Fresh, Distinct, session_remove-append}
use monkey.Worker.{
  Thread, connection_expired, session_expired, remove_socket, pending_timeouts, session_timeouts,
  check_timeouts,
}

-- The sessions that the code does not end.
abbrev pub alive : ServerConfig → ℕ → List ClientSession → List ClientSession
alive config now [] = []
alive config now (cs ∷ l) =
    let rest = alive config now l in if session_expired config now cs then rest else cs ∷ rest

remove_socket-IsNode : (k : ℕ) (s : Option ℕ) (n : Node) → IsNode k n → IsNode k (remove_socket s n)
remove_socket-IsNode k none n h = h
remove_socket-IsNode k (some fd) n h = (remove_client-IsNode k fd n h).0

pending_timeouts-IsNode :
    (config : ServerConfig) (now k : ℕ) (busy : List Connection) (n : Node)
    → IsNode k n
    → IsNode k (pending_timeouts config now busy n)
unfolding pending_timeouts
pending_timeouts-IsNode config now k [] n h = h
pending_timeouts-IsNode config now k (c ∷ busy) n h =
    elim (Bool-cases (connection_expired config now c)) [
      | inl e ↦ rw e (
          pending_timeouts-IsNode config now k busy (remove_socket c.socket n)
            (remove_socket-IsNode k c.socket n h))
      | inr e ↦ rw e (pending_timeouts-IsNode config now k busy n h)
    ]

session_timeouts-IsNode :
    (config : ServerConfig) (now k : ℕ) (l : List ClientSession) (t : Thread)
    → IsNode k t.node
    → IsNode k (session_timeouts config now l t).node
unfolding session_timeouts
session_timeouts-IsNode config now k [] t h = h
session_timeouts-IsNode config now k (cs ∷ l) t h =
    elim (Bool-cases (session_expired config now cs)) [
      | inl e ↦
          rw (e, session_timeouts)
            (session_timeouts-IsNode config now k l
              (record {
                node = (remove_client cs.socket t.node).1;
                sessions = session_remove cs.socket t.sessions;
              })
              (remove_client-IsNode k cs.socket t.node h).0)
      | inr e ↦ rw (e, session_timeouts) (session_timeouts-IsNode config now k l t h)
    ]

Fresh-after :
    (before : List ClientSession) (cs : ClientSession) (l : List ClientSession)
    → All (λ c. Fresh c.socket before) l
    → Fresh cs.socket l
    → All (λ c. Fresh c.socket (before ++ (cs ∷ []))) l
Fresh-after before cs [] h f = tt
Fresh-after before cs (c ∷ l) h f = (
  All-append (λ d. d.socket ≢ c.socket) before (cs ∷ []) h.0 (λ q. f.0 (sym q), tt),
  Fresh-after before cs l h.1 f.1,
)

-- The loop at `l`, where the sessions before it are looked at already.
session_timeouts-alive :
    (config : ServerConfig) (now : ℕ) (before l : List ClientSession) (t : Thread)
    → All (λ cs. Fresh cs.socket before) l
    → Distinct l
    → t.sessions ≡ before ++ l
    → (session_timeouts config now l t).sessions ≡ before ++ alive config now l
unfolding session_timeouts
session_timeouts-alive config now before [] t f d e = e
session_timeouts-alive config now before (cs ∷ l) t f d e =
    elim (Bool-cases (session_expired config now cs)) [
      | inl x ↦
          rw (x, session_timeouts)
            (session_timeouts-alive config now before l
              (record {
                node = (remove_client cs.socket t.node).1;
                sessions = session_remove cs.socket t.sessions;
              })
              f.1 d.1 (ap (session_remove cs.socket) e ∙ session_remove-append before cs l f.0))
      | inr x ↦
          rw (x, session_timeouts)
            (session_timeouts-alive config now (before ++ (cs ∷ [])) l t
                (Fresh-after before cs l f.1 d.0) d.1 (e ∙ sym (append_assoc before (cs ∷ []) l))
              ∙ append_assoc before (cs ∷ []) (alive config now l))
    ]

Fresh-nothing : (l : List ClientSession) → All (λ cs. Fresh cs.socket []) l
Fresh-nothing [] = tt
Fresh-nothing (cs ∷ l) = (tt, Fresh-nothing l)

-- When the time of a session is over: by the timeout for its first request, by the keep-alive timeout later.
pub data Deadline (config : ServerConfig) (cs : ClientSession) : ℤ → Type 0 where
  first_request :
      cs.counter_connections ≡ 0 → Deadline config cs (to_int (pos (cs.init_time + config.timeout)))
  later_request :
      cs.counter_connections ≢ 0
      → Deadline config cs (to_int (pos (cs.init_time + config.keep_alive_timeout)))

-- The request is complete, or its time is not over.
abbrev pub IsAlive : ServerConfig → ℕ → ClientSession → Type 0
IsAlive config now cs =
    (cs.status ≡ completed) ⊎ ((d : ℤ) × Deadline config cs d × (ltb_ℤ (pos now) d ≡ true))

abbrev pub IsOver : ServerConfig → ℕ → ClientSession → Type 0
IsOver config now cs =
    (cs.status ≡ incomplete) × ((d : ℤ) × Deadline config cs d × (leb_ℤ d (pos now) ≡ true))

-- Of the sessions, exactly those that are alive are left, in their order.
pub data Kept (config : ServerConfig) (now : ℕ)
    : List ClientSession → List ClientSession → Type 0 where
  none_left : Kept config now [] []
  kept :
      (cs : ClientSession) (l l' : List ClientSession)
      → IsAlive config now cs
      → Kept config now l l'
      → Kept config now (cs ∷ l) (cs ∷ l')
  ended :
      (cs : ClientSession) (l l' : List ClientSession)
      → IsOver config now cs
      → Kept config now l l'
      → Kept config now (cs ∷ l) l'

Status-cases : (s : Status) → (s ≡ completed) ⊎ (s ≡ incomplete)
Status-cases completed = inl refl
Status-cases incomplete = inr refl

module _ (config : ServerConfig) (now : ℕ) (cs : ClientSession) where
  expired-IsOver : session_expired config now cs ≡ true → IsOver config now cs
  unfolding session_expired
  expired-IsOver e = elim (Status-cases cs.status) [
    | inl c ↦ absurd (ground (arith, c, e))
    | inr i ↦ elim (Bool-cases (cs.counter_connections == 0)) [
      | inl z ↦ (
        i,
        (
          to_int (pos (cs.init_time + config.timeout)),
          first_request (ground arith),
          ground (arith, i, z, e),
        ),
      )
      | inr z ↦ (
        i,
        (
          to_int (pos (cs.init_time + config.keep_alive_timeout)),
          later_request (λ q. ground arith),
          ground (arith, i, z, e),
        ),
      )
    ]
  ]

  unexpired-IsAlive : session_expired config now cs ≡ false → IsAlive config now cs
  unfolding session_expired
  unexpired-IsAlive e = elim (Status-cases cs.status) [
    | inl c ↦ inl c
    | inr i ↦ elim (Bool-cases (cs.counter_connections == 0)) [
      | inl z ↦ inr (
        to_int (pos (cs.init_time + config.timeout)),
        first_request (ground arith),
        ground (arith, i, z, e),
      )
      | inr z ↦ inr (
        to_int (pos (cs.init_time + config.keep_alive_timeout)),
        later_request (λ q. ground arith),
        ground (arith, i, z, e),
      )
    ]
  ]

alive-Kept :
    (config : ServerConfig) (now : ℕ) (l : List ClientSession)
    → Kept config now l (alive config now l)
alive-Kept config now [] = none_left
alive-Kept config now (cs ∷ l) = elim (Bool-cases (session_expired config now cs)) [
  | inl e ↦
      rw e
        (ended cs l (alive config now l) (expired-IsOver config now cs e) (alive-Kept config now l))
  | inr e ↦
      rw e (
        kept cs l (alive config now l) (unexpired-IsAlive config now cs e)
          (alive-Kept config now l))
]

-- What the two loops leave of a thread.
pub check_timeouts_lem :
    (config : ServerConfig) (now k : ℕ) (t : Thread)
    → IsNode k t.node
    → Distinct t.sessions
    → ((check_timeouts config now t).sessions ≡ alive config now t.sessions)
      × IsNode k (check_timeouts config now t).node
unfolding check_timeouts
check_timeouts_lem config now k t h d =
    let n = pending_timeouts config now t.node.busy_queue t.node in
    (
      session_timeouts-alive config now [] t.sessions (record t { node = n })
          (Fresh-nothing t.sessions) d refl,
      session_timeouts-IsNode config now k t.sessions (record t { node = n })
          (pending_timeouts-IsNode config now k t.node.busy_queue t.node h),
    )

-- In a worker for `k` connections whose entries are each in one queue, and whose sessions have distinct
-- sockets, mk_sched_check_timeouts keeps exactly the sessions that are complete or whose time is not over, in
-- their order: the time of a session that waits for its first request is the timeout of the configuration,
-- and later the keep-alive timeout. Every entry is still in one queue.
pub check_timeouts-alive :
    (config : ServerConfig) (now k : ℕ) (t : Thread)
    → IsNode k t.node
    → Distinct t.sessions
    → Kept config now t.sessions (check_timeouts config now t).sessions
      × IsNode k (check_timeouts config now t).node
check_timeouts-alive config now k t h d =
    let (sessions, node) = check_timeouts_lem config now k t h d in
    (subst (Kept config now t.sessions) (sym sessions) (alive-Kept config now t.sessions), node)
