-- ===== src/Worker.antt =====
-- A worker thread: its node of the scheduler, its sessions, and the events of a connection, from
-- src/mk_connection.c and mk_sched_check_timeouts of src/mk_scheduler.c.
pub mod Distinct
pub mod Timeouts
pub mod Calls
pub mod Invariant
pub mod Write
pub mod Written
use monkey.Prelude.{
  ℕ, ◌+◌, Bool, true, false, Option, none, some, List, [], ◌∷◌, length, ltb, leb, ◌==◌,
  if◌then◌else◌, ℤ, pos, negsuc, minus_one, leb_ℤ, ltb_ℤ, eq_ℤ,
}
use monkey.Libc.Numbers.{to_int}
use monkey.Types.{ret_continue, ClientSession, ServerConfig, Status, incomplete, completed}
use monkey.Sched.{
  Connection, ConnStatus, available, pending, process, Node, find_busy, remove_client,
  register_client,
}
use monkey.Session.{
  Read, Handled, kept, removed, premature_close, session_create, session_get, session_remove,
  put_session, handler_read,
}
use monkey.Http.Pending.{pending_request}

-- What belongs to one worker thread: an entry of sched_list, and its list of sessions.
pub record Thread : Type 0 where
  pub node : Node
  pub sessions : List ClientSession

-- `client_timeout <= log_current_utime`, where `client_timeout` is an int.
abbrev pub is_past : ℕ → ℕ → ℕ → Bool
is_past start timeout now = leb_ℤ (to_int (pos (start + timeout))) (pos now)

abbrev pub is_pending : ConnStatus → Bool
is_pending pending = true
is_pending _ = false

abbrev pub is_incomplete : Status → Bool
is_incomplete incomplete = true
is_incomplete completed = false

-- A connection that has been registered and not used in time.
unfoldable pub connection_expired : ServerConfig → ℕ → Connection → Bool
connection_expired config now c =
    if is_pending c.status then is_past c.arrive_time config.timeout now else false

unfoldable pub session_expired : ServerConfig → ℕ → ClientSession → Bool
session_expired config now cs =
    if is_incomplete cs.status
    then (if cs.counter_connections == 0
        then is_past cs.init_time config.timeout now
        else is_past cs.init_time config.keep_alive_timeout now)
    else false

abbrev pub remove_socket : Option ℕ → Node → Node
remove_socket none n = n
remove_socket (some fd) n = (remove_client fd n).1

-- The first loop, over the busy queue as it stood. A busy connection has a socket.
unfoldable pub pending_timeouts : ServerConfig → ℕ → List Connection → Node → Node
pending_timeouts config now [] n = n
pending_timeouts config now (c ∷ busy) n =
    pending_timeouts config now busy
      (if connection_expired config now c then remove_socket c.socket n else n)

-- The second loop, over the sessions as they stood.
unfoldable pub session_timeouts : ServerConfig → ℕ → List ClientSession → Thread → Thread
session_timeouts config now [] t = t
session_timeouts config now (cs ∷ sessions) t = session_timeouts config now sessions (
    if session_expired config now cs
    then record {
      node = (remove_client cs.socket t.node).1;
      sessions = session_remove cs.socket t.sessions;
    }
    else t)

-- mk_sched_check_timeouts
unfoldable pub check_timeouts : ServerConfig → ℕ → Thread → Thread
check_timeouts config now t =
    session_timeouts config now t.sessions
      (record t { node = pending_timeouts config now t.node.busy_queue t.node })

-- MK_PLUGIN_RET_EVENT_*: what the plugins say to an event.
pub data Verdict : Type 0 where
  owned closing proceed : Verdict

-- The returned value, the thread, and whether the socket now waits for writing.
abbrev pub Event : Type 0
Event = ℤ × Thread × Bool

-- Behind a read that has kept the session.
unfoldable pub after_read : ServerConfig → ℕ → ℤ → ClientSession → Thread → Event
after_read config socket ret cs t =
    let arrived = pending_request config cs in
    if ltb_ℤ (pos 0) ret
    then (if eq_ℤ arrived.0 (pos 0)
        then (ret, record t { sessions = put_session socket arrived.1 t.sessions }, true)
        else if leb config.max_request_size (length arrived.1.body + 1)
        then (minus_one, record t { sessions = session_remove socket t.sessions }, false)
        else (ret, record t { sessions = put_session socket arrived.1 t.sessions }, false))
    else (ret, record t { sessions = put_session socket cs t.sessions }, false)

-- The read of a session's bytes. An early close answers with an error page and removes the session.
unfoldable pub read_session : ServerConfig → Bool → (ℕ → Read) → ℕ → ClientSession → Thread → Event
read_session config reallocated read socket cs t = elim (handler_read config reallocated read cs) [
  | kept ret cs' ↦ after_read config socket ret cs' t
  | removed ↦ (minus_one, record t { sessions = session_remove socket t.sessions }, false)
  | premature_close _ ↦ (minus_one, record t { sessions = session_remove socket t.sessions }, false)
]

-- The first event of a connection registers it; `none` stands for a registration without a free entry.
unfoldable pub register_event : Bool → ℕ → ℕ → Thread → Option Event
register_event refused now socket t = elim (register_client refused socket now t.node) [
  | none ↦ none
  | some (r, n) ↦
      some ((if eq_ℤ r minus_one then minus_one else pos 0), record t { node = n }, false)
]

-- The second one creates its session.
unfoldable pub create_event : ServerConfig → Bool → (ℕ → Read) → ℕ → Thread → Event
create_event config reallocated read socket t =
    let created = session_create socket t.node.busy_queue t.sessions in
    elim created.0 [
      | none ↦ (minus_one, t, false)
      | some cs ↦ read_session config reallocated read socket cs (record t { sessions = created.1 })
    ]

-- mk_conn_read. `refused` is the verdict of the plugins of STAGE_10 on a new connection.
unfoldable pub conn_read :
    ServerConfig → Verdict → Bool → Bool → (ℕ → Read) → ℕ → ℕ → Thread → Option Event
conn_read config owned refused reallocated read now socket t = some (ret_continue, t, false)
conn_read config closing refused reallocated read now socket t = some (minus_one, t, false)
conn_read config proceed refused reallocated read now socket t =
    elim (session_get socket t.sessions) [
      | some cs ↦ some (read_session config reallocated read socket cs t)
      | none ↦ elim (find_busy socket t.node.busy_queue) [
        | none ↦ register_event refused now socket t
        | some _ ↦ some (create_event config reallocated read socket t)
      ]
    ]

unfoldable pub conn_error : Verdict → ℕ → Thread → ℤ × Thread
conn_error owned socket t = (ret_continue, t)
conn_error closing socket t = (minus_one, t)
conn_error proceed socket t = (
  pos 0,
  record {
    node = (remove_client socket t.node).1;
    sessions = elim (session_get socket t.sessions) [
      | none ↦ t.sessions
      | some _ ↦ session_remove socket t.sessions
    ];
  },
)

unfoldable pub conn_close : Verdict → ℕ → Thread → ℤ × Thread
conn_close owned socket t = (ret_continue, t)
conn_close closing socket t = (minus_one, t)
conn_close proceed socket t = (pos 0, record t { node = (remove_client socket t.node).1 })

unfoldable pub conn_timeout : ServerConfig → Verdict → ℕ → Thread → ℤ × Thread
conn_timeout config owned now t = (ret_continue, t)
conn_timeout config closing now t = (minus_one, t)
conn_timeout config proceed now t = (pos 0, check_timeouts config now t)
