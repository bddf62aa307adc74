-- ===== src/Worker/Write.antt =====
-- mk_conn_write of src/mk_connection.c: the event of a socket that can be written.
use monkey.Prelude.{ℕ, Option, none, some, List, [], if◌then◌else◌, ℤ, pos, minus_one, ltb_ℤ, eq_ℤ}
use monkey.Types.{ret_continue, ClientSession, ServerConfig}
use monkey.Sched.{process, update_status}
use monkey.Session.{session_get, session_remove, put_session, request_end}
use monkey.Serve.Plugins.{Action, Server}
use monkey.Serve.Write.{handler_write}
use monkey.Worker.{Thread, Verdict, owned, closing, proceed}

-- The connection is in process.
abbrev pub in_process : ℕ → Thread → Thread
in_process socket t = record t {
  node = record t.node { busy_queue = (update_status socket process t.node.busy_queue).1 };
}

-- Behind mk_handler_write, which has returned `ret` and left the session as `cs`.
unfoldable pub after_write : ServerConfig → ℕ → ℕ → ℤ → ClientSession → Thread → ℤ × Thread
after_write config now socket ret cs t =
    let ended = request_end config now socket (put_session socket cs t.sessions) in
    if ltb_ℤ ret (pos 0)
    then (minus_one, record t { sessions = session_remove socket t.sessions })
    else if eq_ℤ ret (pos 0)
    then (ended.0, record t { sessions = ended.1 })
    else (pos 0, record t { sessions = put_session socket cs t.sessions })

unfoldable pub write_session :
    Server → ℕ → ℕ → ClientSession → Thread → Option (ℤ × Thread × List Action)
write_session srv now socket cs t =
    let w = handler_write srv cs in
    elim w.0 [
      | none ↦ none
      | some ret ↦ let r = after_write srv.config now socket ret w.1 t in some (r.0, r.1, w.2)
    ]

-- mk_conn_write: the returned value, the thread and the actions; `none` where mk_handler_write has none.
unfoldable pub conn_write : Server → Verdict → ℕ → ℕ → Thread → Option (ℤ × Thread × List Action)
conn_write srv owned now socket t = some (ret_continue, t, [])
conn_write srv closing now socket t = some (minus_one, t, [])
conn_write srv proceed now socket t =
    let t' = in_process socket t in
    elim (session_get socket t'.sessions) [
      | none ↦ some (pos 0, t', [])
      | some cs ↦ write_session srv now socket cs t'
    ]
