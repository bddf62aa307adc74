-- ===== src/Events.antt =====
-- The events of sockets in src/mk_plugin.c: the sockets that plugins have registered in a worker, and
-- whom an event is given to. A plugin's hook is a function of the socket.
pub mod Dispatch
use monkey.Prelude.{
  ℕ, ◌+◌, Bool, true, false, Option, none, some, List, [], ◌∷◌, ◌++◌, leb, ◌==◌, if◌then◌else◌, ℤ,
  pos, negsuc, minus_one, eq_ℤ, ltb_ℤ,
}
use monkey.Types.{ret_continue, ServerConfig}
use monkey.Session.{request_end}
use monkey.Epoll.{Mode, Mask, StateIndex, epoll_add, epoll_del}
use monkey.Worker.{Thread, Verdict, owned, closing, proceed, conn_close}

-- MK_PLUGIN_RET_EVENT_*
abbrev pub event_next : ℤ
event_next = negsuc 299

abbrev pub event_owned : ℤ
event_owned = negsuc 399

abbrev pub event_close_value : ℤ
event_close_value = negsuc 499

abbrev pub event_continue : ℤ
event_continue = negsuc 599

-- The event hooks of struct plugin; NULL is `none`.
pub record Plugin : Type 0 where
  pub on_read : Option (ℕ → ℤ)
  pub on_write : Option (ℕ → ℤ)
  pub on_error : Option (ℕ → ℤ)
  pub on_close : Option (ℕ → ℤ)
  pub on_timeout : Option (ℕ → ℤ)

-- struct plugin_event
pub record PluginEvent : Type 0 where
  pub socket : ℕ
  pub handler : Plugin

-- mk_plugin_event_get, for a worker that has a list.
unfoldable pub event_get : ℕ → List PluginEvent → Option PluginEvent
event_get socket [] = none
event_get socket (e ∷ list) = if e.socket == socket then some e else event_get socket list

unfoldable pub delete_event : ℕ → List PluginEvent → List PluginEvent
delete_event socket [] = []
delete_event socket (e ∷ list) = if e.socket == socket then list else e ∷ delete_event socket list

-- mk_plugin_event_del: the returned value, the list and the epoll states. Sockets are not negative here.
unfoldable pub event_del :
    ℕ → ℕ → ℤ → List PluginEvent → StateIndex → ℤ × List PluginEvent × StateIndex
event_del efd socket ctl list index =
    if socket == 0 then (minus_one, list, index) else elim (event_get socket list) [
      | none ↦ (minus_one, list, index)
      | some _ ↦ (pos 0, delete_event socket list, (epoll_del efd socket ctl index).1)
    ]

-- mk_plugin_event_add in a worker
unfoldable pub event_add :
    ℕ
    → ℕ
    → Mode
    → Option Plugin
    → ℕ
    → ℤ
    → Bool
    → List PluginEvent
    → StateIndex
    → ℤ × List PluginEvent × StateIndex
event_add efd socket mode handler behavior ctl exists list index =
    let added = (epoll_add efd socket mode behavior ctl exists index).2 in
    elim handler [
      | none ↦ (pos 0, list, added)
      | some plugin ↦ (pos 0, list ++ (record { socket = socket; handler = plugin } ∷ []), added)
    ]

-- The plugins in their order, as long as they pass the event on.
unfoldable pub ask_plugins : (Plugin → Option (ℕ → ℤ)) → ℤ → ℕ → List Plugin → ℤ
ask_plugins hook otherwise socket [] = otherwise
ask_plugins hook otherwise socket (node ∷ plugins) = elim (hook node) [
  | none ↦ ask_plugins hook otherwise socket plugins
  | some f ↦
      let rest = ask_plugins hook otherwise socket plugins in
      if eq_ℤ (f socket) event_next then rest else f socket
]

-- The plugin that has registered the socket is asked first, if it has the hook.
unfoldable pub owner_hook : (Plugin → Option (ℕ → ℤ)) → ℕ → List PluginEvent → Option (ℕ → ℤ)
owner_hook hook socket list = elim (event_get socket list) [ none ↦ none | some e ↦ hook e.handler ]

unfoldable pub dispatch : (Plugin → Option (ℕ → ℤ)) → ℤ → ℕ → List PluginEvent → List Plugin → ℤ
dispatch hook otherwise socket list plugins = elim (owner_hook hook socket list) [
  | some f ↦ f socket
  | none ↦ ask_plugins hook otherwise socket plugins
]

-- mk_plugin_event_read up to mk_plugin_event_timeout
unfoldable pub event_read : ℕ → List PluginEvent → List Plugin → ℤ
unfolding dispatch
event_read = dispatch (λ p. p.on_read) event_continue

unfoldable pub event_write : ℕ → List PluginEvent → List Plugin → ℤ
unfolding dispatch
event_write = dispatch (λ p. p.on_write) ret_continue

unfoldable pub event_error : ℕ → List PluginEvent → List Plugin → ℤ
unfolding dispatch
event_error = dispatch (λ p. p.on_error) ret_continue

unfoldable pub event_close : ℕ → List PluginEvent → List Plugin → ℤ
unfolding dispatch
event_close = dispatch (λ p. p.on_close) ret_continue

unfoldable pub event_timeout : ℕ → List PluginEvent → List Plugin → ℤ
unfolding dispatch
event_timeout = dispatch (λ p. p.on_timeout) ret_continue

-- The switch of the handlers in src/mk_connection.c over what the plugins return.
unfoldable pub verdict_of : ℤ → Verdict
verdict_of ret =
    if eq_ℤ ret event_owned then owned else if eq_ℤ ret event_close_value then closing else proceed

-- mk_plugin_http_request_end: the returned value and the thread. The event of the closed connection goes
-- to the plugins as well.
unfoldable pub plugin_request_end :
    ServerConfig → ℕ → ℕ → List PluginEvent → List Plugin → Thread → ℤ × Thread
plugin_request_end config now socket list plugins t =
    let ended = request_end config now socket t.sessions in
    let t' : Thread = record t { sessions = ended.1 } in
    if ltb_ℤ ended.0 (pos 0)
    then conn_close (verdict_of (event_close socket list plugins)) socket t'
    else (pos 0, t')
