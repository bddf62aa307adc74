-- ===== src/Serve/Plugins.antt =====
-- The actions of the request processing, and mk_plugin_stage_run of src/mk_plugin.c in a server that is
-- not built as a library. A plugin's callback is a function of the session and the request; it changes
-- the request only.
use monkey.Prelude.{true, false, Option, List, [], ◌∷◌, ◌++◌, ℤ}
use monkey.Libc.{Bytes}
use monkey.Types.{SessionRequest, ClientSession, ServerConfig}
use monkey.Site.{Site, System}
use monkey.Mime.{MimeTables}

-- The calls that reach outside: mk_header_send with the request as it is then, mk_socket_send, open with
-- what it returns, mk_socket_send_file with descriptor, offset, count and what it returns, and the cork
-- taken off.
pub data Action : Type 0 where
  headers : SessionRequest → Action
  content : Bytes → Action
  opened : Bytes → ℤ → Action
  sent_file : ℤ → ℤ → ℤ → ℤ → Action
  uncork : Action

-- What a step of the processing gives: the returned value, the request afterwards, and the actions. A
-- value of `none` says that the server has ended itself, or that its behaviour is undefined.
pub record Result : Type 0 where
  pub value : Option ℤ
  pub request : SessionRequest
  pub log : List Action

-- Actions before those of the rest.
abbrev pub after : List Action → Result → Result
after log r = record r { log = log ++ r.log }

-- MK_PLUGIN_RET_*; `invalid` is any other value.
pub data Answer : Type 0 where
  not_me keep_on at_end close_conx invalid : Answer

pub record Turn : Type 0 where
  pub answer : Answer
  pub request : SessionRequest
  pub log : List Action

abbrev pub Callback : Type 0
Callback = ClientSession → SessionRequest → Turn

-- plg_stagemap: the callbacks of the stages in their order.
pub record Stages : Type 0 where
  pub stage_20 : List Callback
  pub stage_30 : List Callback
  pub stage_40 : List Callback

-- All that the processing reads and does not change.
pub record Server : Type 0 where
  pub config : ServerConfig
  pub site : Site
  pub sys : System
  pub mimes : MimeTables
  pub stages : Stages

abbrev pub turn_after : List Action → Turn → Turn
turn_after log t = record t { log = log ++ t.log }

-- The -1 at the end of mk_plugin_stage_run, which is MK_PLUGIN_RET_NOT_ME too.
abbrev pub no_turn : SessionRequest → Turn
no_turn sr = record { answer = not_me; request = sr; log = [] }

-- STAGE_20: a plugin that closes the connection ends the stage.
unfoldable pub run_stage_20 : List Callback → ClientSession → SessionRequest → Turn
run_stage_20 [] cs sr = no_turn sr
run_stage_20 (s20 ∷ stage) cs sr = elim (s20 cs sr).answer [
  | close_conx ↦ s20 cs sr
  | _ ↦ turn_after (s20 cs sr).log (run_stage_20 stage cs (s20 cs sr).request)
]

unfoldable pub stage_30_loop : List Callback → ClientSession → SessionRequest → Turn
stage_30_loop [] cs sr = no_turn sr
stage_30_loop (s30 ∷ stage) cs sr = elim (s30 cs sr).answer [
  | not_me ↦ turn_after (s30 cs sr).log (stage_30_loop stage cs (s30 cs sr).request)
  | _ ↦ s30 cs sr
]

-- STAGE_30: the first plugin that does not decline decides, if none has taken the request yet.
unfoldable pub run_stage_30 : List Callback → ClientSession → SessionRequest → Turn
unfolding stage_30_loop
run_stage_30 stage cs sr = elim sr.handled_by [
  | true ↦ no_turn sr
  | false ↦ stage_30_loop stage cs sr
]

-- STAGE_40: every plugin hears that the request has ended.
unfoldable pub run_stage_40 : List Callback → ClientSession → SessionRequest → Turn
run_stage_40 [] cs sr = no_turn sr
run_stage_40 (s40 ∷ stage) cs sr =
    turn_after (s40 cs sr).log (run_stage_40 stage cs (s40 cs sr).request)
