-- ===== src/Serve/Write.antt =====
-- mk_handler_write of src/mk_request.c: the requests of a session, answered one after the other.
use monkey.Prelude.{
  Bool, true, false, Option, none, some, List, [], ◌∷◌, ◌++◌, if◌then◌else◌, ℤ, pos, minus_one,
  eq_ℤ, ltb_ℤ,
}
use monkey.Types.{SessionRequest, ClientSession}
use monkey.Http.Send.{exit_abort}
use monkey.Request.{request_parse}
use monkey.Serve.Plugins.{Action, Result, Server, run_stage_40}
use monkey.Serve.Errors.{exit_normal, exit_error, send_chunk}
use monkey.Serve.Init.{ends}
use monkey.Serve.Process.{request_process}

-- The returned value, the requests of the session afterwards, and the actions.
pub record Written : Type 0 where
  pub value : Option ℤ
  pub requests : List SessionRequest
  pub log : List Action

-- One request, with the status that the one before has left: bytes of a file are left to send, or it is
-- new, or nothing is to be done.
unfoldable pub write_node : Server → ClientSession → ℤ → SessionRequest → Result
write_node srv cs final_status sr =
    if sr.handled_by
    then ends (some final_status) sr
    else if ltb_ℤ (pos 0) sr.bytes_to_send
    then send_chunk srv.sys sr
    else if ltb_ℤ sr.bytes_to_send (pos 0)
    then request_process srv cs sr
    else ends (some final_status) sr

-- A request that has ended stops the loop.
unfoldable pub stops : ℤ → SessionRequest → Bool
stops final_status sr =
    if eq_ℤ final_status exit_normal
    then sr.close_now
    else if eq_ℤ final_status exit_error
    then sr.close_now
    else eq_ℤ final_status exit_abort

abbrev pub before_rest : List Action → SessionRequest → Written → Written
before_rest log sr w = record w { requests = sr ∷ w.requests; log = log ++ w.log }

-- The loop over the requests.
unfoldable pub write_loop : Server → ClientSession → ℤ → List SessionRequest → Written
write_loop srv cs final_status [] = record { value = some (pos 0); requests = []; log = [] }
write_loop srv cs final_status (sr ∷ rest) =
    let r = write_node srv cs final_status sr in
    let t = run_stage_40 srv.stages.stage_40 cs r.request in
    elim r.value [
      | none ↦ record { value = none; requests = r.request ∷ rest; log = r.log }
      | some status ↦ elim (ltb_ℤ (pos 0) status) [
        | true ↦ record { value = some status; requests = r.request ∷ rest; log = r.log }
        | false ↦ elim (stops status t.request) [
          | true ↦ record {
            value = some minus_one;
            requests = t.request ∷ rest;
            log = r.log ++ t.log;
          }
          | false ↦ before_rest (r.log ++ t.log) t.request (write_loop srv cs status rest)
        ]
      ]
    ]

-- What the session's requests are, when the list of a session that has none is filled first.
abbrev pub parsed_list : ClientSession → List SessionRequest → ℤ × ClientSession
parsed_list cs [] = request_parse cs
parsed_list cs (sr ∷ rest) = (pos 0, cs)

-- mk_handler_write: the returned value, the session and the actions.
unfoldable pub handler_write : Server → ClientSession → Option ℤ × ClientSession × List Action
handler_write srv cs =
    let p = parsed_list cs cs.request_list in
    let w = write_loop srv p.1 (pos 0) p.1.request_list in
    if eq_ℤ p.0 (pos 0)
    then (w.value, record p.1 { request_list = w.requests }, w.log)
    else (some minus_one, p.1, [])
