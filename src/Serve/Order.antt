-- ===== src/Serve/Order.antt =====
-- The order in which mk_handler_write of src/mk_request.c answers the requests of a session.
use monkey.Prelude.{
  ◌≡◌, ◌≢◌, refl, sym, ap, ◌∙◌, ◌⊎◌, inl, inr, true, false, none, some, List, [], ◌∷◌, ◌++◌,
  append_assoc, arith, ℤ, pos, minus_one, ltb_ℤ, Bool-cases, Option-cases,
}
use monkey.Types.{SessionRequest, ClientSession}
use monkey.Http.Send.{exit_abort}
use monkey.Serve.Plugins.{Action, Result, Server, Turn, run_stage_40}
use monkey.Serve.Errors.{exit_normal, exit_error, send_chunk}
use monkey.Serve.Init.{ends}
use monkey.Serve.Process.{request_process}
use monkey.Serve.Write.{Written, write_node, stops, before_rest, write_loop}

-- The loop goes on behind a request that has ended with this status.
abbrev pub GoesOn : ℤ → SessionRequest → Type 0
GoesOn status sr =
    (ltb_ℤ (pos 0) status ≡ false)
    × (status ≢ exit_abort)
    × ((status ≡ exit_normal) ⊎ (status ≡ exit_error) → sr.close_now ≡ false)

abbrev pub StopsAt : ℤ → SessionRequest → Type 0
StopsAt status sr =
    (status ≡ exit_abort)
    ⊎ (((status ≡ exit_normal) ⊎ (status ≡ exit_error)) × (sr.close_now ≡ true))

stops-StopsAt : (status : ℤ) (sr : SessionRequest) → stops status sr ≡ true → StopsAt status sr
unfolding stops
stops-StopsAt status sr h = ground arith

stops-GoesOn :
    (status : ℤ) (sr : SessionRequest)
    → ltb_ℤ (pos 0) status ≡ false
    → stops status sr ≡ false
    → GoesOn status sr
unfolding stops
stops-GoesOn status sr p h = (p, λ e. ground arith, λ e. ground arith)

module _ (srv : Server) (cs : ClientSession) where
  -- What is done for a request, where the one before has left the status `st`: the rest of its file is sent, or
  -- it is processed; or nothing, when a plugin has taken it or all of it is sent.
  abbrev pub IsAnswer : ℤ → SessionRequest → Result → Type 0
  IsAnswer st sr r =
      ((sr.handled_by ≡ true) × (r ≡ ends (some st) sr))
      ⊎ (((sr.handled_by ≡ false)
            × (ltb_ℤ (pos 0) sr.bytes_to_send ≡ true)
            × (r ≡ send_chunk srv.sys sr))
          ⊎ (((sr.handled_by ≡ false)
                × (ltb_ℤ sr.bytes_to_send (pos 0) ≡ true)
                × (r ≡ request_process srv cs sr))
              ⊎ ((sr.handled_by ≡ false) × (sr.bytes_to_send ≡ pos 0) × (r ≡ ends (some st) sr))))

  -- Every plugin hears of the request that has ended.
  abbrev pub turn_of : Result → Turn
  turn_of r = run_stage_40 srv.stages.stage_40 cs r.request

  -- Requests that are answered one after the other, from the status `st` to `st'`: what becomes of them,
  -- and the actions.
  pub data Passed : ℤ → List SessionRequest → ℤ → List SessionRequest → List Action → Type 0 where
    start : {st : ℤ} → Passed st [] st [] []
    next :
        {st st' : ℤ} {rest rest' : List SessionRequest} {log : List Action} (sr : SessionRequest)
        (r : Result) (status : ℤ)
        → IsAnswer st sr r
        → r.value ≡ some status
        → GoesOn status (turn_of r).request
        → Passed status rest st' rest' log
        → Passed st (sr ∷ rest) st' ((turn_of r).request ∷ rest') (r.log ++ (turn_of r).log ++ log)

  -- Where the loop ends: behind all requests, or at one; then those behind it are left as they are.
  pub data End : ℤ → List SessionRequest → Written → Type 0 where
    finished : {st : ℤ} → End st [] (record { value = some (pos 0); requests = []; log = [] })
    at_none :
        {st : ℤ} (sr : SessionRequest) (rest : List SessionRequest) (r : Result)
        → IsAnswer st sr r
        → r.value ≡ none
        → End st (sr ∷ rest) (record { value = none; requests = r.request ∷ rest; log = r.log })
    at_unsent :
        {st : ℤ} (sr : SessionRequest) (rest : List SessionRequest) (r : Result) (status : ℤ)
        → IsAnswer st sr r
        → r.value ≡ some status
        → ltb_ℤ (pos 0) status ≡ true
        → End st
            (sr ∷ rest)
            (record { value = some status; requests = r.request ∷ rest; log = r.log })
    at_stop :
        {st : ℤ} (sr : SessionRequest) (rest : List SessionRequest) (r : Result) (status : ℤ)
        → IsAnswer st sr r
        → r.value ≡ some status
        → StopsAt status (turn_of r).request
        → End st (sr ∷ rest) (record {
          value = some minus_one;
          requests = (turn_of r).request ∷ rest;
          log = r.log ++ (turn_of r).log;
        })

  pub record Ordered (st : ℤ) (list : List SessionRequest) (w : Written) : Type 0 where
    pub before : List SessionRequest
    pub behind : List SessionRequest
    pub split : list ≡ before ++ behind
    pub status : ℤ
    pub before' : List SessionRequest
    pub log : List Action
    pub passed : Passed st before status before' log
    pub last : Written
    pub end : End status behind last
    pub is_whole :
        w
        ≡ record { value = last.value; requests = before' ++ last.requests; log = log ++ last.log }

  write_node-IsAnswer : (st : ℤ) (sr : SessionRequest) → IsAnswer st sr (write_node srv cs st sr)
  unfolding write_node
  write_node-IsAnswer st sr = elim (Bool-cases sr.handled_by) [
    | inl h ↦ inl (h, ground arith)
    | inr h ↦ elim (Bool-cases (ltb_ℤ (pos 0) sr.bytes_to_send)) [
      | inl p ↦ inr (inl (h, p, ground arith))
      | inr p ↦ elim (Bool-cases (ltb_ℤ sr.bytes_to_send (pos 0))) [
        | inl q ↦ inr (inr (inl (h, q, ground arith)))
        | inr q ↦ inr (inr (inr (h, ground arith, ground arith)))
      ]
    ]
  ]

  -- The loop ends at the first request.
  ends_here :
      (st : ℤ) (list : List SessionRequest) (w : Written) → End st list w → Ordered st list w
  ends_here st list w e = record {
    before = [];
    behind = list;
    split = refl;
    status = st;
    before' = [];
    log = [];
    passed = start;
    last = w;
    end = e;
    is_whole = refl;
  }

  goes_on :
      (st : ℤ) (sr : SessionRequest) (rest : List SessionRequest) (r : Result) (status : ℤ)
      (w : Written)
      → IsAnswer st sr r
      → r.value ≡ some status
      → GoesOn status (turn_of r).request
      → Ordered status rest w
      → Ordered st (sr ∷ rest) (before_rest (r.log ++ (turn_of r).log) (turn_of r).request w)
  goes_on st sr rest r status w a v g o = record {
    before = sr ∷ o.before;
    behind = o.behind;
    split = ap (◌∷◌ sr) o.split;
    status = o.status;
    before' = (turn_of r).request ∷ o.before';
    log = r.log ++ (turn_of r).log ++ o.log;
    passed = next sr r status a v g o.passed;
    last = o.last;
    end = o.end;
    is_whole =
        ap (before_rest (r.log ++ (turn_of r).log) (turn_of r).request) o.is_whole
        ∙ ap
            (λ log. record {
              value = o.last.value;
              requests = (turn_of r).request ∷ (o.before' ++ o.last.requests);
              log = log;
            })
            (sym (append_assoc (r.log ++ (turn_of r).log) o.log o.last.log));
  }

  -- mk_handler_write answers the requests of a session in their order, tells the plugins of stage 40 of each
  -- that has ended, and does nothing else. A request that no plugin has taken is processed when
  -- it is new, and the rest of its file is sent when some is left. The
  -- loop goes on behind a request whose status is not positive, unless it is EXIT_ABORT, or EXIT_NORMAL or
  -- EXIT_ERROR of a request that closes the connection: at these it returns -1, and at a positive status that
  -- status. The requests behind are then left as they are. Behind the last one it returns 0. It ends
  -- without a value only at a request whose processing does.
  pub write_loop-order :
      (st : ℤ) (list : List SessionRequest) → Ordered st list (write_loop srv cs st list)
  unfolding write_loop
  write_loop-order st [] = ends_here st [] (write_loop srv cs st []) finished
  write_loop-order st (sr ∷ rest) =
      let r = write_node srv cs st sr in
      let a = write_node-IsAnswer st sr in
      elim (Option-cases r.value) [
        | inl e ↦ rw (e, write_loop) (ends_here st (sr ∷ rest) _ (at_none sr rest r a e))
        | inr (status, e) ↦ elim (Bool-cases (ltb_ℤ (pos 0) status)) [
          | inl p ↦
              rw (e, p, write_loop) (ends_here st (sr ∷ rest) _ (at_unsent sr rest r status a e p))
          | inr p ↦ elim (Bool-cases (stops status (turn_of r).request)) [
            | inl q ↦
                rw (e, p, q, write_loop)
                  (ends_here st (sr ∷ rest) _
                    (at_stop sr rest r status a e (stops-StopsAt status (turn_of r).request q)))
            | inr q ↦
                rw (e, p, q, write_loop)
                  (goes_on st sr rest r status (write_loop srv cs status rest) a e
                    (stops-GoesOn status (turn_of r).request p q) (write_loop-order status rest))
          ]
        ]
      ]
