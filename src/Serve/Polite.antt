-- ===== src/Serve/Polite.antt =====
-- What a plugin's callback may do: the turns that mk_plugin_stage_run of src/mk_plugin.c is given.
use monkey.Prelude.{◌≡◌, ◌≢◌, refl, Bool, true, false, List, [], ◌∷◌, ◌++◌, All, All-append, arith}
use monkey.Types.{SessionRequest, ClientSession}
use monkey.Serve.Plugins.{
  Turn, Answer, not_me, keep_on, at_end, close_conx, invalid, Callback, run_stage_20, stage_30_loop,
  run_stage_30, turn_after, no_turn,
}
use monkey.Serve.Init.{closing_status}
use monkey.Serve.Known.{Known, HasLine}

-- A plugin's turn sends responses of known statuses only, answers with one of the four values, and has
-- set no status or a known one when it closes the connection.
pub record Polite (t : Turn) : Type 0 where
  pub lines : All HasLine t.log
  pub valid : t.answer ≢ invalid
  pub status : t.answer ≡ close_conx → Known (closing_status t.request)

abbrev pub ArePolite : List Callback → Type 0
ArePolite = All (λ s. (cs : ClientSession) (sr : SessionRequest) → Polite (s cs sr))

no_turn-Polite : (sr : SessionRequest) → Polite (no_turn sr)
no_turn-Polite sr = record {
  lines = tt;
  valid = λ e. ground arith;
  status = λ e. absurd (ground arith);
}

stage_30_loop-Polite :
    (stage : List Callback) (cs : ClientSession) (sr : SessionRequest)
    → ArePolite stage
    → Polite (stage_30_loop stage cs sr)
unfolding stage_30_loop
stage_30_loop-Polite [] cs sr h = no_turn-Polite sr
stage_30_loop-Polite (s30 ∷ stage) cs sr h =
    let p = h.0 cs sr in
    let rest = stage_30_loop-Polite stage cs (s30 cs sr).request h.1 in
    go (s30 cs sr).answer refl p rest
  where
    go :
        (a : Answer)
        → (s30 cs sr).answer ≡ a
        → Polite (s30 cs sr)
        → Polite (stage_30_loop stage cs (s30 cs sr).request)
        → Polite (elim a [
          | not_me ↦ turn_after (s30 cs sr).log (stage_30_loop stage cs (s30 cs sr).request)
          | _ ↦ s30 cs sr
        ])
    go not_me e p rest = record {
      lines =
          All-append HasLine (s30 cs sr).log (stage_30_loop stage cs (s30 cs sr).request).log
            p.lines rest.lines;
      valid = rest.valid;
      status = rest.status;
    }
    go keep_on e p rest = p
    go at_end e p rest = p
    go close_conx e p rest = p
    go invalid e p rest = p

pub run_stage_30-Polite :
    (stage : List Callback) (cs : ClientSession) (sr : SessionRequest)
    → ArePolite stage
    → Polite (run_stage_30 stage cs sr)
unfolding run_stage_30
run_stage_30-Polite stage cs sr h = go sr.handled_by
  where
    go : (b : Bool) → Polite (elim b [ true ↦ no_turn sr | false ↦ stage_30_loop stage cs sr ])
    go true = no_turn-Polite sr
    go false = stage_30_loop-Polite stage cs sr h

abbrev HasLines : Turn → Type 0
HasLines t = All HasLine t.log

pub run_stage_20-Lines :
    (stage : List Callback) (cs : ClientSession) (sr : SessionRequest)
    → ArePolite stage
    → All HasLine (run_stage_20 stage cs sr).log
unfolding run_stage_20
run_stage_20-Lines [] cs sr h = tt
run_stage_20-Lines (s20 ∷ stage) cs sr h =
    let rest = run_stage_20-Lines stage cs (s20 cs sr).request h.1 in
    go (s20 cs sr).answer (h.0 cs sr).lines (
      All-append HasLine (s20 cs sr).log (run_stage_20 stage cs (s20 cs sr).request).log
        (h.0 cs sr).lines rest)
  where
    go :
        (a : Answer)
        → All HasLine (s20 cs sr).log
        → All HasLine ((s20 cs sr).log ++ (run_stage_20 stage cs (s20 cs sr).request).log)
        → HasLines (elim a [
          | close_conx ↦ s20 cs sr
          | _ ↦ turn_after (s20 cs sr).log (run_stage_20 stage cs (s20 cs sr).request)
        ])
    go close_conx l r = l
    go not_me l r = r
    go keep_on l r = r
    go at_end l r = r
    go invalid l r = r
