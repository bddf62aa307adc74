-- ===== src/Tests/Serving.antt =====
-- Tests of Sched and Session: src/mk_scheduler.c, and the sessions of src/mk_request.c and src/mk_http.c.
use monkey.Prelude.{
  ℕ, zero, suc, ◌≡◌, refl, inl, true, false, none, some, [], ◌∷◌, length, replicate,
  length-replicate, arith, minus_one,
}
use monkey.Libc.{Bytes, codes}
use monkey.Types.{ClientSession, ServerConfig, request_init, protocol_11}
use monkey.Sched.{
  Connection, Node, load, next_target, pending, remove_client, register_client, find_busy,
  register_thread,
}
use monkey.Sched.Balance.{IsTarget, next_target-IsTarget}
use monkey.Sched.Reach.{
  Worker, Step, accepting, refusing, Reach, start, next, IsWorker, accept, Reach-IsWorker,
  Reach-registers, Reach-full,
}
use monkey.Session.{chunk, new_session, session_get, Read, got, handler_read, request_end}
use monkey.Session.Buffer.{IsBuffer, IsRead, Keeps, handler_read-IsBuffer}
use monkey.Session.KeepAlive.{Ends, request_end-Ends}

abbrev test_config : ServerConfig
test_config = record {
  keep_alive = true;
  max_keep_alive_request = 2;
  keep_alive_timeout = 15;
  timeout = 15;
  resume = true;
  symlink = false;
  max_request_size = 16384;
  standard_port = 80;
  worker_capacity = 2;
  workers = 1;
}

next_target-IsTarget_example : IsTarget 5 (3 ∷ 2 ∷ 4 ∷ []) (next_target 5 3 (2 ∷ 4 ∷ []))
next_target-IsTarget_example = next_target-IsTarget 5 3 (2 ∷ 4 ∷ [])

abbrev first_worker : Worker
first_worker = record { node = register_thread 1; waiting = 0; refused = 0 }

abbrev given_one : Worker
given_one = accept first_worker

given_one_reached : Reach 1 given_one
unfolding register_thread
given_one_reached = next start (accepting first_worker (inl refl) (omega arith))

Reach-IsWorker_example : IsWorker 1 given_one
Reach-IsWorker_example = Reach-IsWorker 1 (omega arith) {w = given_one} given_one_reached

Reach-registers_example : (n : Node) × Step 1 given_one (record given_one { node = n; waiting = 0 })
Reach-registers_example =
    Reach-registers 1 (omega arith) {w = given_one} 7 100 given_one_reached (omega arith)

abbrev refused_one : Worker
refused_one = record { node = given_one.node; waiting = 0; refused = 1 }

refused_one_reached : Reach 1 refused_one
unfolding register_thread register_client remove_client find_busy
refused_one_reached =
    next given_one_reached (refusing given_one 7 100 given_one.node (omega arith) refl refl)

Reach-full_example :
    (length refused_one.node.busy_queue ≡ 0)
    × (refused_one.waiting ≡ 0)
    × (length refused_one.node.av_queue ≡ 1)
    × (next_target 1 (load refused_one.node) [] ≡ minus_one)
Reach-full_example = Reach-full 1 (omega arith) {w = refused_one} refused_one_reached refl

test_IsBuffer : IsBuffer test_config (new_session 3 100)
test_IsBuffer = record {
  within = omega arith;
  fixed = λ _. refl;
  dynamic = λ e. absurd (ground arith);
}

abbrev reads_two : ℕ → Read
reads_two zero = Read.again
reads_two (suc zero) = Read.again
reads_two (suc (suc n)) = got (codes "ab")

reads_two-IsRead : (n : ℕ) → IsRead n (reads_two n)
reads_two-IsRead zero = tt
reads_two-IsRead (suc zero) = tt
reads_two-IsRead (suc (suc n)) = (omega arith, omega arith)

handler_read-IsBuffer_example :
    Keeps (IsBuffer test_config) (handler_read test_config true reads_two (new_session 3 100))
    × ((socket time : ℕ) → IsBuffer test_config (new_session socket time))
handler_read-IsBuffer_example =
    handler_read-IsBuffer test_config true reads_two (new_session 3 100) reads_two-IsRead
      test_IsBuffer

abbrev whole_chunk : Bytes
whole_chunk = replicate chunk b'a'

whole_chunk-length : length whole_chunk ≡ chunk
whole_chunk-length = length-replicate {A = ℕ} chunk b'a'

abbrev ended : ClientSession
ended = record (new_session 3 100) {
  request_list = record request_init { keep_alive = true; protocol = protocol_11 } ∷ [];
}

request_end-Ends_example :
    Ends test_config 120 3 (ended ∷ []) (request_end test_config 120 3 (ended ∷ []))
request_end-Ends_example = request_end-Ends test_config 120 3 (ended ∷ [])

abbrev arrived : Connection
arrived = record { socket = some 3; status = pending; arrive_time = 100 }

no_session : session_get 3 [] ≡ none
unfolding session_get
no_session = refl
