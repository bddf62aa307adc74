-- ===== src/Tests/Threads.antt =====
-- Tests of Worker: src/mk_connection.c and mk_sched_check_timeouts of src/mk_scheduler.c.
use monkey.Prelude.{ℕ, zero, suc, ◌<◌, ◌≡◌, true, false, some, [], ◌∷◌, length, arith}
use monkey.Libc.{codes}
use monkey.Types.{ServerConfig}
use monkey.Sched.{register_thread, free_list}
use monkey.Sched.Queues.{IsNode, register_thread-IsNode}
use monkey.Session.{Read, got, again, new_session}
use monkey.Session.Buffer.{IsRead, new_session-IsBuffer}
use monkey.Worker.{
  Thread, Event, proceed, conn_read, conn_error, conn_close, conn_timeout, check_timeouts,
}
use monkey.Worker.Timeouts.{Kept, check_timeouts-alive}
use monkey.Worker.Calls.{IsThread}
use monkey.Worker.Invariant.{conn_read-IsThread, conn_error-IsThread}

abbrev test_config : ServerConfig
test_config = record {
  keep_alive = true;
  max_keep_alive_request = 2;
  keep_alive_timeout = 15;
  timeout = 15;
  resume = true;
  symlink = false;
  max_request_size = 16384;
  standard_port = 80;
  worker_capacity = 2;
  workers = 1;
}

-- A thread for two connections, with one session.
abbrev test_thread : Thread
test_thread = record { node = register_thread 2; sessions = new_session 3 100 ∷ [] }

test_thread-IsThread : IsThread test_config 2 test_thread
test_thread-IsThread = record {
  node = register_thread-IsNode 2;
  buffers = (new_session-IsBuffer test_config 3 100, tt);
  distinct = (tt, tt);
}

abbrev reads_two : ℕ → Read
reads_two zero = again
reads_two (suc zero) = again
reads_two (suc (suc n)) = got (codes "ab")

reads_two-IsRead : (n : ℕ) → IsRead n (reads_two n)
reads_two-IsRead zero = tt
reads_two-IsRead (suc zero) = tt
reads_two-IsRead (suc (suc n)) = (omega arith, omega arith)

some_room : 0 < length test_thread.node.av_queue
unfolding register_thread free_list
some_room = omega arith

conn_read-IsThread_example :
    (ev : Event) × (conn_read test_config proceed false true reads_two 120 3 test_thread ≡ some ev)
    × IsThread test_config 2 ev.1
conn_read-IsThread_example =
    conn_read-IsThread test_config 2 true reads_two reads_two-IsRead proceed false 120 3 test_thread
      test_thread-IsThread some_room

conn_error-IsThread_example :
    IsThread test_config 2 (conn_error proceed 3 test_thread).1
    × IsThread test_config 2 (conn_close proceed 3 test_thread).1
    × IsThread test_config 2 (conn_timeout test_config proceed 120 test_thread).1
conn_error-IsThread_example =
    conn_error-IsThread test_config 2 proceed 120 3 test_thread test_thread-IsThread

check_timeouts-alive_example :
    Kept test_config 120 test_thread.sessions (check_timeouts test_config 120 test_thread).sessions
    × IsNode 2 (check_timeouts test_config 120 test_thread).node
check_timeouts-alive_example =
    check_timeouts-alive test_config 120 2 test_thread (register_thread-IsNode 2) (tt, tt)
