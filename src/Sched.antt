-- ===== src/Sched.antt =====
-- src/mk_scheduler.c: the balance of connections over the workers, and the two queues of a worker.
-- Each worker has its own node; the code that the main thread runs on it is add_client alone.
pub mod Balance
pub mod Queues
pub mod Reach
use monkey.Prelude.{
  ℕ, zero, suc, ◌+◌, ◌-◌, Bool, true, false, Option, none, some, List, [], ◌∷◌, ◌++◌, map,
  get_elem?, set, ltb, leb, ◌==◌, if◌then◌else◌, ℤ, pos, negsuc, minus_one,
}
use monkey.Types.{sub_word}

-- MK_SCHEDULER_CONN_*
pub data ConnStatus : Type 0 where
  available pending process : ConnStatus

-- struct sched_connection; a free one has socket -1, which is `none`.
pub record Connection : Type 0 where
  pub socket : Option ℕ
  pub status : ConnStatus
  pub arrive_time : ℕ

-- struct sched_list_node
pub record Node : Type 0 where
  pub accepted_connections : ℕ
  pub closed_connections : ℕ
  pub busy_queue : List Connection
  pub av_queue : List Connection

-- The active connections of a node.
abbrev pub load : Node → ℕ
load n = sub_word n.accepted_connections n.closed_connections

-- The loop of _next_target from worker `i` on: the target and its load.
unfoldable pub target_loop : ℕ → ℕ → ℕ → List ℕ → ℕ × ℕ
target_loop i target cur [] = (target, cur)
target_loop i target cur (tmp ∷ loads) = elim (ltb tmp cur) [
  | false ↦ target_loop (i + 1) target cur loads
  | true ↦ elim (tmp == 0) [ true ↦ (i, tmp) | false ↦ target_loop (i + 1) i tmp loads ]
]

-- _next_target, on the load of the first worker and those of the others.
unfoldable pub next_target : ℕ → ℕ → List ℕ → ℤ
next_target worker_capacity first loads =
    if first == 0
    then pos 0
    else (let found = target_loop 1 0 first loads in
        if leb worker_capacity found.1 then minus_one else pos found.0)

abbrev pub count_accepted : List Node → ℕ → List Node
count_accepted [] t = []
count_accepted (n ∷ nodes) zero =
    record n { accepted_connections = n.accepted_connections + 1 } ∷ nodes
count_accepted (n ∷ nodes) (suc t) = n ∷ count_accepted nodes t

-- mk_sched_add_client on the node of worker 0 and the others. `added` is what mk_epoll_add returns for
-- the chosen worker. The result is the returned value and the nodes.
unfoldable pub add_client : ℕ → Node → List Node → (ℕ → ℤ) → ℤ × List Node
add_client worker_capacity first nodes added =
    elim (next_target worker_capacity (load first) (map load nodes)) [
      | negsuc _ ↦ (minus_one, first ∷ nodes)
      | pos t ↦ elim (added t) [
        | pos zero ↦ (pos 0, count_accepted (first ∷ nodes) t)
        | r ↦ (r, first ∷ nodes)
      ]
    ]

unfoldable pub has_socket : ℕ → Connection → Bool
has_socket fd c = elim c.socket [ none ↦ false | some s ↦ s == fd ]

-- mk_sched_get_connection: the first entry of the busy queue with the socket.
unfoldable pub find_busy : ℕ → List Connection → Option Connection
find_busy fd [] = none
find_busy fd (c ∷ busy) = if has_socket fd c then some c else find_busy fd busy

-- mk_list_del of that entry
unfoldable pub delete_busy : ℕ → List Connection → List Connection
delete_busy fd [] = []
delete_busy fd (c ∷ busy) = if has_socket fd c then busy else c ∷ delete_busy fd busy

abbrev pub free_connection : Connection → Connection
free_connection c = record c { status = available; socket = none }

-- mk_sched_register_client, where the plugins of STAGE_10 let the connection in: the first free entry
-- goes to the end of the busy queue. On an empty queue the entry that the C code takes is the head of
-- the list itself, which is no connection: that is `none`.
unfoldable pub register : ℕ → ℕ → Node → Option Node
register fd now n = elim n.av_queue [
  | [] ↦ none
  | c ∷ av ↦ some (record n {
    av_queue = av;
    busy_queue =
        n.busy_queue ++ (record c { socket = some fd; status = pending; arrive_time = now } ∷ []);
  })
]

-- mk_sched_remove_client behind mk_epoll_del and close: the returned value and the node.
unfoldable pub remove_client : ℕ → Node → ℤ × Node
remove_client fd n = elim (find_busy fd n.busy_queue) [
  | none ↦ (minus_one, n)
  | some c ↦ (
    pos 0,
    record n {
      closed_connections = n.closed_connections + 1;
      busy_queue = delete_busy fd n.busy_queue;
      av_queue = n.av_queue ++ (free_connection c ∷ []);
    },
  )
]

-- mk_sched_register_client: the plugins of STAGE_10 let the connection in or refuse it. A refused one is
-- given to mk_conn_close, which removes the client.
unfoldable pub register_client : Bool → ℕ → ℕ → Node → Option (ℤ × Node)
register_client refused fd now n =
    if refused
    then some (minus_one, (remove_client fd n).1)
    else elim (register fd now n) [ none ↦ none | some n' ↦ some (pos 0, n') ]

-- mk_sched_update_conn_status
unfoldable pub update_status : ℕ → ConnStatus → List Connection → ℤ × List Connection
update_status fd s [] = (minus_one, [])
update_status fd s (c ∷ busy) =
    let rest = update_status fd s busy in
    if has_socket fd c then (pos 0, record c { status = s } ∷ busy) else (rest.0, c ∷ rest.1)

unfoldable pub free_list : ℕ → List Connection
free_list zero = []
free_list (suc n) = record { socket = none; status = available; arrive_time = 0 } ∷ free_list n

-- The node that mk_sched_register_thread sets up for `worker_capacity` connections.
unfoldable pub register_thread : ℕ → Node
register_thread worker_capacity = record {
  accepted_connections = 0;
  closed_connections = 0;
  busy_queue = [];
  av_queue = free_list worker_capacity;
}
