-- ===== src/Sched/Reach.antt =====
-- A worker over time: connections that the main thread gives it, that it registers or refuses, and
-- that end. Every step is a call of Sched.
use monkey.Prelude.{
  ℕ, suc, ◌+◌, ◌-◌, ◌^◌, ◌<◌, ◌≤◌, ◌≡◌, refl, ap, ◌⊎◌, inl, inr, true, false, none, some, List, [],
  ◌∷◌, ◌++◌, length, All, arith, pos, minus_one, Bool-cases,
}
use monkey.Sched.{
  Connection, Node, pending, process, load, next_target, has_socket, find_busy, register,
  remove_client, register_client, update_status, register_thread, target_loop,
}
use monkey.Sched.Queues.{
  IsNode, IsBusy, register_thread-IsNode, register-IsNode, remove_client-IsNode, remove_client-none,
}

-- A worker's node, the connections that it was given and has not read from yet, and how many it has
-- refused so far.
pub record Worker : Type 0 where
  pub node : Node
  pub waiting : ℕ
  pub refused : ℕ

abbrev pub accept : Worker → Worker
accept w = record w {
  node = record w.node { accepted_connections = w.node.accepted_connections + 1 };
  waiting = w.waiting + 1;
}

abbrev pub with_node : Worker → Node → Worker
with_node w n = record w { node = n }

-- The steps of a worker for `k` connections.
pub data Step (k : ℕ) : Worker → Worker → Type 0 where
  -- mk_sched_add_client chose this worker, so it was idle or below the capacity.
  accepting :
      (w : Worker)
      → (load w.node ≡ 0) ⊎ (load w.node < k)
      → w.node.accepted_connections + 1 < 2 ^ 64
      → Step k w (accept w)
  -- mk_sched_register_client on the first event of a connection
  registering :
      (w : Worker) (fd now : ℕ) (n : Node)
      → 0 < w.waiting
      → register_client false fd now w.node ≡ some (pos 0, n)
      → Step k w (record w { node = n; waiting = w.waiting - 1 })
  -- the same, where a plugin refuses a connection, which has a descriptor of its own
  refusing :
      (w : Worker) (fd now : ℕ) (n : Node)
      → 0 < w.waiting
      → find_busy fd w.node.busy_queue ≡ none
      → register_client true fd now w.node ≡ some (minus_one, n)
      → Step k w (record { node = n; waiting = w.waiting - 1; refused = w.refused + 1 })
  -- mk_sched_remove_client
  removing : (w : Worker) (fd : ℕ) → Step k w (with_node w (remove_client fd w.node).1)
  -- mk_sched_update_conn_status when a request is processed
  updating :
      (w : Worker) (fd : ℕ)
      → Step k w (
          with_node w
            (record w.node { busy_queue = (update_status fd process w.node.busy_queue).1 }))

pub data Reach (k : ℕ) : Worker → Type 0 where
  start : Reach k (record { node = register_thread k; waiting = 0; refused = 0 })
  next : {w w' : Worker} → Reach k w → Step k w w' → Reach k w'

pub record IsWorker (k : ℕ) (w : Worker) : Type 0 where
  pub node : IsNode k w.node
  pub accounts :
      w.node.accepted_connections
      ≡ w.node.closed_connections + length w.node.busy_queue + w.waiting + w.refused
  pub below : length w.node.busy_queue + w.waiting + w.refused ≤ k
  pub fits : w.node.accepted_connections < 2 ^ 64

-- The load counts the refused connections too.
pub load_is :
    {k : ℕ} (w : Worker)
    → IsWorker k w
    → load w.node ≡ length w.node.busy_queue + w.waiting + w.refused
load_is w v = omega (arith, v.accounts, v.fits)

pub update_status-IsBusy :
    (fd : ℕ) (busy : List Connection)
    → All IsBusy busy
    → All IsBusy (update_status fd process busy).1
      × (length (update_status fd process busy).1 ≡ length busy)
unfolding update_status
update_status-IsBusy fd [] h = (tt, refl)
update_status-IsBusy fd (c ∷ busy) h = elim (Bool-cases (has_socket fd c)) [
  | inl e ↦ rw e ((((h.0).0, λ x. ground arith), h.1), refl)
  | inr e ↦ let (rest, size) = update_status-IsBusy fd busy h.1 in rw e ((h.0, rest), ap suc size)
]

register_client_in :
    (fd now : ℕ) (n : Node) {n' : Node}
    → register_client false fd now n ≡ some (pos 0, n')
    → register fd now n ≡ some n'
unfolding register_client
register_client_in fd now n e = ground arith

register_client_out :
    (fd now : ℕ) (n : Node) {n' : Node}
    → find_busy fd n.busy_queue ≡ none
    → register_client true fd now n ≡ some (minus_one, n')
    → n' ≡ n
unfolding register_client
register_client_out fd now n h e = ground (arith, remove_client-none fd n h)

module _ (k : ℕ) (room : 0 < k) where
  Step-IsWorker : {w w' : Worker} → Step k w w' → IsWorker k w → IsWorker k w'
  Step-IsWorker (accepting w h fits) v = record {
    node = record { all_there = v.node.all_there; free = v.node.free; busy = v.node.busy };
    accounts = omega (arith, v.accounts);
    below = omega (arith, load_is w v, v.below);
    fits = fits;
  }
  Step-IsWorker (registering w fd now n h e) v =
      let (node, size, a, c) =
        register-IsNode k fd now w.node v.node (register_client_in fd now w.node e) in
      record {
        node = node;
        accounts = omega (arith, v.accounts, size, a, c);
        below = omega (arith, v.below, size);
        fits = omega (arith, a, v.fits);
      }
  Step-IsWorker (refusing w fd now n h fresh e) v =
      rw (register_client_out fd now w.node fresh e) (record {
        node = v.node;
        accounts = omega (arith, v.accounts);
        below = omega (arith, v.below);
        fits = v.fits;
      })
  Step-IsWorker (removing w fd) v =
      let (node, r) = remove_client-IsNode k fd w.node v.node in
      record {
        node = node;
        accounts = omega (arith, v.accounts, r.accepted, r.balance);
        below = omega (arith, v.below, r.balance, r.grows);
        fits = omega (arith, r.accepted, v.fits);
      }
  Step-IsWorker (updating w fd) v =
      let (busy, size) = update_status-IsBusy fd w.node.busy_queue v.node.busy in
      record {
        node = record {
          all_there = omega (arith, size, v.node.all_there);
          free = v.node.free;
          busy = busy;
        };
        accounts = omega (arith, size, v.accounts);
        below = omega (arith, size, v.below);
        fits = v.fits;
      }

  -- In every state that a worker for `k` connections reaches, each of its `k` entries is in one queue,
  -- free or busy as the queue says. The accepted connections are those that are closed, busy, waiting to
  -- be registered, or refused, and the last three together are at most `k`.
  pub Reach-IsWorker : {w : Worker} → Reach k w → IsWorker k w
  Reach-IsWorker start =
      unfold register_thread in
      record {
        node = register_thread-IsNode k;
        accounts = omega arith;
        below = omega arith;
        fits = omega arith;
      }
  Reach-IsWorker (next r s) = Step-IsWorker s (Reach-IsWorker r)

  register_some :
      (fd now : ℕ) (n : Node)
      → 0 < length n.av_queue
      → (n' : Node) × (register_client false fd now n ≡ some (pos 0, n'))
  register_some fd now n h = go n.av_queue refl
    where
      go :
          (q : List Connection)
          → n.av_queue ≡ q
          → (n' : Node) × (register_client false fd now n ≡ some (pos 0, n'))
      go [] e = absurd (omega (arith, h, ap length e))
      go (c ∷ av) e = (
        record n {
          av_queue = av;
          busy_queue =
              n.busy_queue
              ++ (record c { socket = some fd; status = pending; arrive_time = now } ∷ []);
        },
        unfold register_client register in ground arith,
      )

  -- A worker that was given a connection always has a free entry for it: registering it succeeds, and
  -- the code never takes an entry from an empty queue.
  pub Reach-registers :
      {w : Worker} (fd now : ℕ)
      → Reach k w
      → 0 < w.waiting
      → (n : Node) × Step k w (record w { node = n; waiting = w.waiting - 1 })
  Reach-registers {w} fd now r h =
      let v = Reach-IsWorker r in
      let (n, e) = register_some fd now w.node (omega (arith, v.node.all_there, v.below)) in
      (n, registering w fd now n h e)

  -- A refused connection keeps its place: once a worker has refused `k` connections, as many as it has
  -- room for, it has nothing busy and nothing waiting, all its entries are free, and still
  -- _next_target refuses every connection of a server with this one worker.
  pub Reach-full :
      {w : Worker}
      → Reach k w
      → w.refused ≡ k
      → (length w.node.busy_queue ≡ 0)
        × (w.waiting ≡ 0)
        × (length w.node.av_queue ≡ k)
        × (next_target k (load w.node) [] ≡ minus_one)
  Reach-full {w} r e =
      let v = Reach-IsWorker r in
      (
        omega (arith, v.below),
        omega (arith, v.below),
        omega (arith, v.below, v.node.all_there),
        full (load w.node) (omega (arith, load_is w v, v.below)),
      )
    where
      full : (n : ℕ) → n ≡ k → next_target k n [] ≡ minus_one
      full n q = unfold next_target target_loop in ground arith
