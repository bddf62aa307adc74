-- ===== src/Sched/Queues.antt =====
-- The queues of a worker's node in src/mk_scheduler.c.
use monkey.Prelude.{
  ℕ, zero, suc, ◌+◌, ◌≤◌, ◌≡◌, ◌≢◌, refl, ap, inl, inr, none, some, List, [], ◌∷◌, ◌++◌, length,
  All, All-append, length-append, arith, pos, minus_one, Bool-cases, Option-cases,
}
use monkey.Sched.{
  Connection, Node, available, pending, has_socket, find_busy, delete_busy, free_connection,
  register, remove_client, free_list, register_thread,
}

abbrev pub IsFree : Connection → Type 0
IsFree c = (c.socket ≡ none) × (c.status ≡ available)

abbrev pub IsBusy : Connection → Type 0
IsBusy c = ((fd : ℕ) × (c.socket ≡ some fd)) × (c.status ≢ available)

-- Every connection of the worker is in the one queue or in the other, and in the right one.
pub record IsNode (worker_capacity : ℕ) (n : Node) : Type 0 where
  pub all_there : length n.av_queue + length n.busy_queue ≡ worker_capacity
  pub free : All IsFree n.av_queue
  pub busy : All IsBusy n.busy_queue

free_list-IsFree : (n : ℕ) → All IsFree (free_list n) × (length (free_list n) ≡ n)
unfolding free_list
free_list-IsFree zero = (tt, refl)
free_list-IsFree (suc n) = let (a, b) = free_list-IsFree n in (((refl, refl), a), omega (arith, b))

pub register_thread-IsNode : (n : ℕ) → IsNode n (register_thread n)
unfolding register_thread
register_thread-IsNode n =
    let (a, b) = free_list-IsFree n in record { all_there = omega (arith, b); free = a; busy = tt }

abbrev taken_by : ℕ → ℕ → Connection → Connection
taken_by fd now c = record c { socket = some fd; status = pending; arrive_time = now }

pub register_parts :
    (fd now : ℕ) (n : Node) {n' : Node}
    → register fd now n ≡ some n'
    → (c : Connection) × (av : List Connection) × (n.av_queue ≡ c ∷ av)
      × (n' ≡ record n { av_queue = av; busy_queue = n.busy_queue ++ (taken_by fd now c ∷ []) })
unfolding register
register_parts fd now n {n'} e = go n.av_queue refl
  where
    go :
        (q : List Connection)
        → n.av_queue ≡ q
        → (c : Connection) × (av : List Connection) × (n.av_queue ≡ c ∷ av)
          × (n' ≡ record n { av_queue = av; busy_queue = n.busy_queue ++ (taken_by fd now c ∷ []) })
    go [] h = absurd (ground arith)
    go (c ∷ av) h = (c, av, h, ground arith)

pub register-IsNode :
    (k fd now : ℕ) (n : Node) {n' : Node}
    → IsNode k n
    → register fd now n ≡ some n'
    → IsNode k n'
      × (length n'.busy_queue ≡ length n.busy_queue + 1)
      × (n'.accepted_connections ≡ n.accepted_connections)
      × (n'.closed_connections ≡ n.closed_connections)
register-IsNode k fd now n v e =
    let (c, av, q, r) = register_parts fd now n e in
    let size = length-append n.busy_queue (taken_by fd now c ∷ []) in
    rw r (
      record {
        all_there = omega (arith, v.all_there, size, ap length q);
        free = (rw q at v.free).1;
        busy = All-append IsBusy n.busy_queue _ v.busy (((fd, refl), λ x. ground arith), tt);
      },
      size,
      refl,
      refl,
    )

delete_busy-IsBusy :
    (fd : ℕ) (busy : List Connection) (c : Connection)
    → All IsBusy busy
    → find_busy fd busy ≡ some c
    → (length busy ≡ length (delete_busy fd busy) + 1) × All IsBusy (delete_busy fd busy)
unfolding find_busy delete_busy
delete_busy-IsBusy fd [] c h e = absurd (ground arith)
delete_busy-IsBusy fd (b ∷ busy) c h e = elim (Bool-cases (has_socket fd b)) [
  | inl m ↦ rw m (omega arith, h.1)
  | inr m ↦
      let (size, rest) = delete_busy-IsBusy fd busy c h.1 (ground arith) in
      rw m (omega (arith, size), (h.0, rest))
]

pub remove_client-none :
    (fd : ℕ) (n : Node) → find_busy fd n.busy_queue ≡ none → remove_client fd n ≡ (minus_one, n)
unfolding remove_client
remove_client-none fd n e = ground arith

abbrev removed : ℕ → Node → Connection → Node
removed fd n c = record n {
  closed_connections = n.closed_connections + 1;
  busy_queue = delete_busy fd n.busy_queue;
  av_queue = n.av_queue ++ (free_connection c ∷ []);
}

remove_client-some :
    (fd : ℕ) (n : Node) (c : Connection)
    → find_busy fd n.busy_queue ≡ some c
    → remove_client fd n ≡ (pos 0, removed fd n c)
unfolding remove_client
remove_client-some fd n c e = ground arith

-- What removing a client does to the counters: nothing, or one connection less on both sides.
pub record Removes (n n' : Node) : Type 0 where
  pub accepted : n'.accepted_connections ≡ n.accepted_connections
  pub balance :
      n'.closed_connections + length n'.busy_queue ≡ n.closed_connections + length n.busy_queue
  pub grows : n.closed_connections ≤ n'.closed_connections

pub remove_client-IsNode :
    (k fd : ℕ) (n : Node)
    → IsNode k n
    → IsNode k (remove_client fd n).1 × Removes n (remove_client fd n).1
remove_client-IsNode k fd n v = elim (Option-cases (find_busy fd n.busy_queue)) [
  | inl e ↦
      rw (remove_client-none fd n e)
        (v, record { accepted = refl; balance = refl; grows = omega arith })
  | inr (c, e) ↦
      let (size, rest) = delete_busy-IsBusy fd n.busy_queue c v.busy e in
      rw (remove_client-some fd n c e) (
        record {
          all_there =
              omega (arith, size, v.all_there, length-append n.av_queue (free_connection c ∷ []));
          free = All-append IsFree n.av_queue _ v.free ((refl, refl), tt);
          busy = rest;
        },
        record { accepted = refl; balance = omega (arith, size); grows = omega arith },
      )
]
