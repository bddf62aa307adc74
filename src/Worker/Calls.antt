-- ===== src/Worker/Calls.antt =====
-- The state of a worker thread between the events of src/mk_connection.c, and the calls that an event makes.
use monkey.Prelude.{
  ℕ, ◌<◌, ◌≡◌, ◌≢◌, refl, sym, ap, subst, ◌∙◌, inl, inr, Bool, true, false, none, some, List, [],
  ◌∷◌, length, All, arith, ◌==◌, ℤ, pos, minus_one, Bool-cases, Option-cases,
}
use monkey.Types.{ClientSession, ServerConfig}
use monkey.Sched.{Connection, Node, remove_client, register_client, register}
use monkey.Sched.Queues.{IsNode, register-IsNode, remove_client-IsNode}
use monkey.Session.{Read, kept, session_get, handler_read, grow, read_into, read_result}
use monkey.Session.Buffer.{IsBuffer}
use monkey.Http.Pending.{pending_request, pending_method}
use monkey.Worker.Distinct.{Distinct}
use monkey.Worker.{Thread}

-- A worker thread for `k` connections: its entries are each in one queue, its sessions have distinct sockets,
-- and the buffer of each session is well-formed.
pub record IsThread (config : ServerConfig) (k : ℕ) (t : Thread) : Type 0 where
  pub node : IsNode k t.node
  pub buffers : All (IsBuffer config) t.sessions
  pub distinct : Distinct t.sessions

-- What a session's buffer is made of.
pub record SameBuffer (before after : ClientSession) : Type 0 where
  pub socket : after.socket ≡ before.socket
  pub body : after.body ≡ before.body
  pub fixed : after.body_fixed ≡ before.body_fixed
  pub size : after.body_size ≡ before.body_size

pub SameBuffer-IsBuffer :
    (config : ServerConfig) (before after : ClientSession)
    → SameBuffer before after
    → IsBuffer config before
    → IsBuffer config after
SameBuffer-IsBuffer config before after s h = record {
  within = omega (arith, ap length s.body, s.size, h.within);
  fixed = λ e. s.size ∙ h.fixed (sym s.fixed ∙ e);
  dynamic = λ e.
      let (lo, hi) = h.dynamic (sym s.fixed ∙ e) in (omega (arith, s.size), omega (arith, s.size));
}

pending_method-SameBuffer :
    (config : ServerConfig) (cs : ClientSession) → SameBuffer cs (pending_method config cs).1
unfolding pending_method
pending_method-SameBuffer config cs = record {
  socket = ground arith;
  body = ground arith;
  fixed = ground arith;
  size = ground arith;
}

pub pending_request-SameBuffer :
    (config : ServerConfig) (cs : ClientSession) → SameBuffer cs (pending_request config cs).1
unfolding pending_request
pending_request-SameBuffer config cs = record {
  socket = ground arith;
  body = ground arith;
  fixed = ground arith;
  size = ground arith;
}

pub handler_read_socket :
    (config : ServerConfig) (reallocated : Bool) (read : ℕ → Read) (cs cs' : ClientSession) (r : ℤ)
    → handler_read config reallocated read cs ≡ kept r cs'
    → cs'.socket ≡ cs.socket
unfolding handler_read grow read_into read_result
handler_read_socket config reallocated read cs cs' r e = ground arith

pub All-session_get :
    (P : ClientSession → Type 0) (socket : ℕ) (l : List ClientSession) {cs : ClientSession}
    → All P l
    → session_get socket l ≡ some cs
    → P cs
unfolding session_get
All-session_get P socket [] h e = absurd (ground arith)
All-session_get P socket (c ∷ l) {cs} h e = elim (Bool-cases (c.socket == socket)) [
  | inl m ↦ let same : c ≡ cs = ground arith in subst P same h.0
  | inr m ↦ All-session_get P socket l {cs = cs} h.1 (ground arith)
]

pub register_client-IsNode :
    {k : ℕ} (refused : Bool) (fd now : ℕ) (n : Node) {r : ℤ} {n' : Node}
    → IsNode k n
    → register_client refused fd now n ≡ some (r, n')
    → IsNode k n'
unfolding register_client
register_client-IsNode {k} true fd now n {n' = n'} h e =
    let at : n' ≡ (remove_client fd n).1 = ground arith in rw at (remove_client-IsNode k fd n h).0
register_client-IsNode {k} false fd now n {n' = n'} h e =
    let at : register fd now n ≡ some n' = ground arith in (register-IsNode k fd now n h at).0

register_room : (fd now : ℕ) (n : Node) → 0 < length n.av_queue → register fd now n ≢ none
unfolding register
register_room fd now n room = go n.av_queue refl
  where
    go : (q : List Connection) → n.av_queue ≡ q → register fd now n ≢ none
    go [] q e = absurd (omega (arith, ap length q))
    go (c ∷ av) q e = ground arith

pub register_client_total :
    (refused : Bool) (fd now : ℕ) (n : Node)
    → 0 < length n.av_queue
    → (r : ℤ) × (n' : Node) × (register_client refused fd now n ≡ some (r, n'))
unfolding register_client
register_client_total true fd now n room = (minus_one, (remove_client fd n).1, refl)
register_client_total false fd now n room = elim (Option-cases (register fd now n)) [
  | inl e ↦ absurd (register_room fd now n room e)
  | inr (n', e) ↦ (pos 0, n', ground arith)
]
