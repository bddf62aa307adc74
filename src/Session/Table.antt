-- ===== src/Session/Table.antt =====
-- The list of a thread's sessions, of src/mk_request.c, as a map from sockets.
use monkey.Prelude.{
  ℕ, ◌≡◌, ◌≢◌, ◌↔◌, refl, inl, inr, none, some, List, [], ◌∷◌, ◌++◌, All, arith, ◌==◌,
  if◌then◌else◌, Bool-cases, Option-cases,
}
use monkey.Types.{ClientSession}
use monkey.Sched.{Connection, find_busy}
use monkey.Session.{new_session, session_create, session_get, session_remove, put_session}

pub session_get_socket :
    (socket : ℕ) (l : List ClientSession) {cs : ClientSession}
    → session_get socket l ≡ some cs
    → cs.socket ≡ socket
unfolding session_get
session_get_socket socket [] e = absurd (ground arith)
session_get_socket socket (c ∷ l) {cs} e = elim (Bool-cases (c.socket == socket)) [
  | inl m ↦ ground arith
  | inr m ↦ session_get_socket socket l {cs = cs} (ground arith)
]

pub session_get-put :
    (socket j : ℕ) (cs : ClientSession) (l : List ClientSession) (old : ClientSession)
    → cs.socket ≡ socket
    → session_get socket l ≡ some old
    → session_get j (put_session socket cs l) ≡ (if socket == j then some cs else session_get j l)
unfolding session_get
session_get-put socket j cs [] old s e = absurd (ground arith)
session_get-put socket j cs (c ∷ l) old s e = ground (arith, session_get-put socket j cs l old)

pub session_get-remove :
    (socket j : ℕ) (l : List ClientSession)
    → j ≢ socket
    → session_get j (session_remove socket l) ≡ session_get j l
unfolding session_get session_remove
session_get-remove socket j [] ne = refl
session_get-remove socket j (c ∷ l) ne = ground (arith, session_get-remove socket j l)

pub All-session_remove :
    (P : ClientSession → Type 0) (socket : ℕ) (l : List ClientSession)
    → All P l
    → All P (session_remove socket l)
unfolding session_remove
All-session_remove P socket [] h = tt
All-session_remove P socket (c ∷ l) h = elim (Bool-cases (c.socket == socket)) [
  | inl e ↦ rw e h.1
  | inr e ↦ rw e (h.0, All-session_remove P socket l h.1)
]

pub All-put_session :
    (P : ClientSession → Type 0) (socket : ℕ) (cs : ClientSession) (l : List ClientSession)
    → P cs
    → All P l
    → All P (put_session socket cs l)
All-put_session P socket cs [] p h = tt
All-put_session P socket cs (c ∷ l) p h = elim (Bool-cases (c.socket == socket)) [
  | inl e ↦ rw e (p, h.1)
  | inr e ↦ rw e (h.0, All-put_session P socket cs l p h.1)
]

pub session_get-append :
    (j : ℕ) (l : List ClientSession) (cs : ClientSession)
    → session_get j (l ++ (cs ∷ []))
      ≡ elim (session_get j l) [ some c ↦ some c | none ↦ if cs.socket == j then some cs else none ]
unfolding session_get
session_get-append j [] cs = refl
session_get-append j (c ∷ l) cs = ground (arith, session_get-append j l cs)

module _ (socket : ℕ) (busy : List Connection) (l : List ClientSession) where
  session_create-none : find_busy socket busy ≡ none → session_create socket busy l ≡ (none, l)
  unfolding session_create
  session_create-none e = ground arith

  session_create-some :
      (sc : Connection)
      → find_busy socket busy ≡ some sc
      → session_create socket busy l
        ≡ (some (new_session socket sc.arrive_time), l ++ (new_session socket sc.arrive_time ∷ []))
  unfolding session_create
  session_create-some sc e = ground arith

  -- For a socket that has no session yet, mk_session_create makes one exactly if the socket is in the
  -- busy queue of the scheduler. The session is found under its socket, with the time of the
  -- connection's arrival, and the sessions of other sockets are as before.
  pub session_create_get :
      session_get socket l ≡ none
      → (session_get socket (session_create socket busy l).1 ≡ (session_create socket busy l).0)
        × (((session_create socket busy l).0 ≡ none) ↔ (find_busy socket busy ≡ none))
        × ((j : ℕ) → j ≢ socket → session_get j (session_create socket busy l).1 ≡ session_get j l)
  session_create_get fresh = elim (Option-cases (find_busy socket busy)) [
    | inl e ↦ rw (session_create-none e) (fresh, ((λ _. e), (λ _. refl)), λ j ne. refl)
    | inr (sc, e) ↦ rw (session_create-some sc e) (
      ground (arith, session_get-append socket l (new_session socket sc.arrive_time)),
      ((λ q. absurd (ground arith)), (λ q. absurd (ground arith))),
      λ j ne. rw (session_get-append j l (new_session socket sc.arrive_time)) (ground arith),
    )
  ]
