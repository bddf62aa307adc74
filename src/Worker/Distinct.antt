-- ===== src/Worker/Distinct.antt =====
-- The sockets of a thread's sessions (src/mk_request.c) are distinct.
use monkey.Prelude.{
  ℕ, ◌≡◌, ◌≢◌, sym, ap, subst, inl, inr, false, none, List, [], ◌∷◌, ◌++◌, All, All-append, arith,
  ◌==◌, Bool-cases,
}
use monkey.Types.{ClientSession}
use monkey.Session.{session_get, session_remove, put_session}
use monkey.Session.Table.{All-session_remove}

-- No session of the list has this socket.
abbrev pub Fresh : ℕ → List ClientSession → Type 0
Fresh s = All (λ cs. cs.socket ≢ s)

abbrev pub Distinct : List ClientSession → Type 0
Distinct [] = Unit
Distinct (cs ∷ l) = Fresh cs.socket l × Distinct l

pub Distinct-session_remove :
    (socket : ℕ) (l : List ClientSession) → Distinct l → Distinct (session_remove socket l)
unfolding session_remove
Distinct-session_remove socket [] h = tt
Distinct-session_remove socket (c ∷ l) h = elim (Bool-cases (c.socket == socket)) [
  | inl e ↦ rw e h.1
  | inr e ↦ rw e (
    All-session_remove (λ cs. cs.socket ≢ c.socket) socket l h.0,
    Distinct-session_remove socket l h.1,
  )
]

Fresh-put_session :
    (s socket : ℕ) (cs : ClientSession) (l : List ClientSession)
    → cs.socket ≡ socket
    → Fresh s l
    → Fresh s (put_session socket cs l)
Fresh-put_session s socket cs [] e h = tt
Fresh-put_session s socket cs (c ∷ l) e h = elim (Bool-cases (c.socket == socket)) [
  | inl m ↦ rw m (λ q. h.0 (ground arith), h.1)
  | inr m ↦ rw m (h.0, Fresh-put_session s socket cs l e h.1)
]

pub Distinct-put_session :
    (socket : ℕ) (cs : ClientSession) (l : List ClientSession)
    → cs.socket ≡ socket
    → Distinct l
    → Distinct (put_session socket cs l)
Distinct-put_session socket cs [] e h = tt
Distinct-put_session socket cs (c ∷ l) e h = elim (Bool-cases (c.socket == socket)) [
  | inl m ↦
      let same : cs.socket ≡ c.socket = ground arith in
      rw m (subst (λ s. Fresh s l) (sym same) h.0, h.1)
  | inr m ↦
      rw m (Fresh-put_session c.socket socket cs l e h.0, Distinct-put_session socket cs l e h.1)
]

-- A session that is not found has a fresh socket.
pub session_get-Fresh :
    (socket : ℕ) (l : List ClientSession) → session_get socket l ≡ none → Fresh socket l
unfolding session_get
session_get-Fresh socket [] e = tt
session_get-Fresh socket (c ∷ l) e = elim (Bool-cases (c.socket == socket)) [
  | inl m ↦ absurd (ground arith)
  | inr m ↦ (λ q. ground arith, session_get-Fresh socket l (ground arith))
]

pub Distinct-append :
    (l : List ClientSession) (cs : ClientSession)
    → Distinct l
    → Fresh cs.socket l
    → Distinct (l ++ (cs ∷ []))
Distinct-append [] cs h f = (tt, tt)
Distinct-append (c ∷ l) cs h f = (
  All-append (λ d. d.socket ≢ c.socket) l (cs ∷ []) h.0 (λ q. f.0 (sym q), tt),
  Distinct-append l cs h.1 f.1,
)

-- Removing the session behind sessions with other sockets.
pub session_remove-append :
    (before : List ClientSession) (cs : ClientSession) (rest : List ClientSession)
    → Fresh cs.socket before
    → session_remove cs.socket (before ++ (cs ∷ rest)) ≡ before ++ rest
unfolding session_remove
session_remove-append [] cs rest h = ground arith
session_remove-append (c ∷ before) cs rest h =
    let rest_removed = session_remove-append before cs rest h.1 in
    let other : (c.socket == cs.socket) ≡ false = ground (arith, h.0) in
    rw other (ap (◌∷◌ c) rest_removed)
