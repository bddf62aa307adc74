-- ===== src/Epoll/States.antt =====
-- The index of a worker's epoll states in src/mk_epoll.c: each descriptor has one state.
use monkey.Prelude.{
  ℕ, ◌+◌, ◌≡◌, ◌≢◌, refl, ap, inl, inr, true, false, none, some, List, [], ◌∷◌, ◌++◌, length,
  length-append, All, All-append, arith, ◌==◌, Bool-cases, Option-cases,
}
use monkey.Epoll.{
  Mode, Mask, EpollState, StateIndex, state_init, is_for, state_get, touch, touch_first, with_room,
  new_entry, new_state, state_set, delete_first, state_del,
}

-- The state is of another descriptor.
abbrev pub IsApart : EpollState → EpollState → Type 0
IsApart a b = is_for a.instance_fd a.fd b ≡ false

-- No two states are of one descriptor.
abbrev pub Apart : List EpollState → Type 0
Apart [] = Unit
Apart (a ∷ l) = All (IsApart a) l × Apart l

pub record IsIndex (index : StateIndex) : Type 0 where
  pub counted : index.available + length index.busy_queue ≡ index.size
  pub apart : Apart index.busy_queue

pub state_init-IsIndex : IsIndex state_init
unfolding state_init
state_init-IsIndex = record { counted = omega arith; apart = tt }

length-touch_first :
    (efd fd : ℕ) (f : EpollState → EpollState) (l : List EpollState)
    → length (touch_first efd fd f l) ≡ length l
unfolding touch_first
length-touch_first efd fd f [] = refl
length-touch_first efd fd f (es ∷ l) = ground (arith, length-touch_first efd fd f l)

length-delete_first :
    (efd fd : ℕ) (l : List EpollState) {es : EpollState}
    → state_get efd fd l ≡ some es
    → length (delete_first efd fd l) + 1 ≡ length l
unfolding delete_first state_get
length-delete_first efd fd [] e = absurd (ground arith)
length-delete_first efd fd (x ∷ l) {es} e = elim (Bool-cases (is_for efd fd x)) [
  | inl q ↦ rw q (omega arith)
  | inr q ↦ rw q (omega (arith, length-delete_first efd fd l {es = es} (ground arith)))
]

-- A change that keeps the descriptors keeps a state apart from the others.
abbrev pub Keeps : (EpollState → EpollState) → Type 0
Keeps f = (es : EpollState) → ((f es).instance_fd ≡ es.instance_fd) × ((f es).fd ≡ es.fd)

pub touch-Keeps : (mode : Mode) (behavior : ℕ) (events : Mask) → Keeps (touch mode behavior events)
unfolding touch
touch-Keeps mode behavior events es = (ground arith, ground arith)

All-touch_first :
    (a : EpollState) (efd fd : ℕ) (f : EpollState → EpollState) (l : List EpollState)
    → Keeps f
    → All (IsApart a) l
    → All (IsApart a) (touch_first efd fd f l)
unfolding touch_first
All-touch_first a efd fd f [] k h = tt
All-touch_first a efd fd f (es ∷ l) k h = elim (Bool-cases (is_for efd fd es)) [
  | inl q ↦ rw q (ground (arith, (k es).0, (k es).1, h.0), h.1)
  | inr q ↦ rw q (h.0, All-touch_first a efd fd f l k h.1)
]

Apart-touch_first :
    (efd fd : ℕ) (f : EpollState → EpollState) (l : List EpollState)
    → Keeps f
    → Apart l
    → Apart (touch_first efd fd f l)
unfolding touch_first
Apart-touch_first efd fd f [] k h = tt
Apart-touch_first efd fd f (es ∷ l) k h = elim (Bool-cases (is_for efd fd es)) [
  | inl q ↦ rw q (moved l h.0, h.1)
  | inr q ↦ rw q (All-touch_first es efd fd f l k h.0, Apart-touch_first efd fd f l k h.1)
]
  where
    moved : (r : List EpollState) → All (IsApart es) r → All (IsApart (f es)) r
    moved [] g = tt
    moved (b ∷ r) g = (ground (arith, (k es).0, (k es).1, g.0), moved r g.1)

All-delete_first :
    (a : EpollState) (efd fd : ℕ) (l : List EpollState)
    → All (IsApart a) l
    → All (IsApart a) (delete_first efd fd l)
unfolding delete_first
All-delete_first a efd fd [] h = tt
All-delete_first a efd fd (es ∷ l) h = elim (Bool-cases (is_for efd fd es)) [
  | inl q ↦ rw q h.1
  | inr q ↦ rw q (h.0, All-delete_first a efd fd l h.1)
]

Apart-delete_first : (efd fd : ℕ) (l : List EpollState) → Apart l → Apart (delete_first efd fd l)
unfolding delete_first
Apart-delete_first efd fd [] h = tt
Apart-delete_first efd fd (es ∷ l) h = elim (Bool-cases (is_for efd fd es)) [
  | inl q ↦ rw q h.1
  | inr q ↦ rw q (All-delete_first es efd fd l h.0, Apart-delete_first efd fd l h.1)
]

-- A state for a descriptor that has none.
Apart-append :
    (efd fd : ℕ) (l : List EpollState) (new : EpollState)
    → new.instance_fd ≡ efd
    → new.fd ≡ fd
    → state_get efd fd l ≡ none
    → Apart l
    → Apart (l ++ (new ∷ []))
unfolding state_get
Apart-append efd fd [] new e g n h = (tt, tt)
Apart-append efd fd (es ∷ l) new e g n h =
    let other : is_for efd fd es ≡ false = ground arith in
    let rest : state_get efd fd l ≡ none = ground arith in
    (
      All-append (IsApart es) l (new ∷ []) h.0 (ground (arith, e, g, other), tt),
      Apart-append efd fd l new e g rest h.1,
    )

new_state-IsIndex :
    (efd fd : ℕ) (mode : Mode) (behavior : ℕ) (events : Mask) (index : StateIndex)
    → IsIndex index
    → state_get efd fd index.busy_queue ≡ none
    → IsIndex (new_state efd fd mode behavior events index)
unfolding new_state with_room
new_state-IsIndex efd fd mode behavior events index h n =
    let new = new_entry efd fd mode behavior events in
    let longer = length-append index.busy_queue (new ∷ []) in
    let others = Apart-append efd fd index.busy_queue new refl refl n h.apart in
    elim (Bool-cases (index.available == 0)) [
      | inl e ↦
          let none_left : index.available ≡ 0 = ground arith in
          rw e (record { counted = omega (arith, longer, h.counted, none_left); apart = others })
      | inr e ↦
          let some_left : index.available ≢ 0 = λ z. ground arith in
          rw e (record { counted = omega (arith, longer, h.counted, some_left); apart = others })
    ]

-- mk_epoll_state_set keeps the index of a worker's states well-formed: each descriptor has one state at
-- most, and the entries that are busy and available are as many as the index has.
pub state_set-IsIndex :
    (efd fd : ℕ) (mode : Mode) (behavior : ℕ) (events : Mask) (index : StateIndex)
    → IsIndex index
    → IsIndex (state_set efd fd mode behavior events index)
unfolding state_set
state_set-IsIndex efd fd mode behavior events index h =
    elim (Option-cases (state_get efd fd index.busy_queue)) [
      | inl n ↦ rw (n, state_set) (new_state-IsIndex efd fd mode behavior events index h n)
      | inr (es, e) ↦
          let f = touch mode behavior events in
          rw (e, state_set)
            (record {
              counted = omega (arith, h.counted, length-touch_first efd fd f index.busy_queue);
              apart =
                  Apart-touch_first efd fd f index.busy_queue (touch-Keeps mode behavior events)
                    h.apart;
            })
    ]

-- mk_epoll_state_del keeps the index well-formed, too.
pub state_del-IsIndex :
    (efd fd : ℕ) (index : StateIndex) → IsIndex index → IsIndex (state_del efd fd index).1
unfolding state_del
state_del-IsIndex efd fd index h = elim (Option-cases (state_get efd fd index.busy_queue)) [
  | inl n ↦ rw (n, state_del) h
  | inr (es, e) ↦
      rw (e, state_del)
        (record {
          counted =
              omega (arith, h.counted, length-delete_first efd fd index.busy_queue {es = es} e);
          apart = Apart-delete_first efd fd index.busy_queue h.apart;
        })
]

pub state_get-touch_first :
    (efd fd : ℕ) (f : EpollState → EpollState) (l : List EpollState) (es : EpollState)
    → Keeps f
    → state_get efd fd l ≡ some es
    → state_get efd fd (touch_first efd fd f l) ≡ some (f es)
unfolding touch_first state_get
state_get-touch_first efd fd f [] es k e = absurd (ground arith)
state_get-touch_first efd fd f (x ∷ l) es k e = elim (Bool-cases (is_for efd fd x)) [
  | inl q ↦
      let same : x ≡ es = ground arith in
      let q' : is_for efd fd (f x) ≡ true = ground (arith, (k x).0, (k x).1, q) in
      rw (q, state_get) (rw q' (ap (λ y. some (f y)) same))
  | inr q ↦ rw (q, state_get) (rw q (state_get-touch_first efd fd f l es k (ground arith)))
]
