-- ===== src/Epoll/Sleep.antt =====
-- Sleeping and waking of a descriptor: mk_epoll_change_mode of src/mk_epoll.c.
use monkey.Prelude.{ℕ, ◌^◌, ◌<◌, ◌≡◌, refl, ap, some, arith, ℤ}
use monkey.Epoll.{
  sleeping, waking, Mask, no_events, EpollState, StateIndex, state_get, touch, state_set, with_edge,
  add_events, mode_events, change_mode,
}
use monkey.Epoll.States.{touch-Keeps, state_get-touch_first}

-- The behavior is kept in a byte, which EPOLLET does not fit into.
no_edge : (b : ℕ) (m : Mask) → b < 2 ^ 8 → with_edge b m ≡ m
no_edge b m h = ground arith

-- The states behind mk_epoll_change_mode with MK_EPOLL_SLEEP.
abbrev pub asleep : ℕ → ℕ → ℕ → StateIndex → StateIndex
asleep efd fd behavior index =
    state_set efd fd sleeping behavior (with_edge behavior no_events) index

sleeping_state :
    (efd fd behavior : ℕ) (index : StateIndex) (es : EpollState)
    → state_get efd fd index.busy_queue ≡ some es
    → state_get efd fd (asleep efd fd behavior index).busy_queue
      ≡ some (record es { mode = sleeping })
unfolding state_set touch
sleeping_state efd fd behavior index es e =
    let f = touch sleeping behavior (with_edge behavior no_events) in
    rw (e, state_set)
      (state_get-touch_first efd fd f index.busy_queue es
        (touch-Keeps sleeping behavior (with_edge behavior no_events)) e)

-- A descriptor that has a state is put to sleep with MK_EPOLL_SLEEP and woken with MK_EPOLL_WAKEUP: the
-- first asks epoll for no event, and the second does not exit and asks for the events of the state from
-- before, whatever behavior it is given.
pub change_mode_wakes :
    (efd fd b b' : ℕ) (r r' : ℤ) (index : StateIndex) (es : EpollState)
    → state_get efd fd index.busy_queue ≡ some es
    → es.behavior < 2 ^ 8
    → (change_mode efd fd sleeping b r index
        ≡ some (r, with_edge b no_events, asleep efd fd b index))
      × (change_mode efd fd waking b' r' (asleep efd fd b index)
          ≡ some (
            r',
            es.events,
            state_set efd fd waking es.behavior es.events (asleep efd fd b index),
          ))
unfolding change_mode mode_events add_events
change_mode_wakes efd fd b b' r r' index es e small =
    let s = sleeping_state efd fd b index es e in
    let n = no_edge es.behavior es.events small in
    (
      refl,
      rw (s, mode_events, change_mode)
          (ap (λ m. some (r', m, state_set efd fd waking es.behavior m (asleep efd fd b index))) n),
    )
