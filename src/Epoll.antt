-- ===== src/Epoll.antt =====
-- src/mk_epoll.c: the states that a worker keeps of its descriptors, and what it asks epoll for. What
-- epoll_ctl returns is an argument. The available entries are counted, since a new entry overwrites one.
pub mod States
pub mod Sleep
use monkey.Prelude.{
  ℕ, zero, suc, ◌+◌, ◌-◌, ◌%◌, ◌^◌, Bool, true, false, ◌&&◌, ◌||◌, not, Option, none, some, List,
  [], ◌∷◌, ◌++◌, ◌==◌, if◌then◌else◌, ℤ, pos, minus_one, ltb_ℤ,
}

-- MK_EPOLL_READ up to MK_EPOLL_WAKEUP
pub data Mode : Type 0 where
  reading writing both sleeping waking : Mode

-- MK_EPOLL_LEVEL_TRIGGERED and MK_EPOLL_EDGE_TRIGGERED, which is EPOLLET
abbrev pub level_triggered : ℕ
level_triggered = 2

abbrev pub edge_triggered : ℕ
edge_triggered = 2 ^ 31

-- The bits of an event mask that the code sets.
pub record Mask : Type 0 where
  pub epollin : Bool
  pub epollout : Bool
  pub epollerr : Bool
  pub epollhup : Bool
  pub epollrdhup : Bool
  pub epollet : Bool

abbrev pub no_events : Mask
no_events = record {
  epollin = false;
  epollout = false;
  epollerr = false;
  epollhup = false;
  epollrdhup = false;
  epollet = false;
}

-- struct epoll_state; `behavior` is a byte.
pub record EpollState : Type 0 where
  pub instance_fd : ℕ
  pub fd : ℕ
  pub mode : Mode
  pub behavior : ℕ
  pub events : Mask

-- struct epoll_state_index
pub record StateIndex : Type 0 where
  pub size : ℕ
  pub busy_queue : List EpollState
  pub available : ℕ

-- MK_EPOLL_STATE_INDEX_CHUNK
abbrev pub index_chunk : ℕ
index_chunk = 64

-- mk_epoll_state_init
unfoldable pub state_init : StateIndex
state_init = record { size = index_chunk; busy_queue = []; available = index_chunk }

abbrev pub is_for : ℕ → ℕ → EpollState → Bool
is_for efd fd es = es.instance_fd == efd && es.fd == fd

-- mk_epoll_state_get
unfoldable pub state_get : ℕ → ℕ → List EpollState → Option EpollState
state_get efd fd [] = none
state_get efd fd (es ∷ busy) = if is_for efd fd es then some es else state_get efd fd busy

abbrev pub is_sleeping : Mode → Bool
is_sleeping sleeping = true
is_sleeping _ = false

-- An entry that is there: in sleep mode it keeps its events and behavior.
unfoldable pub touch : Mode → ℕ → Mask → EpollState → EpollState
touch mode behavior events es =
    if is_sleeping mode
    then record es { mode = mode }
    else record es { events = events; behavior = behavior % 2 ^ 8; mode = mode }

-- The first entry for the descriptor is changed.
unfoldable pub touch_first : ℕ → ℕ → (EpollState → EpollState) → List EpollState → List EpollState
touch_first efd fd f [] = []
touch_first efd fd f (es ∷ busy) =
    if is_for efd fd es then f es ∷ busy else es ∷ touch_first efd fd f busy

-- A chunk of entries is added when none is available.
unfoldable pub with_room : StateIndex → StateIndex
with_room index =
    if index.available == 0
    then record index { available = index_chunk; size = index.size + index_chunk }
    else index

abbrev pub new_entry : ℕ → ℕ → Mode → ℕ → Mask → EpollState
new_entry efd fd mode behavior events = record {
  instance_fd = efd;
  fd = fd;
  mode = mode;
  behavior = behavior % 2 ^ 8;
  events = events;
}

unfoldable pub new_state : ℕ → ℕ → Mode → ℕ → Mask → StateIndex → StateIndex
new_state efd fd mode behavior events index =
    let room = with_room index in
    record room {
      available = room.available - 1;
      busy_queue = room.busy_queue ++ (new_entry efd fd mode behavior events ∷ []);
    }

-- mk_epoll_state_set in a worker
unfoldable pub state_set : ℕ → ℕ → Mode → ℕ → Mask → StateIndex → StateIndex
state_set efd fd mode behavior events index = elim (state_get efd fd index.busy_queue) [
  | none ↦ new_state efd fd mode behavior events index
  | some _ ↦ record index {
    busy_queue = touch_first efd fd (touch mode behavior events) index.busy_queue;
  }
]

unfoldable pub delete_first : ℕ → ℕ → List EpollState → List EpollState
delete_first efd fd [] = []
delete_first efd fd (es ∷ busy) = if is_for efd fd es then busy else es ∷ delete_first efd fd busy

-- mk_epoll_state_del
unfoldable pub state_del : ℕ → ℕ → StateIndex → ℤ × StateIndex
state_del efd fd index = elim (state_get efd fd index.busy_queue) [
  | none ↦ (minus_one, index)
  | some _ ↦ (
    pos 0,
    record index {
      busy_queue = delete_first efd fd index.busy_queue;
      available = index.available + 1;
    },
  )
]

abbrev pub with_edge : ℕ → Mask → Mask
with_edge behavior m = if behavior == edge_triggered then record m { epollet = true } else m

-- The switch of mk_epoll_add, over the mask so far.
unfoldable pub add_events : Mode → Mask → Mask
add_events reading m = record m { epollin = true }
add_events writing m = record m { epollout = true }
add_events both m = record m { epollin = true; epollout = true }
add_events sleeping m = no_events
add_events waking m = m

-- mk_epoll_add: the returned value, the mask that epoll is given, and the states. `ret` is what epoll_ctl
-- returns, `exists` whether it fails with EEXIST.
unfoldable pub epoll_add : ℕ → ℕ → Mode → ℕ → ℤ → Bool → StateIndex → ℤ × Mask × StateIndex
epoll_add efd fd init_mode behavior ret exists index =
    let errors = record no_events { epollerr = true; epollhup = true; epollrdhup = true } in
    let events = add_events init_mode (with_edge behavior errors) in
    if ltb_ℤ ret (pos 0) && not exists
    then (ret, events, index)
    else (ret, events, state_set efd fd init_mode behavior events index)

-- mk_epoll_del
unfoldable pub epoll_del : ℕ → ℕ → ℤ → StateIndex → ℤ × StateIndex
epoll_del efd fd ret index = (ret, (state_del efd fd index).1)

-- The mask and the behavior of mk_epoll_change_mode; `none` stands for its exit.
unfoldable pub mode_events : ℕ → ℕ → Mode → ℕ → StateIndex → Option (Mask × ℕ)
mode_events efd fd waking behavior index = elim (state_get efd fd index.busy_queue) [
  | none ↦ none
  | some es ↦ if is_sleeping es.mode then some (es.events, es.behavior) else none
]
mode_events efd fd mode behavior index =
    some (add_events mode (record no_events { epollerr = true; epollhup = true }), behavior)

-- mk_epoll_change_mode: the returned value, the mask that epoll is given, and the states.
unfoldable pub change_mode : ℕ → ℕ → Mode → ℕ → ℤ → StateIndex → Option (ℤ × Mask × StateIndex)
change_mode efd fd mode behavior ret index = elim (mode_events efd fd mode behavior index) [
  | none ↦ none
  | some (m, b) ↦ some (ret, with_edge b m, state_set efd fd mode b (with_edge b m) index)
]

-- The handlers that the loop of mk_epoll_init calls.
pub data Call : Type 0 where
  read_event write_event error_event close_event : ℕ → Call

-- The handler of one event, by its mask: reading goes first.
unfoldable pub call_for : ℕ → Mask → Option Call
call_for fd m =
    if m.epollin
    then some (read_event fd)
    else if m.epollout
    then some (write_event fd)
    else if m.epollhup || m.epollerr || m.epollrdhup
    then some (error_event fd)
    else none

abbrev pub close_if : ℤ → ℕ → List Call → List Call
close_if ret fd calls = if ltb_ℤ ret (pos 0) then close_event fd ∷ calls else calls

-- The round over the events that epoll_wait gives; `ret` is left from the event before, and -1 at first.
unfoldable pub event_round : (Call → ℤ) → ℤ → List (ℕ × Mask) → List Call
event_round handler ret [] = []
event_round handler ret ((fd, m) ∷ events) = elim (call_for fd m) [
  | none ↦ close_if ret fd (event_round handler ret events)
  | some call ↦ call ∷ close_if (handler call) fd (event_round handler (handler call) events)
]
