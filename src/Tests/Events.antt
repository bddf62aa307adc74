-- ===== src/Tests/Events.antt =====
-- The epoll states, the events of plugins and the configuration file at concrete inputs.
use monkey.Prelude.{List, ℕ, ◌<◌, ◌≡◌, refl, ◌⊎◌, none, some, [], ◌∷◌, All, arith, true, ℤ, pos}
use monkey.Libc.{Bytes, codes, memchr, cstr, equal_by, isspace, tolower, fgets_loop}
use monkey.Libc.Numbers.{strtol}
use monkey.Text.{char_search, copy_substr, string_trim, trim_left, trim_right}
use monkey.Epoll.{
  Mask, no_events, StateIndex, reading, writing, sleeping, waking, level_triggered, state_init,
  state_get, state_set, change_mode, new_state, with_room,
}
use monkey.Epoll.States.{IsIndex, state_set-IsIndex}
use monkey.Epoll.Sleep.{asleep, change_mode_wakes}
use monkey.Events.{
  PluginEvent, Plugin, event_next, event_owned, event_continue, owner_hook, dispatch, event_read,
  event_get, ask_plugins,
}
use monkey.Events.Dispatch.{IsOther, Registered, Asked, dispatch-Asked}
use monkey.Config.{
  Section, created, config_create, section_getval, as_num, num, value_of, read_lines, read_line,
  strip_line, read_section, read_body, read_indented, read_entry, key_val, entry_add, section_add,
  indent_of, blanks,
}
use monkey.Config.Printed.{InLine}
use monkey.Config.RoundTrip.{IsSection, config_create-print}
use monkey.Config.Counted.{HasEntry}
use monkey.Config.Sections.{config_create-HasEntry}

abbrev in_events : Mask
in_events = record no_events { epollin = true }

abbrev one_state : StateIndex
one_state = record {
  size = 64;
  busy_queue =
      record { instance_fd = 5; fd = 9; mode = reading; behavior = 2; events = in_events } ∷ [];
  available = 63;
}

state_set_test : state_set 5 9 reading level_triggered in_events state_init ≡ one_state
unfolding state_set state_init state_get new_state with_room
state_set_test = refl

one_state-IsIndex : IsIndex one_state
one_state-IsIndex = record { counted = omega arith; apart = (tt, tt) }

state_set-IsIndex_example : IsIndex (state_set 5 10 writing level_triggered no_events one_state)
state_set-IsIndex_example =
    state_set-IsIndex 5 10 writing level_triggered no_events one_state one_state-IsIndex

change_mode_wakes_example :
    (change_mode 5 9 sleeping 2 (pos 0) one_state ≡ some (pos 0, no_events, asleep 5 9 2 one_state))
    × (change_mode 5 9 waking 2 (pos 0) (asleep 5 9 2 one_state)
        ≡ some (pos 0, in_events, state_set 5 9 waking 2 in_events (asleep 5 9 2 one_state)))
unfolding state_get
change_mode_wakes_example =
    change_mode_wakes 5 9 2 2 (pos 0) (pos 0) one_state
      (record { instance_fd = 5; fd = 9; mode = reading; behavior = 2; events = in_events }) refl
      (omega arith)

abbrev passing : Plugin
passing = record {
  on_read = some (λ _. event_next);
  on_write = none;
  on_error = none;
  on_close = none;
  on_timeout = none;
}

abbrev owning : Plugin
owning = record {
  on_read = some (λ _. event_owned);
  on_write = none;
  on_error = none;
  on_close = none;
  on_timeout = none;
}

event_read_test : event_read 9 [] (passing ∷ owning ∷ []) ≡ event_owned
unfolding event_read dispatch owner_hook ask_plugins event_get
event_read_test = refl

owner_test : event_read 9 (record { socket = 9; handler = owning } ∷ []) [] ≡ event_owned
unfolding event_read dispatch owner_hook ask_plugins event_get
owner_test = refl

abbrev owned_list : List PluginEvent
owned_list = record { socket = 9; handler = owning } ∷ []

dispatch-Asked_example :
    ((e : PluginEvent) × (f : ℕ → ℤ) × Registered (λ p. p.on_read) event_continue 9 owned_list e
      × (e.handler.on_read ≡ some f)
      × (dispatch (λ p. p.on_read) event_continue 9 owned_list (passing ∷ []) ≡ f 9))
    ⊎ ((All (IsOther (λ p. p.on_read) event_continue 9) owned_list
          ⊎ ((e : PluginEvent) × Registered (λ p. p.on_read) event_continue 9 owned_list e
              × (e.handler.on_read ≡ none)))
        × Asked
            (λ p. p.on_read)
            event_continue
            9
            (passing ∷ [])
            (dispatch (λ p. p.on_read) event_continue 9 owned_list (passing ∷ [])))
dispatch-Asked_example = dispatch-Asked (λ p. p.on_read) event_continue 9 owned_list (passing ∷ [])

-- A comment, a section, an entry, an indented comment, and an entry with a space behind it.
abbrev config_text : Bytes
config_text = codes "# Monkey\n[SERVER]\n    Port 2001\n    # nothing\n    Workers 4 \n"

abbrev server_section : Section
server_section = record {
  name = codes "SERVER";
  entries =
      record { key = codes "Port"; val = codes "2001" }
      ∷ record { key = codes "Workers"; val = codes "4" }
      ∷ [];
}

config_create_test : config_create config_text ≡ created (server_section ∷ [])
unfolding config_create fgets_loop read_lines read_line strip_line read_section read_body
    read_indented read_entry key_val entry_add section_add indent_of blanks char_search copy_substr
    string_trim trim_left trim_right memchr cstr equal_by isspace
config_create_test = refl

config_create-HasEntry_example : All HasEntry (server_section ∷ [])
config_create-HasEntry_example =
    config_create-HasEntry config_text (server_section ∷ []) config_create_test

getval_test : section_getval (codes "port") as_num server_section.entries ≡ some (num (pos 2001))
unfolding section_getval value_of strtol equal_by tolower
getval_test = refl

abbrev small : Section
small = record {
  name = codes "WEB";
  entries = record { key = codes "Port"; val = codes "80" } ∷ [];
}

in_line : (c : ℕ) → 13 < c → InLine c
in_line c h = (λ e. omega (arith, h, e), λ e. omega (arith, h, e), λ e. omega (arith, h, e))

small-IsSection : IsSection small
unfolding string_trim trim_left trim_right cstr isspace
small-IsSection = (
  record {
    bytes = (in_line 87 (omega arith), (in_line 69 (omega arith), (in_line 66 (omega arith), tt)));
    no_bracket = (λ e. ground arith, (λ e. ground arith, (λ e. ground arith, tt)));
  },
  (
    (
      record {
        bytes = (
          in_line 80 (omega arith),
          (in_line 111 (omega arith), (in_line 114 (omega arith), (in_line 116 (omega arith), tt))),
        );
        no_space = (refl, (refl, (refl, (refl, tt))));
        some_byte = omega arith;
        no_comment = λ e. ground arith;
      },
      record { bytes = (in_line 56 (omega arith), (in_line 48 (omega arith), tt)); trimmed = refl },
      omega arith,
    ),
    tt,
  ),
  λ e. ground arith,
)

config_create-print_example : config_create (codes "[WEB]\n    Port 80\n") ≡ created (small ∷ [])
config_create-print_example =
    config_create-print small [] (small-IsSection, tt) (omega arith, (omega arith, tt))
