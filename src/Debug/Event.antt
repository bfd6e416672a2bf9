-- ===== src/Debug/Event.antt =====
-- The data of emu_debug_event.h: events, values, watches and what a match reports. An array that
-- comes with a count is the list of its used elements.
use emu_sa80535_n.Base.{ℕ, List}

pub data Status : Type 0 where
  ok invalid_argument limit busy duplicate_id : Status

-- `struct em8051_debug_value`.
pub record Value : Type 0 where
  pub value : ℕ
  pub width : ℕ
  pub known : ℕ
  pub is_signed : ℕ

-- The fields of `struct emuif_observation` that the event runtime reads or writes.
pub record Observation : Type 0 where
  pub kind : ℕ
  pub status : ℕ
  pub space : ℕ
  pub sequence : ℕ
  pub generation : ℕ

-- `struct em8051_debug_event`.
pub record Event : Type 0 where
  pub sequence : ℕ
  pub instruction_count : ℕ
  pub machine_cycle_count : ℕ
  pub generation : ℕ
  pub pc : ℕ
  pub address : ℕ
  pub phase : ℕ
  pub kind : ℕ
  pub address_space : ℕ
  pub access : ℕ
  pub old_value : Value
  pub new_value : Value
  pub observation : Observation

-- `struct em8051_debug_watch_condition`.
pub record Condition : Type 0 where
  pub constant : ℕ
  pub present : ℕ
  pub operand : ℕ
  pub comparison : ℕ
  pub width : ℕ
  pub is_signed : ℕ

-- `struct em8051_debug_watch_action`.
pub record Action : Type 0 where
  pub condition : Condition
  pub trace_ids : List ℕ
  pub kind : ℕ
  pub canonical : ℕ

-- `struct em8051_debug_watch`.
pub record Watch : Type 0 where
  pub actions : List Action
  pub id : ℕ
  pub address_first : ℕ
  pub address_last : ℕ
  pub enabled : ℕ
  pub address_space : ℕ
  pub access_mask : ℕ
  pub canonical_space : ℕ

-- `struct em8051_debug_watch_result`.
pub record WatchResult : Type 0 where
  pub trace_ids : List ℕ
  pub watch_id : ℕ
  pub fired_action_mask : ℕ
  pub source_event_sequence : ℕ
  pub stop : ℕ
  pub console : ℕ
  pub quiet : ℕ

-- The numbers of the enumerations, and the limits.
abbrev pub watch_old : ℕ
watch_old = 0

abbrev pub watch_stop : ℕ
watch_stop = 0

abbrev pub watch_console : ℕ
watch_console = 1

abbrev pub watch_quiet : ℕ
watch_quiet = 2

abbrev pub watch_route : ℕ
watch_route = 3

abbrev pub event_watch_match : ℕ
event_watch_match = 18

abbrev pub obs_access_result : ℕ
obs_access_result = 5

abbrev pub max_watches : ℕ
max_watches = 64

abbrev pub max_actions : ℕ
max_actions = 8

abbrev pub max_routes : ℕ
max_routes = 16

abbrev pub max_observers : ℕ
max_observers = 8
