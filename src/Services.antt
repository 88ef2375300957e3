-- ===== src/Services.antt =====
-- The registry of services, components/note4_platform/note4_service_registry.cc and its header. A key
-- and a service are numbers in place of addresses; what a service's callbacks return is a
-- parameter, and a call returns the callbacks that it made, in order. A callback that calls the
-- registry again is not modelled.
pub mod Lifecycle
mod Tests
use zectrix_note4_platform.Base.{
  Bool, List, Option, [], any, false, if◌then◌else◌, length, none, not, some, true, ℕ, ◌&&◌, ◌++◌,
  ◌==◌, ◌||◌, ◌∷◌,
}

-- `kCapacity`.
abbrev pub capacity : ℕ
capacity = 16

-- `ESP_OK`, `ESP_ERR_INVALID_STATE`, `ESP_ERR_NO_MEM`, or the error of a callback.
pub data Result : Type 0 where
  ok invalid_state no_memory : Result
  failure : ℕ → Result

pub data Phase : Type 0 where
  configuring starting running stopping stopped : Phase

pub record Entry : Type 0 where
  pub key : ℕ
  pub service : ℕ
  pub entered : Bool
  pub is_running : Bool

-- `entries` are those below `count_`.
pub record Registry : Type 0 where
  pub entries : List Entry
  pub phase : Phase

abbrev pub empty : Registry
empty = record { entries = []; phase = configuring }

-- What the callbacks of a service return; 0 is `ESP_OK`.
pub record Callbacks : Type 0 where
  pub init : ℕ
  pub start : ℕ
  pub has_interface : Bool
  pub stop : ℕ

pub data Effect : Type 0 where
  inits starts stops : ℕ → Effect

abbrev pub is_ok : Result → Bool
is_ok ok = true
is_ok _ = false

abbrev pub of_code : ℕ → Result
of_code code = if code == 0 then ok else failure code

abbrev pub is_configuring : Phase → Bool
is_configuring configuring = true
is_configuring _ = false

abbrev pub is_active : Phase → Bool
is_active running = true
is_active _ = false

abbrev pub is_changing : Phase → Bool
is_changing starting = true
is_changing stopping = true
is_changing _ = false

unfoldable pub add : ℕ → ℕ → Registry → Result × Registry
add key service r =
    if not (is_configuring r.phase)
    then (invalid_state, r)
    else if any (λ e. e.key == key || e.service == service) r.entries
    then (invalid_state, r)
    else if length r.entries == capacity
    then (no_memory, r)
    else (
      ok,
      record r {
        entries =
            r.entries
            ++ record { key = key; service = service; entered = false; is_running = false } ∷ [];
      },
    )

-- The service whose interface is handed out.
unfoldable pub find : ℕ → List Entry → Option ℕ
find key [] = none
find key (e ∷ es) = if e.key == key && e.is_running then some e.service else find key es

-- `Init`, `Start` and the interface of one service.
unfoldable pub start_service : Callbacks → ℕ → Result × List Effect
start_service c service =
    if not (c.init == 0)
    then (of_code c.init, inits service ∷ [])
    else if not (c.start == 0)
    then (of_code c.start, inits service ∷ starts service ∷ [])
    else (if c.has_interface then ok else invalid_state, inits service ∷ starts service ∷ [])

-- The loop of `StartAll`, up to the first failure.
unfoldable pub start_entries : (ℕ → Callbacks) → List Entry → Result × List Entry × List Effect
start_entries callbacks [] = (ok, [], [])
start_entries callbacks (e ∷ es) =
    let one = start_service (callbacks e.service) e.service in
    let rest = start_entries callbacks es in
    if is_ok one.0
    then (rest.0, record e { entered = true; is_running = true } ∷ rest.1, one.1 ++ rest.2)
    else (one.0, record e { entered = true } ∷ es, one.1)

-- The loop of `StopEntered`, from the last entry to the first.
unfoldable pub stop_entries : (ℕ → Callbacks) → List Entry → Result × List Entry × List Effect
stop_entries callbacks [] = (ok, [], [])
stop_entries callbacks (e ∷ es) =
    let rest = stop_entries callbacks es in
    if e.entered
    then (
      if is_ok rest.0 then of_code (callbacks e.service).stop else rest.0,
      record e { entered = false; is_running = false } ∷ rest.1,
      rest.2 ++ stops e.service ∷ [],
    )
    else (rest.0, e ∷ rest.1, rest.2)

unfoldable pub stop_entered : (ℕ → Callbacks) → Registry → Result × Registry × List Effect
unfolding stop_entries
stop_entered callbacks r =
    let done = stop_entries callbacks r.entries in
    (done.0, record { entries = done.1; phase = stopped }, done.2)

unfoldable pub start_all : (ℕ → Callbacks) → Registry → Result × Registry × List Effect
unfolding start_entries stop_entered
start_all callbacks r =
    let begun = start_entries callbacks r.entries in
    let undone = stop_entered callbacks (record { entries = begun.1; phase = starting }) in
    if is_active r.phase
    then (ok, r, [])
    else if not (is_configuring r.phase)
    then (invalid_state, r, [])
    else if is_ok begun.0
    then (ok, record { entries = begun.1; phase = running }, begun.2)
    else (begun.0, undone.1, begun.2 ++ undone.2)

unfoldable pub stop_all : (ℕ → Callbacks) → Registry → Result × Registry × List Effect
unfolding stop_entered
stop_all callbacks r =
    if is_changing r.phase then (invalid_state, r, []) else stop_entered callbacks r

abbrev pub is_stopped : Phase → Bool
is_stopped stopped = true
is_stopped _ = false

unfoldable pub clear : Registry → Result × Registry
clear r =
    if not (is_configuring r.phase) && not (is_stopped r.phase)
    then (invalid_state, r)
    else (ok, empty)
