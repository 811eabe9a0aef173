-- ===== src/Lifecycle.antt =====
-- The lifecycle state of the service and of its core (src/core/structure.rs, src/core/state.rs).
use clash_verge_service_ipc.Prelude.{ℕ, ◌≡◌, refl, ◌<◌, arith, ◌==◌, if◌then◌else◌}

pub data ServiceLifecycleState : Type 0 where
  starting running recovering_core recovering_ipc fatal : ServiceLifecycleState

-- `state as u8`
unfoldable pub to_u8 : ServiceLifecycleState → ℕ
to_u8 starting = 0
to_u8 running = 1
to_u8 recovering_core = 2
to_u8 recovering_ipc = 3
to_u8 fatal = 4

-- Every other value reads as `starting`.
unfoldable pub from_u8 : ℕ → ServiceLifecycleState
from_u8 value =
    if value == 1
    then running
    else if value == 2
    then recovering_core
    else if value == 3
    then recovering_ipc
    else if value == 4
    then fatal
    else starting

-- The two atomic cells of src/core/state.rs hold the states as bytes.
pub record StateCells : Type 0 where
  pub service_cell : ℕ
  pub core_cell : ℕ

unfoldable pub initial_cells : StateCells
unfolding to_u8
initial_cells = record { service_cell = to_u8 starting; core_cell = to_u8 running }

unfoldable pub set_service_lifecycle_state : ServiceLifecycleState → StateCells → StateCells
unfolding to_u8
set_service_lifecycle_state state cells = record cells { service_cell = to_u8 state }

unfoldable pub set_core_lifecycle_state : ServiceLifecycleState → StateCells → StateCells
unfolding to_u8
set_core_lifecycle_state state cells = record cells { core_cell = to_u8 state }

unfoldable pub service_lifecycle_state : StateCells → ServiceLifecycleState
unfolding from_u8
service_lifecycle_state cells = from_u8 cells.service_cell

unfoldable pub core_lifecycle_state : StateCells → ServiceLifecycleState
unfolding from_u8
core_lifecycle_state cells = from_u8 cells.core_cell

-- The byte of a state reads back as that state, and a byte past the last state's reads as
-- `starting`.
pub from_u8-to_u8 :
    (s : ServiceLifecycleState)
    → (from_u8 (to_u8 s) ≡ s) × ((n : ℕ) → to_u8 fatal < n → from_u8 n ≡ starting)
unfolding from_u8 to_u8
from_u8-to_u8 s = (from_to s, λ n h. ground arith)
  where
    from_to : (s : ServiceLifecycleState) → from_u8 (to_u8 s) ≡ s
    from_to starting = refl
    from_to running = refl
    from_to recovering_core = refl
    from_to recovering_ipc = refl
    from_to fatal = refl

-- What is stored in one cell is read from it, and the other cell keeps its state.
pub core_lifecycle_state-set :
    (s : ServiceLifecycleState) (cells : StateCells)
    → (core_lifecycle_state (set_core_lifecycle_state s cells) ≡ s)
      × (service_lifecycle_state (set_core_lifecycle_state s cells) ≡ service_lifecycle_state cells)
unfolding core_lifecycle_state set_core_lifecycle_state service_lifecycle_state
core_lifecycle_state-set s cells = ((from_u8-to_u8 s).0, refl)
