-- ===== src/Supervisor/Window.antt =====
-- Exits of the listener inside one restart window (src/core/server.rs,
-- `run_ipc_supervisor_until_shutdown`).
use clash_verge_service_ipc.Prelude.{
  ℕ, ◌+◌, ◌≤◌, ◌<◌, ◌≡◌, refl, sym, ◌∙◌, ap, Bool, true, false, List, [], ◌∷◌, ◌++◌, ltb,
  if◌then◌else◌, length, length-append, retain-in_window, All-pushed, All, Result, ok, err, resume,
  arith,
}
use mathlib.Core.Path.{subst}
use clash_verge_service_ipc.AnyError.{AnyError, anyhow}
use clash_verge_service_ipc.Lifecycle.{
  running, fatal, to_u8, from_u8, service_lifecycle_state, set_service_lifecycle_state,
}
use clash_verge_service_ipc.Supervisor.{
  Supervisor, ListenerExit, ipc_max_restarts, ipc_restart_window, report, after_build, rebuild,
  note_listener_exit, listener_exited, listener_exits,
}

-- The supervision has ended with an error, in the fatal state.
pub record HasGivenUp (r : Result AnyError Unit) (s : Supervisor) : Type 0 where
  pub error : AnyError
  pub failed : r ≡ err error
  pub reported : service_lifecycle_state s.cells ≡ fatal

service_state_fatal :
    (s : Supervisor) → service_lifecycle_state (set_service_lifecycle_state fatal s.cells) ≡ fatal
unfolding service_lifecycle_state set_service_lifecycle_state from_u8 to_u8
service_state_fatal s = refl

-- The exits are at times from `from` on and before the end of the window.
abbrev pub InWindow : ℕ → List ListenerExit → Type 0
InWindow from = All (λ e. (from ≤ e.now) × (e.now < from + ipc_restart_window))

-- If more exits than restarts are allowed fall in one window, counting those that are noted already,
-- the supervision ends with an error and the service reports the fatal state, whether or not the
-- rebuilds succeed.
pub listener_exits-HasGivenUp :
    (from : ℕ) (exits : List ListenerExit) (s : Supervisor)
    → InWindow from exits
    → All (λ t. from ≤ t) s.restart_timestamps
    → length s.restart_timestamps ≤ ipc_max_restarts
    → ipc_max_restarts < length s.restart_timestamps + length exits
    → HasGivenUp (listener_exits exits s).0 (listener_exits exits s).1
unfolding listener_exits listener_exited rebuild after_build
listener_exits-HasGivenUp from [] s w p few many = absurd (omega arith)
listener_exits-HasGivenUp from (e ∷ exits) s ((low, high), w) p few many =
    by_count (λ s2. listener_exits-HasGivenUp from exits s2 w)
      (ltb ipc_max_restarts (length noted.restart_timestamps)) refl
  where
    Rest : Type 0
    Rest =
        (s2 : Supervisor)
        → All (λ t. from ≤ t) s2.restart_timestamps
        → length s2.restart_timestamps ≤ ipc_max_restarts
        → ipc_max_restarts < length s2.restart_timestamps + length exits
        → HasGivenUp (listener_exits exits s2).0 (listener_exits exits s2).1

    noted : Supervisor
    noted = note_listener_exit e.now s

    pushed : noted.restart_timestamps ≡ s.restart_timestamps ++ e.now ∷ []
    pushed =
        ap (λ l. l ++ e.now ∷ [])
          (retain-in_window from e.now ipc_restart_window s.restart_timestamps low high p)

    longer : length noted.restart_timestamps ≡ length s.restart_timestamps + 1
    longer = ap length pushed ∙ length-append s.restart_timestamps (e.now ∷ [])

    since : All (λ t. from ≤ t) noted.restart_timestamps
    since =
        subst (All (λ t. from ≤ t)) (sym pushed) (All-pushed from e.now s.restart_timestamps low p)

    next : Supervisor
    next = record noted { consecutive_attempt = noted.consecutive_attempt + 1 }

    then_rest : Result AnyError Unit × Supervisor → Result AnyError Unit × Supervisor
    then_rest o = resume o.0 (λ _. listener_exits exits) o.1

    by_build :
        Rest
        → (r : Result AnyError Unit) → length noted.restart_timestamps ≤ ipc_max_restarts
        → HasGivenUp (then_rest (after_build r next)).0 (then_rest (after_build r next)).1
    by_build rest (ok u) fits = rest (report running next) since fits (omega (arith, longer, many))
    by_build rest (err x) fits = record {
      error = anyhow;
      failed = refl;
      reported = service_state_fatal next;
    }

    counted : Bool → Result AnyError Unit × Supervisor
    counted b = if b then (err anyhow, report fatal noted) else after_build e.rebuilt next

    by_count :
        Rest
        → (b : Bool) → ltb ipc_max_restarts (length noted.restart_timestamps) ≡ b
        → HasGivenUp (then_rest (counted b)).0 (then_rest (counted b)).1
    by_count rest true h = record {
      error = anyhow;
      failed = refl;
      reported = service_state_fatal noted;
    }
    by_count rest false h = by_build rest e.rebuilt (ground (arith, h))
