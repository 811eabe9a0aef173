-- ===== src/Examples/Startup.antt =====
-- The start-up reconciliation at a concrete input.
use clash_verge_service_ipc.Prelude.{
  refl, true, none, some, List, [], ◌∷◌, ◌==◌, if◌then◌else◌, bytes,
}
use clash_verge_service_ipc.Disk.{content}
use clash_verge_service_ipc.Reconcile.{
  CoreRuntimeRecord, ProcessIdentity, Processes, Turn, Machine, is_identity,
  reconcile_service_startup,
}
use clash_verge_service_ipc.Reconcile.Foreign.{
  NeverRuns, Reconciles, reconcile_service_startup-Reconciles,
}

abbrev recorded : CoreRuntimeRecord
recorded = record {
  pid = 44;
  ipc_path = bytes "/run/core.sock";
  identity = record { executable = bytes "/usr/bin/core"; started_at = 10 };
}

-- An editor has got the ID of the core; later it is gone too.
abbrev editor : ProcessIdentity
editor = record { executable = bytes "/usr/bin/vi"; started_at = 900 }

abbrev editing : Processes
editing = λ pid. if pid == 44 then some editor else none

abbrev turns : List Turn
turns =
    record { processes = none; fault = none }
    ∷ record { processes = some editing; fault = none }
    ∷ record { processes = some (λ pid. none); fault = none }
    ∷ []

abbrev machine : Machine
machine = record {
  reconciled = true;
  runtime_record = content recorded;
  processes = editing;
  sockets = λ path. some true;
  signals = [];
  turns = turns;
}

never : NeverRuns recorded machine
unfolding is_identity
never = record { now = refl; then_on = (tt, (refl, (refl, tt))) }

reconcile_service_startup-Reconciles_example :
    Reconciles machine (reconcile_service_startup machine).0 (reconcile_service_startup machine).1
reconcile_service_startup-Reconciles_example =
    reconcile_service_startup-Reconciles recorded machine refl never
