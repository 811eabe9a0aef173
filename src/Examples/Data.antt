-- ===== src/Examples/Data.antt =====
-- The test data: owners, tokens, a digest and an empty disk.
use clash_verge_service_ipc.Prelude.{
  ℕ, zero, suc, refl, true, [], ◌∷◌, none, some, Text, bytes, arith,
}
use clash_verge_service_ipc.Structure.{unix, AuthenticatedOwner, ClashConfig}
use clash_verge_service_ipc.Session.Comparison.{AreBytes}
use clash_verge_service_ipc.Disk.{Files, missing, Disk}
use clash_verge_service_ipc.Gate.Sessions.{IsDigest}
use clash_verge_service_ipc.Manager.{CoreManager, CoreWorld}

abbrev pub alice : AuthenticatedOwner
alice = record { key = bytes "501"; identity = unix 501 20; app_data_root = bytes "/Users/alice" }

abbrev pub bob : AuthenticatedOwner
bob = record { key = bytes "502"; identity = unix 502 20; app_data_root = bytes "/Users/bob" }

abbrev pub token : Text
token = bytes "aaaaaaaaaaaaaaaaaaaaaaaaaaaaaaaaaaaaaaaaaaaaaaaaaaaaaaaaaaaaaaaa"

abbrev pub other_token : Text
other_token = bytes "bbbbbbbbbbbbbbbbbbbbbbbbbbbbbbbbbbbbbbbbbbbbbbbbbbbbbbbbbbbbbbbb"

abbrev pub filled : ℕ → Text
filled zero = []
filled (suc n) = 7 ∷ filled n

-- A digest that is the same for all texts.
abbrev pub digest : Text → Text
digest s = filled 32

filled_bytes : (n : ℕ) → AreBytes (filled n)
filled_bytes zero = tt
filled_bytes (suc n) = (omega arith, filled_bytes n)

pub digest-IsDigest : IsDigest digest
digest-IsDigest = record { digest_bytes = λ s. filled_bytes 32; digest_length = λ s. refl }

abbrev pub no_files : Files
no_files = record { active_owner = missing; owner_generation = missing; desired = λ key. missing }

abbrev pub fresh_disk : Disk
fresh_disk = record { files = no_files; temporary = none; outcomes = []; now = 100 }

abbrev pub clash_config : ClashConfig
clash_config = record {
  core_config = record {
    core_path = bytes "/usr/bin/core";
    core_ipc_path = bytes "/tmp/core.sock";
    config_path = bytes "config.yaml";
    config_dir = bytes "/var/lib";
  };
  log_config = record { directory = bytes "/var/log"; max_log_size = 1000; max_log_files = 8 };
}

abbrev pub idle_manager : CoreManager
idle_manager = record {
  running_pid = 0;
  running_config = none;
  core_start_time = none;
  core_started_at = 0;
  last_core_exit_reason = none;
  restart_count = 0;
  last_recovery_at = 0;
  watchdog_handle = none;
  failed_child = none;
}

abbrev pub idle_core : CoreWorld
idle_core = record {
  manager = idle_manager;
  cells = record { service_cell = 1; core_cell = 1 };
  startup_reconciled = true;
  runtime_record = none;
  alive = [];
  next_process = 1;
  pid_of = λ process. some process;
  outcomes = [];
  now = 100;
}
