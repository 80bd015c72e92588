-- ===== src/Types.antt =====
-- internal/types/types.go: the jobs that users submit, the tasks that run them, the agents.
-- A time is a number of nanoseconds, and 0 is Go's zero time; a duration is an integer.
use easyrun.Prelude.{ℕ, Bool, true, false, List, Option}
use easyrun.Prelude.Int.{ℤ}
use easyrun.Prelude.Text.{String, str_eq}
use easyrun.Prelude.Dict.{Dict}
use easyrun.Prelude.{if◌then◌else◌}

pub data TaskState : Type 0 where
  queued downloading running stopping failed : TaskState

abbrev pub is_running : TaskState → Bool
is_running running = true
is_running _ = false

abbrev pub is_stopping : TaskState → Bool
is_stopping stopping = true
is_stopping _ = false

-- The states in which an image may still be on its way.
abbrev pub is_starting : TaskState → Bool
is_starting queued = true
is_starting downloading = true
is_starting _ = false

pub record Artifact : Type 0 where
  pub url : String
  pub match : Dict String
  pub headers : Dict String
  pub auth : Dict String
  pub extract : String
  pub filename : String

pub record HealthCheck : Type 0 where
  pub kind : String
  pub path : String
  pub port : String
  pub interval : ℤ
  pub timeout : ℤ
  pub initial_timeout : ℤ
  pub failure_threshold : ℤ

abbrev pub update_rolling : String
update_rolling = "rolling"

abbrev pub update_recreate : String
update_recreate = "recreate"

abbrev pub update_blue_green : String
update_blue_green = "blue-green"

abbrev pub driver_exec : String
driver_exec = "exec"

abbrev pub driver_docker : String
driver_docker = "docker"

abbrev pub driver_hop : String
driver_hop = "hop"

unfoldable pub driver_for : String → String
driver_for image = if str_eq image "" then driver_exec else driver_docker

pub record Job : Type 0 where
  pub name : String
  pub affinity : Dict String
  pub driver : String
  pub image : String
  pub artifacts : List Artifact
  pub user : String
  pub command : String
  pub count : ℤ
  pub ports : Dict ℤ
  pub cpu_shares : ℤ
  pub memory_limit : ℕ
  pub env : Dict String
  pub tags : Dict String
  pub volumes : Dict String
  pub health_check : Option HealthCheck
  pub max_restarts : Option ℤ
  pub restart_window : ℤ
  pub update_policy : String
  pub priority : Option ℤ
  pub deploying : Bool

-- Without the two percentages, which are floats that only the status report shows.
pub record Task : Type 0 where
  pub id : String
  pub job_name : String
  pub driver : String
  pub image : String
  pub ports : Dict ℤ
  pub pid : ℤ
  pub state : TaskState
  pub started_at : ℕ
  pub restart_count : ℕ
  pub last_failed_at : ℕ
  pub cpu_shares : ℤ
  pub memory_limit : ℕ
  pub downloaded : ℕ
  pub image_size : ℕ

pub record Agent : Type 0 where
  pub id : String
  pub endpoint : String
  pub version : String
  pub last_seen : ℕ
  pub temp_milli_c : ℤ
