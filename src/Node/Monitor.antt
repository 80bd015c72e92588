-- ===== src/Node/Monitor.antt =====
-- internal/agent/monitor.go: the look at the running tasks of a node, in a round. What the runner, the
-- probes and the clock answer is the world of the round. The usage figures are left out, but for
-- the check state that measuring them leaves behind.
pub mod Threshold
pub mod Pruning
use easyrun.Prelude.{
  ℕ, suc, ◌+◌, ◌-◌, Bool, true, false, not, ◌&&◌, ◌||◌, Option, none, some, List, [], ◌∷◌, ltb, leb,
  ◌==◌, if◌then◌else◌, or_else, is_some,
}
use easyrun.Prelude.Int.{ℤ, pos, negsuc, ltb_ℤ, leb_ℤ, eqb_ℤ, pos_part}
use easyrun.Prelude.Text.{String, str_eq}
use easyrun.Prelude.Dict.{Dict, lookup, insert, erase}
use easyrun.Types.{Job, Task, TaskState, running, stopping, failed, is_running, HealthCheck}
use easyrun.Node.State.{AgentState, with_task}

abbrev pub default_failure_threshold : ℤ
default_failure_threshold = pos 3

-- `last_check_time` is 0 before the first check.
pub record CheckState : Type 0 where
  pub fail_count : ℕ
  pub last_check_time : ℕ
  pub notified_healthy : Bool

abbrev pub no_checks : CheckState
no_checks = record { fail_count = 0; last_check_time = 0; notified_healthy = false }

pub record MonitorWorld : Type 0 where
  -- The state that the runner reports, or `none` for an error.
  pub status : Task → Option TaskState
  -- The status of the answer on a port, whether a connection is taken, and when a file was changed.
  pub http : ℤ → String → ℤ → Option ℕ
  pub tcp : ℤ → ℤ → Bool
  pub modified : String → Option ℕ
  pub health_timeout : ℤ
  pub now : ℕ

pub data MonitorEvent : Type 0 where
  crash_notified started_notified : String → MonitorEvent
  restart_spawned : String → MonitorEvent

pub record Monitor : Type 0 where
  pub checks : Dict CheckState
  pub state : AgentState
  pub trace : List MonitorEvent

-- The port and the timeout of a check, where the task has the port.
unfoldable pub resolve_health_port : MonitorWorld → Task → HealthCheck → Option ℤ × ℤ
resolve_health_port w t hc = (
  lookup (if str_eq hc.port "" then "http" else hc.port) t.ports,
  if eqb_ℤ hc.timeout (pos 0) then w.health_timeout else hc.timeout,
)

unfoldable pub is_success : Option ℕ → Bool
is_success none = false
is_success (some code) = leb 200 code && ltb code 400

unfoldable pub http_on : MonitorWorld → HealthCheck → Option ℤ × ℤ → Bool
unfolding is_success
http_on w hc (none, timeout) = false
http_on w hc (some port, timeout) = is_success (w.http port hc.path timeout)

unfoldable pub check_health_http : MonitorWorld → Task → HealthCheck → Bool
unfolding resolve_health_port http_on
check_health_http w t hc = http_on w hc (resolve_health_port w t hc)

unfoldable pub tcp_on : MonitorWorld → Option ℤ × ℤ → Bool
tcp_on w (none, timeout) = false
tcp_on w (some port, timeout) = w.tcp port timeout

unfoldable pub check_health_tcp : MonitorWorld → Task → HealthCheck → Bool
unfolding resolve_health_port tcp_on
check_health_tcp w t hc = tcp_on w (resolve_health_port w t hc)

-- A file that changed since the last check; at the first one, a file that is there.
unfoldable pub is_fresh : Option ℕ → Option CheckState → Bool
is_fresh none _ = false
is_fresh (some modified) none = true
is_fresh (some modified) (some cs) = cs.last_check_time == 0 || ltb cs.last_check_time modified

unfoldable pub probe : MonitorWorld → Task → HealthCheck → Option CheckState → Bool
unfolding check_health_http check_health_tcp is_fresh
probe w t hc cs =
    if str_eq hc.kind "tcp"
    then check_health_tcp w t hc
    else if str_eq hc.kind "file"
    then is_fresh (w.modified hc.path) cs
    else check_health_http w t hc

unfoldable pub threshold_of : HealthCheck → ℤ
threshold_of hc =
    if leb_ℤ hc.failure_threshold (pos 0) then default_failure_threshold else hc.failure_threshold

-- What a probe's result does to the count, and whether the task still passes for healthy.
unfoldable pub count_check : HealthCheck → ℕ → Bool → CheckState → Bool × CheckState
unfolding threshold_of
count_check hc now true cs = (true, record cs { fail_count = 0; last_check_time = now })
count_check hc now false cs = (
  ltb_ℤ (pos (suc cs.fail_count)) (threshold_of hc),
  record cs { fail_count = suc cs.fail_count; last_check_time = now },
)

unfoldable pub check_health :
    MonitorWorld → Task → HealthCheck → Option CheckState → Bool × CheckState
unfolding probe count_check
check_health w t hc cs = count_check hc w.now (probe w t hc cs) (or_else cs no_checks)

abbrev pub set_state : TaskState → Task → Task
set_state st t = record t { state = st }

-- A task that is down: its state, its check state, the crash and the restart.
unfoldable pub give_up : TaskState → Task → Monitor → Monitor
give_up st t m = record {
  checks = erase t.id m.checks;
  state = with_task t.id (set_state st) m.state;
  trace = restart_spawned t.id ∷ crash_notified t.job_name ∷ m.trace;
}

-- The first check that passes is reported.
unfoldable pub pass : Task → CheckState → Monitor → Monitor
pass t cs m =
    if cs.notified_healthy then record m { checks = insert t.id cs m.checks } else record m {
      checks = insert t.id (record cs { notified_healthy = true }) m.checks;
      trace = started_notified t.job_name ∷ m.trace;
    }

unfoldable pub judge : Task → Bool × CheckState → Monitor → Monitor
unfolding give_up pass
judge t (true, cs) m = pass t cs m
judge t (false, cs) m = give_up failed t m

unfoldable pub in_grace : MonitorWorld → Task → HealthCheck → Bool
in_grace w t hc =
    ltb_ℤ (pos 0) hc.initial_timeout && ltb (w.now - t.started_at) (pos_part hc.initial_timeout)

-- Measuring the usage leaves a check state.
unfoldable pub measured : Task → Monitor → Monitor
measured t m = record m { checks = insert t.id (or_else (lookup t.id m.checks) no_checks) m.checks }

unfoldable pub check_of : Option Job → Option HealthCheck
check_of none = none
check_of (some job) = job.health_check

unfoldable pub check_running : MonitorWorld → Task → Option HealthCheck → Monitor → Monitor
unfolding judge check_health in_grace
check_running w t none m = m
check_running w t (some hc) m =
    if in_grace w t hc then m else judge t (check_health w t hc (lookup t.id m.checks)) m

unfoldable pub check_status :
    MonitorWorld → Option Job → Task → Option TaskState → Monitor → Monitor
unfolding give_up check_running measured check_of
check_status w job t none m = m
check_status w job t (some st) m =
    if is_running st then check_running w t (check_of job) (measured t m) else give_up stopping t m

unfoldable pub check_each : MonitorWorld → List (Task × Option Job) → Monitor → Monitor
unfolding check_status
check_each w [] m = m
check_each w ((t, job) ∷ infos) m = check_each w infos (check_status w job t (w.status t) m)

unfoldable pub running_tasks : Dict Job → Dict Task → List (Task × Option Job)
running_tasks jobs [] = []
running_tasks jobs ((id, t) ∷ ts) =
    let rest = running_tasks jobs ts in
    if is_running t.state then (t, lookup t.job_name jobs) ∷ rest else rest

unfoldable pub is_live : String → Dict Task → Bool
is_live id [] = false
is_live id ((k, t) ∷ ts) = str_eq t.id id || is_live id ts

unfoldable pub prune_checks : Dict Task → Dict CheckState → Dict CheckState
unfolding is_live
prune_checks tasks [] = []
prune_checks tasks ((id, cs) ∷ checks) =
    let rest = prune_checks tasks checks in if is_live id tasks then (id, cs) ∷ rest else rest

unfoldable pub check_tasks : MonitorWorld → Monitor → Monitor
unfolding check_each running_tasks prune_checks
check_tasks w m =
    check_each w (running_tasks m.state.jobs m.state.tasks)
      (record m { checks = prune_checks m.state.tasks m.checks })
