-- ===== src/Runner/Hop/Lifecycle.antt =====
-- Start, stop, adoption and state of a task in internal/runner/hopos.go and hopos_stream.go. The
-- locks of the source are the borders of the steps: what others do while a start downloads, or a
-- stop waits, is a parameter. What the download and the slot manager answer is a parameter too.
pub mod Ownership
pub mod Stopping
use easyrun.Prelude.{
  ℕ, zero, suc, ◌+◌, ◌*◌, Bool, true, false, not, ◌&&◌, ◌||◌, Option, none, some, List, [], ◌∷◌,
  ◌++◌, ltb, ◌==◌, if◌then◌else◌, or_else, is_some, length, ◌>>=◌, take, drop,
}
use easyrun.Prelude.Int.{ℤ, pos, ltb_ℤ, eqb_ℤ, quot_int, pos_part}
use easyrun.Prelude.Text.{String, str_eq}
use easyrun.Prelude.Dict.{Dict, lookup, insert, erase}
use easyrun.Types.{Job, Artifact, TaskState, running, failed}
use easyrun.Runner.Logs.{LogBroadcaster, new_log_broadcaster, write}
use easyrun.Runner.Logs.Store.{LogStore, put, retire, stdout}
use easyrun.Runner.Hop.{
  SlotManager, HopRunner, owner_of, set_owner, disown, flag, Allocation, slot_found, no_capacity,
  out_of_fuel, allocate_slot,
}

pub data RunError : Type 0 where
  containers_not_supported not_one_artifact must_be_raw no_slots stream_failed : RunError

unfoldable pub check_image : Job → Option RunError
check_image job =
    if not (str_eq job.image "") then some containers_not_supported else elim job.artifacts [
      | (a ∷ []) ↦ if str_eq a.extract "" then none else some must_be_raw
      | _ ↦ some not_one_artifact
    ]

-- The cores of an app: its shares over 1024, at least one.
unfoldable pub cores_of : ℤ → ℕ
cores_of shares =
    let cores = quot_int shares 1024 in if ltb_ℤ cores (pos 1) then 1 else pos_part cores

-- What the app runs on, the cores of its pool, and the cages to claim.
unfoldable pub shape_of : String → ℕ → ℕ × ℕ × ℕ
shape_of sharegroup cores = if str_eq sharegroup "" then (cores, 1, cores) else (1, cores, 1)

unfoldable pub claim_cages : String → ℕ → ℕ → List (ℕ × String) → List (ℕ × String)
claim_cages id slot zero m = m
claim_cages id slot (suc n) m = claim_cages id (suc slot) n (set_owner slot id m)

unfoldable pub claim_found : String → ℕ → Allocation → HopRunner → Option ℕ × HopRunner
claim_found id n (slot_found slot) r = (
  some slot,
  record r {
    in_use = claim_cages id slot n r.in_use;
    slots = insert id slot r.slots;
    starts = insert id false r.starts;
    armed = insert id false r.armed;
  },
)
claim_found id n _ r = (none, r)

-- The claim of the slots, which the source makes before it downloads a byte.
unfoldable pub claim : SlotManager → ℕ → Job → String → HopRunner → Option ℕ × HopRunner
unfolding cores_of shape_of claim_found
claim sm fuel job id r =
    let sharegroup = or_else (lookup "sharegroup" job.tags) "" in
    let (app, pool, cages) = shape_of sharegroup (cores_of job.cpu_shares) in
    let class = or_else (lookup "core-class" job.tags) "" in
    claim_found id cages (allocate_slot sm fuel class cages (not (str_eq sharegroup "")) r) r

-- Retiring the logs panics only on a broadcaster that is not safe.
unfoldable pub release : ℕ → String → HopRunner → HopRunner
release now id r = record {
  slots = erase id r.slots;
  in_use = disown id r.in_use;
  fault_logged = erase id r.fault_logged;
  stopping = erase id r.stopping;
  starts = erase id r.starts;
  armed = erase id r.armed;
  logs = or_else (retire now now id r.logs) r.logs;
}

-- How the download ended: cancelled before it had its turn, answered without an image, failed, or
-- placed on the slot.
pub data StreamEnd : Type 0 where
  turned_away stream_refused stream_error stream_placed : StreamEnd

pub data RunResult : Type 0 where
  run_started : ℕ → RunResult
  not_started : RunResult
  run_failed : RunError → RunResult

-- The deferred `cancel`: the start counts as cancelled from then on.
unfoldable pub cancel_start : String → HopRunner → HopRunner
cancel_start id r = record r {
  starts = if is_some (lookup id r.starts) then insert id true r.starts else r.starts;
}

-- `runViaStream` from the end of the download on; whether the app goes on is its first part.
unfoldable pub stream_over : ℕ → StreamEnd → String → HopRunner → Option RunResult × HopRunner
stream_over now turned_away id r = (some not_started, r)
stream_over now stream_refused id r = (some (run_failed stream_failed), release now id r)
stream_over now stream_error id r =
    if flag id r.starts
    then (some not_started, r)
    else (some (run_failed stream_failed), release now id r)
stream_over now stream_placed id r = (
  if flag id r.stopping then some not_started else none,
  record r { armed = insert id true r.armed },
)

-- The start is published unless a stop has begun or the slot has gone meanwhile.
unfoldable pub publish : String → ℕ → HopRunner → RunResult
publish id slot r =
    if flag id r.stopping || not (or_else (lookup id r.slots) 0 == slot)
    then not_started
    else run_started slot

-- Where the start goes on, it is published from the state that others have left by then.
abbrev pub publish_unless :
    Option RunResult → String → ℕ → HopRunner → HopRunner → RunResult × HopRunner
publish_unless (some result) id slot then_state r = (result, r)
publish_unless none id slot then_state r = (publish id slot then_state, then_state)

pub record StartWorld : Type 0 where
  pub fuel : ℕ
  pub now : ℕ
  pub download : StreamEnd
  -- What other calls on the runner do during the download, and before the start is published.
  pub during : HopRunner → HopRunner
  pub before_publish : HopRunner → HopRunner

unfoldable pub run_claimed : StartWorld → String → Option ℕ × HopRunner → RunResult × HopRunner
unfolding stream_over cancel_start publish
run_claimed w id (none, r) = (run_failed no_slots, r)
run_claimed w id (some slot, r) =
    let (stopped, r') = stream_over w.now w.download id (w.during r) in
    let r'' = cancel_start id r' in publish_unless stopped id slot (w.before_publish r'') r''

unfoldable pub run_checked :
    SlotManager → StartWorld → Job → String → HopRunner → Option RunError → RunResult × HopRunner
unfolding claim run_claimed
run_checked sm w job id r (some e) = (run_failed e, r)
run_checked sm w job id r none = run_claimed w id (claim sm w.fuel job id r)

unfoldable pub run_hop : SlotManager → StartWorld → Job → String → HopRunner → RunResult × HopRunner
unfolding check_image run_checked
run_hop sm w job id r = run_checked sm w job id r (check_image job)

-- `Stop` looks the slot up and marks the task, all or nothing.
unfoldable pub begin_stop : String → HopRunner → Option ℕ × HopRunner
begin_stop id r =
    let slot = lookup id r.slots in
    (slot, if is_some slot then record r { stopping = insert id true r.stopping } else r)

pub record StopWorld : Type 0 where
  pub now : ℕ
  -- Whether the download wound down in time, and whether the slot manager confirmed the stop.
  pub wound_down : Bool
  pub confirmed : Bool
  pub during : HopRunner → HopRunner

pub data StopResult : Type 0 where
  not_ours released quarantined stop_failed : StopResult

-- With the slots that the slot manager was told to stop.
unfoldable pub stop_owned : StopWorld → String → ℕ → HopRunner → StopResult × List ℕ × HopRunner
stop_owned w id slot r =
    let started = is_some (lookup id r.starts) in
    let r' = w.during (cancel_start id r) in
    if started && not w.wound_down
    then (quarantined, [], r')
    else if not started || flag id r'.armed
    then (if w.confirmed
        then (released, slot ∷ [], release w.now id r')
        else (stop_failed, slot ∷ [], r'))
    else (released, [], release w.now id r')

unfoldable pub stop_found :
    StopWorld → String → Option ℕ × HopRunner → StopResult × List ℕ × HopRunner
unfolding stop_owned
stop_found w id (none, r) = (not_ours, [], r)
stop_found w id (some slot, r) = stop_owned w id slot r

unfoldable pub stop_hop : StopWorld → String → HopRunner → StopResult × List ℕ × HopRunner
unfolding begin_stop stop_found
stop_hop w id r = stop_found w id (begin_stop id r)

unfoldable pub adopt_cages : String → ℕ → ℕ → List (ℕ × String) → List (ℕ × String)
adopt_cages id slot zero m = m
adopt_cages id slot (suc n) m =
    adopt_cages id (suc slot) n (if is_some (owner_of slot m) then m else set_owner slot id m)

-- A new broadcaster for each of the two streams.
unfoldable pub new_logs : String → LogStore → LogStore
new_logs id s =
    let i = length s.broadcasters in
    put id (some i) (some (suc i)) (record s {
      broadcasters = s.broadcasters ++ (new_log_broadcaster ∷ new_log_broadcaster ∷ []);
    })

unfoldable pub adopted_cages : ℤ → ℕ
adopted_cages cores = if ltb_ℤ cores (pos 1) then 1 else pos_part cores

unfoldable pub adopt_one : ℤ → String → ℤ → HopRunner → HopRunner
adopt_one cores id slot r =
    if ltb_ℤ slot (pos 1) || is_some (lookup id r.slots) then r else record r {
      slots = insert id (pos_part slot) r.slots;
      in_use = adopt_cages id (pos_part slot) (adopted_cages cores) r.in_use;
      logs = new_logs id r.logs;
    }

unfoldable pub adopt_running : Dict ℤ → Dict ℤ → HopRunner → HopRunner
adopt_running [] cores r = r
adopt_running ((id, slot) ∷ slots) cores r =
    adopt_running slots cores (adopt_one (or_else (lookup id cores) (pos 0)) id slot r)

abbrev slot_or_pid : Option ℕ → ℤ → ℤ
slot_or_pid none pid = pid
slot_or_pid (some slot) pid = pos slot

pub record SlotStatus : Type 0 where
  pub core_on : Bool
  -- Whether the app exited with the code 0.
  pub exited_well : Bool

-- The state of a task, and the first look at a failure, which the source writes to its console.
unfoldable pub status_hop : (ℤ → SlotStatus) → ℤ → String → HopRunner → TaskState × HopRunner
status_hop node pid id r =
    let status = node (slot_or_pid (lookup id r.slots) pid) in
    if eqb_ℤ pid (pos 0) || status.core_on
    then (running, r)
    else if status.exited_well
    then (failed, r)
    else (failed, record r { fault_logged = insert id true r.fault_logged })
