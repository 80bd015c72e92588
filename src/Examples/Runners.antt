-- ===== src/Examples/Runners.antt =====
-- The theorems about the drivers, applied.
use easyrun.Runner.Logs.{close}
use easyrun.Runner.Logs.{close_channel}
use easyrun.Runner.Logs.{without_listener}
use easyrun.Runner.Logs.{unsubscribe}
use easyrun.Runner.Logs.{ring_lines}
use easyrun.Runner.Logs.{send}
use easyrun.Runner.Logs.{at_channel}
use easyrun.Runner.Logs.{subscribe}
use easyrun.Runner.Logs.{at_channels}
use easyrun.Runner.Logs.{write}
use easyrun.Runner.Logs.Run.{step}
use easyrun.Prelude.{ℕ, List, ◌≡◌, refl, true, false, ◌==◌, or_else, [], ◌∷◌, none, some, arith}
use easyrun.Prelude.Int.{pos}
use easyrun.Prelude.Text.{str_eq_iff}
use easyrun.Prelude.Dict.{lookup}
use easyrun.Types.{Job}
use easyrun.Runner.Logs.{LogBroadcaster, new_log_broadcaster, tail_lines}
use easyrun.Runner.Logs.Run.{Call, call_write, call_subscribe, call_close, call_unsubscribe, run}
use easyrun.Runner.Logs.Ring.{run-tail_lines}
use easyrun.Runner.Logs.Channels.{SafeResult, run-SafeResult}
use easyrun.Runner.Logs.Store.{LogStore, retire}
use easyrun.Runner.Logs.Store.Retention.{IsReadable, retire-IsReadable}
use easyrun.Runner.Hop.{SlotManager, HopRunner, owner_of, slot_limit, first_slot, allocate_slot}
use easyrun.Runner.Hop.FirstFit.{FirstFit, allocate_slot-FirstFit}
use easyrun.Runner.Hop.Lifecycle.{
  release, StartWorld, StopWorld, stream_placed, run_hop, adopt_running,
}
use easyrun.Runner.Hop.Lifecycle.Ownership.{IsKept, Owns, run_hop-Owns, adopt_running-Laws}
use easyrun.Examples.Data.{web}

abbrev calls : List Call
calls = call_write "one" ∷ call_subscribe ∷ call_write "two" ∷ call_unsubscribe 0 ∷ call_close ∷ []

abbrev after_calls : LogBroadcaster
after_calls = or_else (run calls new_log_broadcaster) new_log_broadcaster

run-tail_lines_example : tail_lines after_calls ≡ "one" ∷ "two" ∷ []
unfolding run step write at_channels new_log_broadcaster subscribe at_channel send ring_lines
    unsubscribe without_listener close_channel close
run-tail_lines_example = run-tail_lines calls after_calls refl

run-SafeResult_example : SafeResult (run calls new_log_broadcaster)
unfolding new_log_broadcaster
run-SafeResult_example = run-SafeResult calls new_log_broadcaster (tt, tt)

abbrev logs : LogStore
logs = record {
  live = ("w1", record { stdout = some 0; stderr = some 1; retired_at = 0 }) ∷ [];
  retired = ("w0", record { stdout = some 0; stderr = none; retired_at = 4 }) ∷ [];
  broadcasters = new_log_broadcaster ∷ new_log_broadcaster ∷ [];
}

retire-IsReadable_example : IsReadable 9 10 20 "w1" logs (retire 9 10 "w1" logs)
unfolding lookup new_log_broadcaster
retire-IsReadable_example =
    retire-IsReadable 9 10 20 "w1" logs (refl, tt) ((tt, tt), ((tt, tt), tt))
      (omega arith, omega arith) (omega arith)

-- Four cores, on the second of which something runs that the runner does not know of.
abbrev cores : SlotManager
cores = record {
  num_cores = 4;
  core_on = λ c. c == 2;
  core_class = λ c. "big";
  can_place_dedicated = none;
}

abbrev runner : HopRunner
runner = record {
  slots = ("w1", 1) ∷ [];
  in_use = (1, "w1") ∷ [];
  fault_logged = [];
  stopping = [];
  starts = ("w1", false) ∷ [];
  armed = ("w1", true) ∷ [];
  logs = logs;
}

runner-Owns : Owns runner
unfolding lookup owner_of
runner-Owns id slot h = ground (arith, h, str_eq_iff "w1" id)

allocate_slot-FirstFit_example :
    FirstFit cores "big" false runner.in_use
      (slot_limit cores "big" false 2)
      2
      (first_slot cores false)
      (allocate_slot cores 9 "big" 2 false runner)
allocate_slot-FirstFit_example =
    allocate_slot-FirstFit cores "big" 2 false runner 4 9 (omega arith) (λ c h. ground (arith, h))
      (omega arith)

abbrev start : StartWorld
start = record {
  fuel = 9;
  now = 9;
  download = stream_placed;
  during = λ r. r;
  before_publish = λ r. r;
}

abbrev app : Job
app = record web { driver = "hop"; cpu_shares = pos 2048 }

run_hop-Owns_example : Owns (run_hop cores start app "w2" runner).1
run_hop-Owns_example = run_hop-Owns cores start app "w2" runner (λ r h. h) (λ r h. h) runner-Owns

-- The start that is under way fails during the wait, and gives the slot up.
abbrev stop : StopWorld
stop = record { now = 9; wound_down = true; confirmed = true; during = release 9 "w1" }

adopt_running-Laws_example :
    Owns (adopt_running (("w3", pos 3) ∷ []) [] runner)
    × ((c : ℕ)
        → IsKept
            (owner_of c runner.in_use)
            (owner_of c (adopt_running (("w3", pos 3) ∷ []) [] runner).in_use))
    × (adopt_running (("w3", pos 3) ∷ []) [] (adopt_running (("w3", pos 3) ∷ []) [] runner)
        ≡ adopt_running (("w3", pos 3) ∷ []) [] runner)
unfolding owner_of
adopt_running-Laws_example =
    adopt_running-Laws (("w3", pos 3) ∷ []) [] runner ((λ h. refl), tt) runner-Owns
