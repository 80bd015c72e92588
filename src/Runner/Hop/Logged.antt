-- ===== src/Runner/Hop/Logged.antt =====
-- `Run` of internal/runner/hopos.go: a start whose failure lands in the log of the task. The text of
-- the failure is a parameter.
use easyrun.Prelude.{ℕ, zero, suc, Option, none, some, List, [], ◌∷◌, or_else, ◌>>=◌}
use easyrun.Prelude.Text.{String}
use easyrun.Types.{Job}
use easyrun.Runner.Logs.{LogBroadcaster, write}
use easyrun.Runner.Logs.Store.{LogStore, stdout, retire}
use easyrun.Runner.Hop.{SlotManager, HopRunner}
use easyrun.Runner.Hop.Lifecycle.{StartWorld, RunError, RunResult, run_failed, run_hop, new_logs}

unfoldable pub write_at : ℕ → String → List LogBroadcaster → Option (List LogBroadcaster)
write_at i line [] = none
write_at zero line (b ∷ bs) = do b' ← write line b; some (b' ∷ bs)
write_at (suc i) line (b ∷ bs) = do bs' ← write_at i line bs; some (b ∷ bs')

-- A task whose logs are not there gets new ones.
unfoldable pub ensure_logs : ℕ → String → LogStore → LogStore
ensure_logs now id s = elim (stdout now id s) [ none ↦ new_logs id s | some _ ↦ s ]

unfoldable pub log_line : Option ℕ → String → LogStore → LogStore
log_line none line s = s
log_line (some i) line s = record s {
  broadcasters = or_else (write_at i line s.broadcasters) s.broadcasters;
}

-- The broadcaster of the failure is the one that was there before the start.
unfoldable pub note_failure :
    (RunError → String) → ℕ → String → Option ℕ → RunResult × HopRunner → RunResult × HopRunner
unfolding log_line
note_failure text now id out (run_failed e, r) =
    let logs = log_line out (text e) r.logs in
    (run_failed e, record r { logs = or_else (retire now now id logs) logs })
note_failure text now id out (result, r) = (result, r)

unfoldable pub run_task :
    (RunError → String)
    → SlotManager
    → StartWorld
    → Job
    → String
    → HopRunner
    → RunResult × HopRunner
unfolding ensure_logs note_failure
run_task text sm w job id r =
    let logs = ensure_logs w.now id r.logs in
    note_failure text w.now id (stdout w.now id logs)
      (run_hop sm w job id (record r { logs = logs }))
