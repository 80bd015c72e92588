-- ===== src/Runner/Logs/Run.antt =====
-- Any sequence of the calls that internal/runner/logs.go offers on one broadcaster. Each holds the
-- lock of the broadcaster, so calls that run at once are some sequence of them.
use easyrun.Prelude.{ℕ, Option, some, List, [], ◌∷◌, ◌++◌, ◌>>=◌}
use easyrun.Prelude.Text.{String}
use easyrun.Runner.Logs.{LogBroadcaster, write, subscribe, unsubscribe, close}

pub data Call : Type 0 where
  call_write : String → Call
  call_subscribe call_close : Call
  call_unsubscribe : ℕ → Call

unfoldable pub step : Call → LogBroadcaster → Option LogBroadcaster
step (call_write line) b = write line b
step call_subscribe b = some (subscribe b).1
step call_close b = close b
step (call_unsubscribe ch) b = unsubscribe ch b

unfoldable pub run : List Call → LogBroadcaster → Option LogBroadcaster
run [] b = some b
run (c ∷ cs) b = do b' ← step c b; run cs b'

abbrev pub written : Call → List String
written (call_write line) = line ∷ []
written _ = []

-- The lines of the calls, in their order.
abbrev pub all_written : List Call → List String
all_written [] = []
all_written (c ∷ cs) = written c ++ all_written cs
