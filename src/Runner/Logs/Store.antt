-- ===== src/Runner/Logs/Store.antt =====
-- logStore of internal/runner/logs.go. The broadcasters stand in one heap, since the drivers write
-- to the ones that the store hands out.
pub mod Retention
use easyrun.Prelude.{
  ℕ, ◌-◌, ◌*◌, Bool, true, false, Option, none, some, List, leb, if◌then◌else◌, ◌>>=◌, [], ◌∷◌,
  zero, suc,
}
use easyrun.Prelude.Text.{String}
use easyrun.Prelude.Dict.{Dict, lookup, insert, erase}
use easyrun.Runner.Logs.{LogBroadcaster, close}

abbrev pub log_retention : ℕ
log_retention = 5 * 60000000000

-- `retired_at` is read of retired pairs only.
pub record LogPair : Type 0 where
  pub stdout : Option ℕ
  pub stderr : Option ℕ
  pub retired_at : ℕ

pub record LogStore : Type 0 where
  pub live : Dict LogPair
  pub retired : Dict LogPair
  pub broadcasters : List LogBroadcaster

unfoldable pub put : String → Option ℕ → Option ℕ → LogStore → LogStore
put id out err s = record s {
  live = insert id (record { stdout = out; stderr = err; retired_at = 0 }) s.live;
  retired = erase id s.retired;
}

unfoldable pub close_broadcaster : ℕ → List LogBroadcaster → Option (List LogBroadcaster)
close_broadcaster i [] = none
close_broadcaster zero (b ∷ bs) = do b' ← close b; some (b' ∷ bs)
close_broadcaster (suc i) (b ∷ bs) = do bs' ← close_broadcaster i bs; some (b ∷ bs')

unfoldable pub close_stream : Option ℕ → List LogBroadcaster → Option (List LogBroadcaster)
close_stream none bs = some bs
close_stream (some i) bs = close_broadcaster i bs

unfoldable pub prune_retired : ℕ → Dict LogPair → Dict LogPair
prune_retired now [] = []
prune_retired now ((id, p) ∷ m) =
    if leb (now - p.retired_at) log_retention
    then (id, p) ∷ prune_retired now m
    else prune_retired now m

unfoldable pub retire_pair : ℕ → String → LogStore → Option LogPair → Option LogStore
retire_pair now id s none = some s
retire_pair now id s (some p) = do
  bs ← close_stream p.stdout s.broadcasters
  bs' ← close_stream p.stderr bs
  some (record {
    live = erase id s.live;
    retired = insert id (record p { retired_at = now }) s.retired;
    broadcasters = bs';
  })

unfoldable pub retire : ℕ → ℕ → String → LogStore → Option LogStore
retire now later id s = do
  s' ← retire_pair now id s (lookup id s.live)
  some (record s' { retired = prune_retired later s'.retired })

unfoldable pub retired_pair : ℕ → Option LogPair → Option LogPair
retired_pair now none = none
retired_pair now (some p) = if leb (now - p.retired_at) log_retention then some p else none

abbrev pub first_of : Option LogPair → Option LogPair → Option LogPair
first_of none o = o
first_of (some p) o = some p

unfoldable pub lookup_logs : ℕ → String → LogStore → Option LogPair
lookup_logs now id s = first_of (lookup id s.live) (retired_pair now (lookup id s.retired))

unfoldable pub stdout_of : Option LogPair → Option ℕ
stdout_of none = none
stdout_of (some p) = p.stdout

unfoldable pub stderr_of : Option LogPair → Option ℕ
stderr_of none = none
stderr_of (some p) = p.stderr

unfoldable pub stdout : ℕ → String → LogStore → Option ℕ
stdout now id s = stdout_of (lookup_logs now id s)

unfoldable pub stderr : ℕ → String → LogStore → Option ℕ
stderr now id s = stderr_of (lookup_logs now id s)
