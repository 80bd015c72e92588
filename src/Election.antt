-- ===== src/Election.antt =====
-- internal/agentloop/loop.go: the loop of a node that leads, or follows a leader, or looks for one.
-- What the lock store, the leader's API and the node's own leader answer is the world of a tick, and
-- what the loop has them do is its trace, newest first.
pub mod Leading
pub mod Isolation
pub mod Trace
use easyrun.Prelude.{ℕ, suc, ◌+◌, Bool, true, false, List, [], ◌∷◌, ltb, leb, if◌then◌else◌}
use easyrun.Prelude.Text.{String, str_eq}

-- `leading` says that there is a leader to stop, which comes and goes with the leader's interface.
pub record Loop : Type 0 where
  pub leading : Bool
  pub fail_count : ℕ
  pub self_beat_fails : ℕ
  pub registered : Bool
  pub last_leader_addr : String

pub data Renewal : Type 0 where
  renewed displaced store_unreachable : Renewal

pub data Beat : Type 0 where
  beat_ok beat_not_registered beat_failed : Beat

pub data Event : Type 0 where
  asked_leader claimed_lease began_leading stopped_leading released_lease stopped_all_tasks : Event
  registered_with beat_to : String → Event

pub record TickWorld : Type 0 where
  pub leader_known : String
  pub claim_wins : Bool
  pub renewal : Renewal
  pub agents : ℕ
  pub beat : Beat
  pub register_ok : Bool
  pub own_addr : String

abbrev pub Ticked : Type 0
Ticked = Loop × List Event

unfoldable pub step_down : Bool → Ticked → Ticked
step_down release (s, tr) = (
  record s { leading = false; registered = false; last_leader_addr = "" },
  if s.leading
      then (if release then released_lease ∷ stopped_leading ∷ tr else stopped_leading ∷ tr)
      else tr,
)

unfoldable pub begin_leading : Ticked → Ticked
begin_leading (s, tr) = (record s { leading = true; fail_count = 0 }, began_leading ∷ tr)

unfoldable pub become_leader_now : TickWorld → Ticked → Bool × Ticked
unfolding begin_leading
become_leader_now w (s, tr) =
    if s.leading
    then (true, (s, tr))
    else if w.claim_wins
    then (true, begin_leading (s, claimed_lease ∷ tr))
    else (false, (s, claimed_lease ∷ tr))

unfoldable pub try_take_over : TickWorld → Ticked → Ticked
unfolding begin_leading
try_take_over w (s, tr) =
    let s' : Loop = record s { last_leader_addr = "" } in
    if w.claim_wins then begin_leading (s', claimed_lease ∷ tr) else (s', claimed_lease ∷ tr)

unfoldable pub isolate : Ticked → Ticked
isolate (s, tr) =
    if leb 7 s.fail_count then (record s { fail_count = 4 }, stopped_all_tasks ∷ tr) else (s, tr)

unfoldable pub leader_failed : TickWorld → Ticked → Ticked
unfolding try_take_over isolate
leader_failed w (s, tr) =
    let s' : Loop = record s { fail_count = suc s.fail_count } in
    isolate (if leb 4 s'.fail_count then try_take_over w (s', tr) else (s', tr))

-- The heartbeat of a leader to itself.
unfoldable pub self_beat : TickWorld → Beat → Ticked → Ticked
self_beat w beat_ok (s, tr) = (record s { self_beat_fails = 0 }, beat_to w.own_addr ∷ tr)
self_beat w beat_failed (s, tr) =
    (record s { self_beat_fails = suc s.self_beat_fails }, beat_to w.own_addr ∷ tr)
self_beat w beat_not_registered (s, tr) = (
  record s { self_beat_fails = if w.register_ok then 0 else suc s.self_beat_fails },
  registered_with w.own_addr ∷ beat_to w.own_addr ∷ tr,
)

unfoldable pub lead : TickWorld → Renewal → Ticked → Ticked
unfolding step_down self_beat
lead w renewed (s, tr) = self_beat w w.beat (record s { fail_count = 0 }, tr)
lead w displaced t = step_down false t
lead w store_unreachable t = if ltb 0 w.agents then self_beat w w.beat t else step_down false t

unfoldable pub follow_beat : TickWorld → String → Beat → Ticked → Ticked
unfolding leader_failed
follow_beat w addr beat_ok (s, tr) =
    (record s { fail_count = 0; last_leader_addr = addr }, beat_to addr ∷ tr)
follow_beat w addr beat_not_registered (s, tr) =
    (record s { registered = false; last_leader_addr = "" }, beat_to addr ∷ tr)
follow_beat w addr beat_failed (s, tr) = leader_failed w (s, beat_to addr ∷ tr)

-- By whether the node is registered, and whether a registration goes through.
unfoldable pub follow_as : Bool → Bool → TickWorld → String → Ticked → Ticked
unfolding leader_failed follow_beat
follow_as true _ w addr t = follow_beat w addr w.beat t
follow_as false true w addr (s, tr) = (
  record s { registered = true; fail_count = 0; last_leader_addr = addr },
  registered_with addr ∷ tr,
)
follow_as false false w addr (s, tr) = leader_failed w (s, registered_with addr ∷ tr)

unfoldable pub follow : TickWorld → String → Ticked → Ticked
unfolding follow_as
follow w addr (s, tr) = follow_as s.registered w.register_ok w addr (s, tr)

unfoldable pub tick_as : Bool → TickWorld → String → Ticked → Ticked
unfolding lead follow leader_failed
tick_as true w addr t = lead w w.renewal t
tick_as false w addr t = if str_eq addr "" then leader_failed w t else follow w addr t

-- The cached leader, or the one that the lock store names.
unfoldable pub leader_addr : TickWorld → Loop → String
leader_addr w s = if str_eq s.last_leader_addr "" then w.leader_known else s.last_leader_addr

unfoldable pub tick : TickWorld → Ticked → Ticked
unfolding tick_as leader_addr
tick w (s, tr) =
    tick_as s.leading w (leader_addr w s)
      (s, if str_eq s.last_leader_addr "" then asked_leader ∷ tr else tr)

unfoldable pub ticks : List TickWorld → Ticked → Ticked
ticks [] t = t
ticks (w ∷ ws) t = ticks ws (tick w t)

-- `Run`: one tick at once and one an interval, until it is cancelled.
unfoldable pub run_loop : List TickWorld → Ticked → Ticked
unfolding ticks step_down
run_loop ws t = step_down true (ticks ws t)
