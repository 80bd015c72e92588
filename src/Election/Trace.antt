-- ===== src/Election/Trace.antt =====
-- In which order the loop of internal/agentloop/loop.go starts and stops its leader and gives the
-- lease back.
use easyrun.Prelude.{
  ◌<◌, ◌≡◌, refl, Bool, true, false, Option, none, some, List, [], ◌∷◌, ltb, if◌then◌else◌, arith,
  Bool-cases, inl, inr,
}
use easyrun.Prelude.Text.{String, str_eq}
use easyrun.Election.{
  Loop, Beat, beat_ok, beat_not_registered, beat_failed, Event, asked_leader, began_leading,
  stopped_leading, released_lease, registered_with, beat_to, Renewal, renewed, displaced,
  store_unreachable, TickWorld, Ticked, step_down, begin_leading, try_take_over, isolate,
  leader_failed, self_beat, lead, follow_beat, follow_as, follow, tick_as, leader_addr, tick, ticks,
  run_loop,
}

abbrev pub just_stopped : List Event → Option Bool
just_stopped (stopped_leading ∷ tr) = some false
just_stopped _ = none

abbrev pub began : Option Bool → Option Bool
began (some false) = some true
began _ = none

abbrev pub stopped : Option Bool → Option Bool
stopped (some true) = some false
stopped _ = none

-- Whether the node leads after a trace, or `none` for one that starts a second leader, stops one that
-- is not there, or releases the lease at another moment than right after stopping the leader.
abbrev pub leads_after : List Event → Option Bool
leads_after [] = some false
leads_after (began_leading ∷ tr) = began (leads_after tr)
leads_after (stopped_leading ∷ tr) = stopped (leads_after tr)
leads_after (released_lease ∷ tr) = elim (leads_after tr) [ none ↦ none | some _ ↦ just_stopped tr ]
leads_after (_ ∷ tr) = leads_after tr

-- The trace is in order and ends in the state's role, and the failures counted are fewer than seven.
abbrev pub IsOrderly : Ticked → Type 0
IsOrderly (s, tr) = (leads_after tr ≡ some s.leading) × (s.fail_count < 7)

step_down-IsOrderly :
    (release : Bool) (s : Loop) (tr : List Event)
    → IsOrderly (s, tr)
    → IsOrderly (step_down release (s, tr))
unfolding step_down
step_down-IsOrderly release s tr (h, b) = (ground (arith, h), b)

leader_failed-IsOrderly :
    (w : TickWorld) (s : Loop) (tr : List Event)
    → s.leading ≡ false
    → IsOrderly (s, tr)
    → IsOrderly (leader_failed w (s, tr))
unfolding leader_failed try_take_over begin_leading isolate
leader_failed-IsOrderly w s tr l (h, b) = ground (arith, l, h, b)

self_beat-IsOrderly :
    (w : TickWorld) (b : Beat) (s : Loop) (tr : List Event)
    → IsOrderly (s, tr)
    → IsOrderly (self_beat w b (s, tr))
unfolding self_beat
self_beat-IsOrderly w beat_ok s tr h = h
self_beat-IsOrderly w beat_not_registered s tr h = h
self_beat-IsOrderly w beat_failed s tr h = h

lead-IsOrderly :
    (w : TickWorld) (r : Renewal) (s : Loop) (tr : List Event)
    → IsOrderly (s, tr)
    → IsOrderly (lead w r (s, tr))
unfolding lead
lead-IsOrderly w renewed s tr h =
    self_beat-IsOrderly w w.beat (record s { fail_count = 0 }) tr (h.0, omega arith)
lead-IsOrderly w displaced s tr h = step_down-IsOrderly false s tr h
lead-IsOrderly w store_unreachable s tr h = elim (Bool-cases (ltb 0 w.agents)) [
  | inl e ↦ simp e (self_beat-IsOrderly w w.beat s tr h)
  | inr e ↦ simp e (step_down-IsOrderly false s tr h)
]

follow_beat-IsOrderly :
    (w : TickWorld) (addr : String) (b : Beat) (s : Loop) (tr : List Event)
    → s.leading ≡ false
    → IsOrderly (s, tr)
    → IsOrderly (follow_beat w addr b (s, tr))
unfolding follow_beat
follow_beat-IsOrderly w addr beat_ok s tr l h = (h.0, omega arith)
follow_beat-IsOrderly w addr beat_not_registered s tr l h = h
follow_beat-IsOrderly w addr beat_failed s tr l h =
    leader_failed-IsOrderly w s (beat_to addr ∷ tr) l h

follow_as-IsOrderly :
    (registered ok : Bool) (w : TickWorld) (addr : String) (s : Loop) (tr : List Event)
    → s.leading ≡ false
    → IsOrderly (s, tr)
    → IsOrderly (follow_as registered ok w addr (s, tr))
unfolding follow_as
follow_as-IsOrderly true ok w addr s tr l h = follow_beat-IsOrderly w addr w.beat s tr l h
follow_as-IsOrderly false true w addr s tr l h = (h.0, omega arith)
follow_as-IsOrderly false false w addr s tr l h =
    leader_failed-IsOrderly w s (registered_with addr ∷ tr) l h

tick_as-IsOrderly :
    (leading : Bool) (w : TickWorld) (addr : String) (s : Loop) (tr : List Event)
    → s.leading ≡ leading
    → IsOrderly (s, tr)
    → IsOrderly (tick_as leading w addr (s, tr))
unfolding tick_as follow
tick_as-IsOrderly true w addr s tr l h = lead-IsOrderly w w.renewal s tr h
tick_as-IsOrderly false w addr s tr l h = elim (Bool-cases (str_eq addr "")) [
  | inl e ↦ simp e (leader_failed-IsOrderly w s tr l h)
  | inr e ↦ simp e (follow_as-IsOrderly s.registered w.register_ok w addr s tr l h)
]

asked-IsOrderly :
    (b : Bool) (s : Loop) (tr : List Event)
    → IsOrderly (s, tr)
    → IsOrderly (s, (if b then asked_leader ∷ tr else tr))
asked-IsOrderly true s tr h = h
asked-IsOrderly false s tr h = h

tick-IsOrderly :
    (w : TickWorld) (s : Loop) (tr : List Event) → IsOrderly (s, tr) → IsOrderly (tick w (s, tr))
unfolding tick
tick-IsOrderly w s tr h =
    let asked = str_eq s.last_leader_addr "" in
    tick_as-IsOrderly s.leading w (leader_addr w s) s (if asked then asked_leader ∷ tr else tr) refl
      (asked-IsOrderly asked s tr h)

ticks-IsOrderly :
    (ws : List TickWorld) (s : Loop) (tr : List Event)
    → IsOrderly (s, tr)
    → IsOrderly (ticks ws (s, tr))
unfolding ticks
ticks-IsOrderly [] s tr h = h
ticks-IsOrderly (w ∷ ws) s tr h =
    let (s', tr') = tick w (s, tr) in ticks-IsOrderly ws s' tr' (tick-IsOrderly w s tr h)

-- The loop, from an orderly state on and whatever the world answers in its ticks, until it is
-- cancelled: at the end it does not lead. It has never started a leader beside one that it ran, nor
-- stopped one that it did not run, and has given the lease back only right after having stopped the
-- leader. The failures counted are always fewer than seven.
pub run_loop-IsOrderly :
    (ws : List TickWorld) (s : Loop) (tr : List Event)
    → IsOrderly (s, tr)
    → IsOrderly (run_loop ws (s, tr)) × ((run_loop ws (s, tr)).0.leading ≡ false)
unfolding run_loop step_down
run_loop-IsOrderly ws s tr h =
    let (s', tr') = ticks ws (s, tr) in
    (step_down-IsOrderly true s' tr' (ticks-IsOrderly ws s tr h), refl)
