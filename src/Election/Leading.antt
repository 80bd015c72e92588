-- ===== src/Election/Leading.antt =====
-- When a node of internal/agentloop/loop.go leads.
use easyrun.Prelude.{
  ◌≡◌, refl, ◌∙◌, Bool, true, false, not, ◌&&◌, ◌||◌, List, ◌∷◌, ltb, leb, if◌then◌else◌, arith,
  Bool-cases, inl, inr,
}
use easyrun.Prelude.Text.{String, str_eq}
use easyrun.Election.{
  Loop, Renewal, renewed, displaced, store_unreachable, Beat, beat_ok, beat_not_registered,
  beat_failed, Event, asked_leader, registered_with, beat_to, TickWorld, step_down, begin_leading,
  try_take_over, isolate, leader_failed, self_beat, lead, follow_beat, follow_as, follow, tick_as,
  leader_addr, tick,
}

-- Whether a leader stays one.
abbrev pub stays : TickWorld → Renewal → Bool
stays w renewed = true
stays w displaced = false
stays w store_unreachable = ltb 0 w.agents

abbrev pub is_failed : Beat → Bool
is_failed beat_failed = true
is_failed _ = false

-- Whether a follower finds no leader that answers.
abbrev pub lacks_leader : TickWorld → Loop → Bool
lacks_leader w s =
    str_eq (leader_addr w s) "" || (if s.registered then is_failed w.beat else not w.register_ok)

leader_failed-leading :
    (w : TickWorld) (s : Loop) (tr : List Event)
    → s.leading ≡ false
    → (leader_failed w (s, tr)).0.leading ≡ (leb 3 s.fail_count && w.claim_wins)
unfolding leader_failed try_take_over begin_leading isolate
leader_failed-leading w s tr h = ground (arith, h)

self_beat-leading :
    (w : TickWorld) (b : Beat) (s : Loop) (tr : List Event)
    → (self_beat w b (s, tr)).0.leading ≡ s.leading
unfolding self_beat
self_beat-leading w beat_ok s tr = refl
self_beat-leading w beat_not_registered s tr = refl
self_beat-leading w beat_failed s tr = refl

lead-leading :
    (w : TickWorld) (r : Renewal) (s : Loop) (tr : List Event)
    → s.leading ≡ true
    → (lead w r (s, tr)).0.leading ≡ stays w r
unfolding lead step_down
lead-leading w renewed s tr h = self_beat-leading w w.beat (record s { fail_count = 0 }) tr ∙ h
lead-leading w displaced s tr h = refl
lead-leading w store_unreachable s tr h = elim (Bool-cases (ltb 0 w.agents)) [
  | inl e ↦ simp e (self_beat-leading w w.beat s tr ∙ h)
  | inr e ↦ simp e refl
]

follow_beat-leading :
    (w : TickWorld) (addr : String) (b : Beat) (s : Loop) (tr : List Event)
    → s.leading ≡ false
    → (follow_beat w addr b (s, tr)).0.leading ≡ (is_failed b && leb 3 s.fail_count && w.claim_wins)
unfolding follow_beat
follow_beat-leading w addr beat_ok s tr h = h
follow_beat-leading w addr beat_not_registered s tr h = h
follow_beat-leading w addr beat_failed s tr h = leader_failed-leading w s (beat_to addr ∷ tr) h

follow_as-leading :
    (registered ok : Bool) (w : TickWorld) (addr : String) (s : Loop) (tr : List Event)
    → s.leading ≡ false
    → (follow_as registered ok w addr (s, tr)).0.leading
      ≡ ((if registered then is_failed w.beat else not ok) && leb 3 s.fail_count && w.claim_wins)
unfolding follow_as
follow_as-leading true ok w addr s tr h = follow_beat-leading w addr w.beat s tr h
follow_as-leading false true w addr s tr h = h
follow_as-leading false false w addr s tr h =
    leader_failed-leading w s (registered_with addr ∷ tr) h

tick_as-leading :
    (leading : Bool) (w : TickWorld) (s : Loop) (tr : List Event)
    → s.leading ≡ leading
    → (tick_as leading w (leader_addr w s) (s, tr)).0.leading ≡ (
        if leading
        then stays w w.renewal
        else lacks_leader w s && leb 3 s.fail_count && w.claim_wins)
unfolding tick_as follow
tick_as-leading true w s tr h = lead-leading w w.renewal s tr h
tick_as-leading false w s tr h = elim (Bool-cases (str_eq (leader_addr w s) "")) [
  | inl f ↦ simp f (leader_failed-leading w s tr h)
  | inr f ↦ simp f (follow_as-leading s.registered w.register_ok w (leader_addr w s) s tr h)
]

-- A tick of a leader leaves it a leader exactly where the lease was renewed, or where the lock store
-- is out of reach while it still sees agents: another node's lease ends its lead at once, whatever
-- agents there are. A tick of a follower makes it a leader exactly where no leader answers, at least
-- three failures were counted before, so that this is the fourth one at least, and its claim of the
-- lease goes through.
pub tick-leading :
    (w : TickWorld) (s : Loop) (tr : List Event)
    → (tick w (s, tr)).0.leading ≡ (
        if s.leading
        then stays w w.renewal
        else lacks_leader w s && leb 3 s.fail_count && w.claim_wins)
unfolding tick
tick-leading w s tr =
    tick_as-leading s.leading w s (if str_eq s.last_leader_addr "" then asked_leader ∷ tr else tr)
      refl
