-- ===== src/Election/Isolation.antt =====
-- What the loop of internal/agentloop/loop.go does on a node that is cut off: it stops all its tasks.
use easyrun.Prelude.{
  ℕ, suc, ◌+◌, ◌-◌, ◌/◌, ◌<◌, ◌≡◌, refl, subst, Bool, true, false, List, [], ◌∷◌, ◌==◌,
  if◌then◌else◌, arith, Bool-cases, inl, inr, length, All,
}
use easyrun.Prelude.Text.{String, str_eq}
use easyrun.Election.{
  Loop, Beat, beat_ok, beat_not_registered, beat_failed, Event, stopped_all_tasks, registered_with,
  beat_to, asked_leader, TickWorld, Ticked, try_take_over, isolate, leader_failed, follow_beat,
  follow_as, follow, tick_as, leader_addr, tick, ticks,
}

-- How often all tasks were stopped.
abbrev pub stop_count : List Event → ℕ
stop_count [] = 0
stop_count (stopped_all_tasks ∷ tr) = suc (stop_count tr)
stop_count (_ ∷ tr) = stop_count tr

-- Nothing answers in this tick: neither a leader nor the claim of the lease.
abbrev pub IsCutOff : TickWorld → Type 0
IsCutOff w = (w.claim_wins ≡ false) × (w.register_ok ≡ false) × (w.beat ≡ beat_failed)

abbrev Failed : ℕ → ℕ → Ticked → Type 0
Failed fails stops (s, tr) =
    (s.leading ≡ false)
    × (s.fail_count ≡ (if fails == 6 then 4 else suc fails))
    × (stop_count tr ≡ (if fails == 6 then suc stops else stops))

leader_failed-Failed :
    (w : TickWorld) (s : Loop) (tr : List Event)
    → s.leading ≡ false
    → s.fail_count < 7
    → w.claim_wins ≡ false
    → Failed s.fail_count (stop_count tr) (leader_failed w (s, tr))
unfolding leader_failed try_take_over isolate
leader_failed-Failed w s tr h b c = ground (arith, h, b, c)

-- The looks at the leader leave no count behind.
follow_beat-Failed :
    (w : TickWorld) (addr : String) (b : Beat) (s : Loop) (tr : List Event)
    → s.leading ≡ false
    → s.fail_count < 7
    → w.claim_wins ≡ false
    → b ≡ beat_failed
    → Failed s.fail_count (stop_count tr) (follow_beat w addr b (s, tr))
unfolding follow_beat
follow_beat-Failed w addr beat_ok s tr h b c e = ground (arith, e)
follow_beat-Failed w addr beat_not_registered s tr h b c e = ground (arith, e)
follow_beat-Failed w addr beat_failed s tr h b c e =
    leader_failed-Failed w s (beat_to addr ∷ tr) h b c

follow_as-Failed :
    (registered ok : Bool) (w : TickWorld) (addr : String) (s : Loop) (tr : List Event)
    → s.leading ≡ false
    → s.fail_count < 7
    → w.claim_wins ≡ false
    → ok ≡ false
    → w.beat ≡ beat_failed
    → Failed s.fail_count (stop_count tr) (follow_as registered ok w addr (s, tr))
unfolding follow_as
follow_as-Failed true ok w addr s tr h b c d e = follow_beat-Failed w addr w.beat s tr h b c e
follow_as-Failed false true w addr s tr h b c d e = ground (arith, d)
follow_as-Failed false false w addr s tr h b c d e =
    leader_failed-Failed w s (registered_with addr ∷ tr) h b c

tick_as-Failed :
    (leading : Bool) (w : TickWorld) (addr : String) (s : Loop) (tr : List Event)
    → leading ≡ false
    → s.leading ≡ false
    → s.fail_count < 7
    → IsCutOff w
    → Failed s.fail_count (stop_count tr) (tick_as leading w addr (s, tr))
unfolding tick_as follow
tick_as-Failed true w addr s tr l h b c = ground (arith, l)
tick_as-Failed false w addr s tr l h b (c, d, e) = elim (Bool-cases (str_eq addr "")) [
  | inl f ↦ simp f (leader_failed-Failed w s tr h b c)
  | inr f ↦ simp f (follow_as-Failed s.registered w.register_ok w addr s tr h b c d e)
]

stop_count-asked :
    (b : Bool) (tr : List Event) → stop_count (if b then asked_leader ∷ tr else tr) ≡ stop_count tr
stop_count-asked true tr = refl
stop_count-asked false tr = refl

tick-Failed :
    (w : TickWorld) (s : Loop) (tr : List Event)
    → s.leading ≡ false
    → s.fail_count < 7
    → IsCutOff w
    → Failed s.fail_count (stop_count tr) (tick w (s, tr))
unfolding tick
tick-Failed w s tr h b c =
    let asked = str_eq s.last_leader_addr "" in
    subst (λ n. Failed s.fail_count n (tick w (s, tr))) (stop_count-asked asked tr)
      (tick_as-Failed s.leading w (leader_addr w s) s (if asked then asked_leader ∷ tr else tr) h h
        b c)

-- A node that does not lead and is cut off for some ticks on end, so that no leader answers it and it
-- wins no claim: it goes on not leading, all its tasks are stopped at the seventh failure in a row
-- and at every third one after that, and at no other moment (SEQUENCES.md, CHAOS.md and
-- docs/architecture.md say the sixth).
pub ticks-stop_count :
    (ws : List TickWorld) (s : Loop) (tr : List Event)
    → All IsCutOff ws
    → s.leading ≡ false
    → s.fail_count < 7
    → ((ticks ws (s, tr)).0.leading ≡ false)
      × (stop_count (ticks ws (s, tr)).1 ≡ stop_count tr + (s.fail_count + length ws - 4) / 3)
unfolding ticks
ticks-stop_count [] s tr c h b = (h, omega (arith, b))
ticks-stop_count (w ∷ ws) s tr c h b =
    let (s', tr') = tick w (s, tr) in
    let (h', f, g) = tick-Failed w s tr h b c.0 in
    let (k, l) = ticks-stop_count ws s' tr' c.1 h' (ground (arith, f, b)) in
    (k, ground (arith, l, f, g, b))
