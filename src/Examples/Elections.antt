-- ===== src/Examples/Elections.antt =====
-- The theorems about the election loop, applied.
use easyrun.Prelude.{◌≡◌, refl, true, false, [], ◌∷◌, List, arith}
use easyrun.Election.{
  Loop, store_unreachable, beat_failed, TickWorld, leader_addr, tick, ticks, run_loop,
}
use easyrun.Election.Leading.{tick-leading}
use easyrun.Election.Isolation.{stop_count, ticks-stop_count}
use easyrun.Election.Trace.{IsOrderly, run_loop-IsOrderly}

abbrev follower : Loop
follower = record {
  leading = false;
  fail_count = 3;
  self_beat_fails = 0;
  registered = true;
  last_leader_addr = "b:8080";
}

abbrev silence : TickWorld
silence = record {
  leader_known = "";
  claim_wins = false;
  renewal = store_unreachable;
  agents = 0;
  beat = beat_failed;
  register_ok = false;
  own_addr = "a:8080";
}

abbrev wins : TickWorld
wins = record silence { claim_wins = true }

tick-leading_example : (tick wins (follower, [])).0.leading ≡ true
unfolding leader_addr
tick-leading_example = tick-leading wins follower []

abbrev night : List TickWorld
night = silence ∷ silence ∷ silence ∷ silence ∷ silence ∷ silence ∷ silence ∷ []

ticks-stop_count_example :
    ((ticks night (follower, [])).0.leading ≡ false)
    × (stop_count (ticks night (follower, [])).1 ≡ 2)
ticks-stop_count_example =
    ticks-stop_count night follower []
      (
        (refl, refl, refl),
        (
          (refl, refl, refl),
          (
            (refl, refl, refl),
            (
              (refl, refl, refl),
              ((refl, refl, refl), ((refl, refl, refl), ((refl, refl, refl), tt))),
            ),
          ),
        ),
      )
      refl (omega arith)

run_loop-IsOrderly_example :
    IsOrderly (run_loop (wins ∷ night) (follower, []))
    × ((run_loop (wins ∷ night) (follower, [])).0.leading ≡ false)
run_loop-IsOrderly_example = run_loop-IsOrderly (wins ∷ night) follower [] (refl, omega arith)
