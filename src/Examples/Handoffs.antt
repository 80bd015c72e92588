-- ===== src/Examples/Handoffs.antt =====
-- The theorems about the handoff and the monitor of a node, applied.
use easyrun.Node.Handoff.{snapshot}
use easyrun.Prelude.{◌≡◌, refl, sym, Bool, true, false, [], ◌∷◌, List, some, ℕ}
use easyrun.Prelude.Int.{pos}
use easyrun.Prelude.Dict.{lookup}
use easyrun.Types.{HealthCheck}
use easyrun.Runner.Hop.{HopRunner}
use easyrun.Node.Handoff.{Handoff, Codec, snapshot_of, restore}
use easyrun.Node.Handoff.RoundTrip.{IsFaithful, IsRestored, restore-snapshot}
use easyrun.Node.Handoff.Adoption.{Knows, restore-Knows}
use easyrun.Node.Monitor.{no_checks, threshold_of}
use easyrun.Node.Monitor.Threshold.{verdicts, verdicts-trailing}
use easyrun.Examples.Data.{node, idle_node, web_task}

-- A blob that is what it stands for.
abbrev plain : Codec Handoff
plain = record { encode = λ h. some h; decode = λ b. some b; is_empty = λ b. false }

plain-IsFaithful : IsFaithful plain
plain-IsFaithful h b e = (refl, sym e)

abbrev fresh : HopRunner
fresh = record {
  slots = [];
  in_use = [];
  fault_logged = [];
  stopping = [];
  starts = [];
  armed = [];
  logs = record { live = []; retired = []; broadcasters = [] };
}

restore-snapshot_example :
    IsRestored node idle_node (some fresh) (restore plain (snapshot_of node) idle_node (some fresh))
unfolding lookup snapshot
restore-snapshot_example =
    restore-snapshot plain node idle_node (some fresh) (snapshot_of node) plain-IsFaithful
      (refl, (refl, tt)) (refl, (refl, tt)) refl

restore-Knows_example :
    Knows "w1" (pos 12) (restore plain (snapshot_of node) idle_node (some fresh)).2
unfolding lookup snapshot
restore-Knows_example =
    restore-Knows plain node idle_node fresh (snapshot_of node) "w1" web_task plain-IsFaithful
      (refl, (refl, tt)) refl refl refl refl

abbrev check : HealthCheck
check = record {
  kind = "http";
  path = "/";
  port = "";
  interval = pos 5;
  timeout = pos 1;
  initial_timeout = pos 0;
  failure_threshold = pos 0;
}

abbrev probes : List (ℕ × Bool)
probes = (1, false) ∷ (2, false) ∷ (3, true) ∷ (4, false) ∷ (5, false) ∷ (6, false) ∷ []

verdicts-trailing_example :
    ((verdicts check probes (true, no_checks)).1.fail_count ≡ 3)
    × ((verdicts check probes (true, no_checks)).0 ≡ false)
unfolding threshold_of
verdicts-trailing_example = verdicts-trailing check probes true no_checks refl
