-- ===== src/Node/Monitor/Threshold.antt =====
-- When the checks of internal/agent/monitor.go give a task up.
use easyrun.Prelude.{ℕ, suc, ◌≡◌, refl, sym, Bool, true, false, List, [], ◌∷◌, arith}
use easyrun.Prelude.Int.{pos, ltb_ℤ}
use easyrun.Types.{HealthCheck}
use easyrun.Node.Monitor.{CheckState, count_check, threshold_of}

-- The checks of a task one after the other, with the verdict of the last one.
abbrev pub verdicts : HealthCheck → List (ℕ × Bool) → Bool × CheckState → Bool × CheckState
verdicts hc [] x = x
verdicts hc ((now, healthy) ∷ rest) x = verdicts hc rest (count_check hc now healthy x.1)

-- How many probes in a row have failed at the end of a list of them, after some before it.
abbrev pub trailing : ℕ → List (ℕ × Bool) → ℕ
trailing n [] = n
trailing n ((now, true) ∷ rest) = trailing 0 rest
trailing n ((now, false) ∷ rest) = trailing (suc n) rest

threshold_of_positive : (hc : HealthCheck) → ltb_ℤ (pos 0) (threshold_of hc) ≡ true
unfolding threshold_of
threshold_of_positive hc = ground arith

-- The checks of one task, from a state in which it still passes for healthy, or not, by its count:
-- after any probes the verdict is that the task is given up exactly where as many probes in a row
-- have failed, up to the last one, as the threshold says, with those counted before; a threshold
-- that is not positive is three. One probe that succeeds takes all failures back.
pub verdicts-trailing :
    (hc : HealthCheck) (probes : List (ℕ × Bool)) (ok : Bool) (cs : CheckState)
    → ok ≡ ltb_ℤ (pos cs.fail_count) (threshold_of hc)
    → ((verdicts hc probes (ok, cs)).1.fail_count ≡ trailing cs.fail_count probes)
      × ((verdicts hc probes (ok, cs)).0
          ≡ ltb_ℤ (pos (trailing cs.fail_count probes)) (threshold_of hc))
unfolding count_check
verdicts-trailing hc [] ok cs h = (refl, h)
verdicts-trailing hc ((now, true) ∷ rest) ok cs h =
    verdicts-trailing hc rest true (record cs { fail_count = 0; last_check_time = now })
      (sym (threshold_of_positive hc))
verdicts-trailing hc ((now, false) ∷ rest) ok cs h =
    verdicts-trailing hc rest (ltb_ℤ (pos (suc cs.fail_count)) (threshold_of hc))
      (record cs { fail_count = suc cs.fail_count; last_check_time = now }) refl
