-- ===== src/Node/Handoff/RoundTrip.antt =====
-- A snapshot of internal/agent/handoff.go, restored.
use easyrun.Prelude.{
  ◌≡◌, refl, ap, subst, ◌∙◌, Bool, true, false, Option, none, some, [], ◌∷◌, if◌then◌else◌, arith,
}
use easyrun.Prelude.Text.{String, str_eq, str_eq_iff}
use easyrun.Prelude.Dict.{Dict, lookup, insert, lookup-insert, IsUnique}
use easyrun.Runner.Hop.{HopRunner}
use easyrun.Node.State.{AgentState}
use easyrun.Node.Handoff.{
  Handoff, Codec, pointers, snapshot_of, take_over, restore_state, adopt, Restored, restore_decoded,
  snapshot, restore,
}

abbrev pub prefer : {A : Type 0} → Option A → Option A → Option A
prefer none o = o
prefer (some v) o = some v

prefer-insert :
    {A : Type 0} (same : Bool) (v : A) (o base : Option A)
    → (same ≡ true → o ≡ none)
    → prefer o (if same then some v else base) ≡ prefer (if same then some v else o) base
prefer-insert true v o base h = rw (h refl) refl
prefer-insert false v o base h = refl

-- What stands under a name after the snapshot's entries have come over what was there.
take_over-lookup :
    {A : Type 0} (j : String) (m base : Dict A)
    → IsUnique m
    → lookup j (take_over (pointers m) base) ≡ prefer (lookup j m) (lookup j base)
unfolding take_over pointers lookup
take_over-lookup j [] base u = refl
take_over-lookup j ((k, v) ∷ m) base u =
    take_over-lookup j m (insert k v base) u.1
    ∙ ap (prefer (lookup j m)) (lookup-insert k j v base)
    ∙ prefer-insert (str_eq k j) v (lookup j m) (lookup j base)
        (λ e. subst (λ i. lookup i m ≡ none) (ground (arith, e, str_eq_iff k j)) u.0)

-- The restored state against the one that was saved and the one that it came over.
abbrev pub IsRestored : AgentState → AgentState → Option HopRunner → Restored → Type 0
IsRestored s base r (some e, s', r') = ⊥
IsRestored s base r (none, s', r') =
    ((j : String) → lookup j s'.jobs ≡ prefer (lookup j s.jobs) (lookup j base.jobs))
    × ((j : String) → lookup j s'.tasks ≡ prefer (lookup j s.tasks) (lookup j base.tasks))
    × (s'.state_time ≡ base.state_time)
    × (r' ≡ adopt (snapshot_of s) r)

-- What the codec promises: a blob that it made is not empty, and decodes to what it was made of.
abbrev pub IsFaithful : {B : Type 0} → Codec B → Type 0
IsFaithful {B} codec =
    (h : Handoff) (b : B)
    → codec.encode h ≡ some b
    → (codec.is_empty b ≡ false) × (codec.decode b ≡ some h)

-- A snapshot that is restored, by an agent of the same version and with a codec that decodes what it
-- encodes: under every name stands the job and the task that the saved agent had, and under a name
-- that it had nothing for what was there before. The time of the last synchronisation stays the
-- restoring agent's own, and the runner, where there is one, adopts the slots of the saved tasks.
pub restore-snapshot :
    {B : Type 0} (codec : Codec B) (s base : AgentState) (r : Option HopRunner) (b : B)
    → IsFaithful codec
    → IsUnique s.jobs
    → IsUnique s.tasks
    → snapshot codec s ≡ some b
    → IsRestored s base r (restore codec b base r)
unfolding snapshot restore restore_decoded snapshot_of restore_state
restore-snapshot codec s base r b faithful u v e =
    let (full, decoded) = faithful (snapshot_of s) b e in
    simp (full, decoded)
      (
        λ j. take_over-lookup j s.jobs base.jobs u,
        λ j. take_over-lookup j s.tasks base.tasks v,
        refl,
        refl,
      )
