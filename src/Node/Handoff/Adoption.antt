-- ===== src/Node/Handoff/Adoption.antt =====
-- The slots that a restored agent of internal/agent/handoff.go hands to its runner, which can then
-- stop the tasks that ran on.
use easyrun.Prelude.{
  ℕ, ◌≡◌, refl, sym, ap, subst, ◌∙◌, false, ◌||◌, Option, none, some, [], ◌∷◌, if◌then◌else◌, arith,
  Bool-cases, inl, inr, or_else, is_some,
}
use easyrun.Prelude.Int.{ℤ, pos, ltb_ℤ, pos_part}
use easyrun.Prelude.Text.{String, str_eq, str_eq_iff, str_eq_refl}
use easyrun.Prelude.Dict.{Dict, lookup, lookup-insert, IsUnique}
use easyrun.Types.{Task}
use easyrun.Node.State.{AgentState}
use easyrun.Runner.Hop.{HopRunner}
use easyrun.Runner.Hop.Lifecycle.{adopt_one, adopt_running}
use easyrun.Node.Handoff.{
  Codec, pointers, snapshot_of, held_slots, held_cores, adopt, restore_decoded, snapshot, restore,
}
use easyrun.Node.Handoff.RoundTrip.{IsFaithful}

adopt_one-lookup :
    (cores : ℤ) (id i : String) (slot : ℤ) (r : HopRunner)
    → lookup i (adopt_one cores id slot r).slots ≡ (
        if ltb_ℤ slot (pos 1) || is_some (lookup id r.slots)
        then lookup i r.slots
        else if str_eq id i
        then some (pos_part slot)
        else lookup i r.slots)
unfolding adopt_one
adopt_one-lookup cores id i slot r =
    elim (Bool-cases (ltb_ℤ slot (pos 1) || is_some (lookup id r.slots))) [
      | inl e ↦ simp e refl
      | inr e ↦ simp e (lookup-insert id i (pos_part slot) r.slots)
    ]

-- A task that is not among those adopted keeps what the runner knows of it.
adopt_running-other :
    (slots cores : Dict ℤ) (r : HopRunner) (id : String) (o : Option ℕ)
    → lookup id slots ≡ none
    → lookup id r.slots ≡ o
    → lookup id (adopt_running slots cores r).slots ≡ o
unfolding adopt_running lookup
adopt_running-other [] cores r id o h e = e
adopt_running-other ((j, slot) ∷ slots) cores r id o h e =
    let n = or_else (lookup j cores) (pos 0) in
    elim (Bool-cases (str_eq j id)) [
      | inl same ↦ ground (arith, h, same)
      | inr other ↦
          adopt_running-other slots cores (adopt_one n j slot r) id o (ground (arith, h, other))
            (ground (arith, e, other, adopt_one-lookup n j id slot r))
    ]

adopt_running_self :
    (slots cores : Dict ℤ) (r : HopRunner) (id : String) (p : ℤ)
    → IsUnique slots
    → lookup id slots ≡ some p
    → ltb_ℤ p (pos 1) ≡ false
    → lookup id r.slots ≡ none
    → lookup id (adopt_running slots cores r).slots ≡ some (pos_part p)
unfolding adopt_running lookup
adopt_running_self [] cores r id p u h l e = ground (arith, h)
adopt_running_self ((j, slot) ∷ slots) cores r id p u h l e =
    let n = or_else (lookup j cores) (pos 0) in
    elim (Bool-cases (str_eq j id)) [
      | inl same ↦
          let j_id : j ≡ id = ground (arith, same, str_eq_iff j id) in
          let slot_p : slot ≡ p = ground (arith, h, same) in
          adopt_running-other slots cores (adopt_one n j slot r) id (some (pos_part p))
            (subst (λ i. lookup i slots ≡ none) j_id u.0)
            (adopt_one-lookup n j id slot r ∙ rw (j_id, slot_p, l, e, str_eq_refl id) refl)
      | inr other ↦
          adopt_running_self slots cores (adopt_one n j slot r) id p u.1 (ground (arith, h, other))
            l (ground (arith, e, other, adopt_one-lookup n j id slot r))
    ]

held_slots-lookup :
    (id : String) (m : Dict Task) (t : Task)
    → lookup id m ≡ some t
    → ltb_ℤ t.pid (pos 1) ≡ false
    → lookup id (held_slots (pointers m)) ≡ some t.pid
unfolding held_slots pointers lookup
held_slots-lookup id [] t h l = ground (arith, h)
held_slots-lookup id ((k, v) ∷ m) t h l = elim (Bool-cases (str_eq k id)) [
  | inl e ↦
      let same : v ≡ t = ground (arith, h, e) in
      ground (arith, e, subst (λ x. ltb_ℤ x.pid (pos 1) ≡ false) (sym same) l, ap (λ x. x.pid) same)
  | inr e ↦ ground (arith, h, e, held_slots-lookup id m t)
]

held_slots-lookup-none :
    (id : String) (m : Dict Task) → lookup id m ≡ none → lookup id (held_slots (pointers m)) ≡ none
unfolding held_slots pointers lookup
held_slots-lookup-none id [] h = refl
held_slots-lookup-none id ((k, v) ∷ m) h = ground (arith, h, held_slots-lookup-none id m)

held_slots-IsUnique : (m : Dict Task) → IsUnique m → IsUnique (held_slots (pointers m))
unfolding held_slots pointers
held_slots-IsUnique [] u = tt
held_slots-IsUnique ((k, v) ∷ m) u = elim (Bool-cases (ltb_ℤ v.pid (pos 1))) [
  | inl e ↦ simp e (held_slots-IsUnique m u.1)
  | inr e ↦ simp e (held_slots-lookup-none k m u.0, held_slots-IsUnique m u.1)
]

abbrev pub Knows : String → ℤ → Option HopRunner → Type 0
Knows id pid none = ⊥
Knows id pid (some r) = lookup id r.slots ≡ some (pos_part pid)

-- After a snapshot is restored by an agent whose runner has not heard of a task, the runner knows the
-- task's slot, whatever state the task was in, as long as the task had a slot at all: a stop of it
-- will find what to stop.
pub restore-Knows :
    {B : Type 0} (codec : Codec B) (s base : AgentState) (r : HopRunner) (b : B) (id : String)
    (t : Task)
    → IsFaithful codec
    → IsUnique s.tasks
    → snapshot codec s ≡ some b
    → lookup id s.tasks ≡ some t
    → ltb_ℤ t.pid (pos 1) ≡ false
    → lookup id r.slots ≡ none
    → Knows id t.pid (restore codec b base (some r)).2
unfolding snapshot restore restore_decoded snapshot_of adopt
restore-Knows codec s base r b id t faithful u e h l fresh =
    let (full, decoded) = faithful (snapshot_of s) b e in
    simp (full, decoded)
      (adopt_running_self (held_slots (pointers s.tasks)) (held_cores (pointers s.tasks)) r id t.pid
        (held_slots-IsUnique s.tasks u) (held_slots-lookup id s.tasks t h l) l fresh)
