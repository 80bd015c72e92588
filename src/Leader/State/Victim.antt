-- ===== src/Leader/State/Victim.antt =====
-- findVictim of internal/leader/dispatch.go.
use easyrun.Prelude.{
  ℕ, ◌<◌, ◌≡◌, refl, sym, ap, ◌∙◌, ◌⊎◌, inl, inr, [], ◌∷◌, Option, none, some, arith, ltb,
  if◌then◌else◌, Bool-cases, Option-cases, All,
}
use easyrun.Prelude.Int.{ℤ, ltb_ℤ, ◌<ℤ◌, ◌≤ℤ◌}
use easyrun.Prelude.Text.{String}
use easyrun.Types.{Job}
use easyrun.Leader.State.{
  Counts, LeaderState, counts_of, effective_priority, pick_victim, find_victim,
}

-- No job that stands in the counts is less important than the bound.
abbrev pub AtMost : (String → Option Job) → ℤ → Counts → Type 0
AtMost find bound =
    All (λ e. 0 < e.1 → (j : Job) → find e.0 ≡ some j → effective_priority j.priority ≤ℤ bound)

-- One of the counts is of this job, and positive.
abbrev pub IsPlaced : (String → Option Job) → Job → Counts → Type 0
IsPlaced find j [] = ⊥
IsPlaced find j ((name, count) ∷ m) = ((0 < count) × (find name ≡ some j)) ⊎ IsPlaced find j m

-- What the loop has found so far, when it ends.
pub record Picks (find : String → Option Job) (m : Counts) (best best' : Option Job × ℤ)
    : Type 0 where
  pub grown : best.1 ≤ℤ best'.1
  pub bounded : AtMost find best'.1 m
  pub picked :
      (best' ≡ best)
      ⊎ ((j : Job) × (best'.0 ≡ some j)
          × IsPlaced find j m
          × (effective_priority j.priority ≡ best'.1)
          × (best.1 <ℤ best'.1))

-- The choice that one count makes.
abbrev choice : (String → Option Job) → String × ℕ → Option Job × ℤ → Option Job × ℤ
choice find (name, count) best =
    if ltb 0 count
    then elim (find name) [
      | none ↦ best
      | some j ↦
          if ltb_ℤ best.1 (effective_priority j.priority)
          then (some j, effective_priority j.priority)
          else best
    ]
    else best

choice_cases :
    (find : String → Option Job) (name : String) (count : ℕ) (best : Option Job × ℤ)
    → (best.1 ≤ℤ (choice find (name, count) best).1)
      × (0 < count
          → (j : Job) → find name ≡ some j
          → effective_priority j.priority ≤ℤ (choice find (name, count) best).1)
      × ((choice find (name, count) best ≡ best)
          ⊎ ((j : Job) × ((choice find (name, count) best).0 ≡ some j)
              × (0 < count)
              × (find name ≡ some j)
              × (effective_priority j.priority ≡ (choice find (name, count) best).1)
              × (best.1 <ℤ (choice find (name, count) best).1)))
choice_cases find name count best = elim (Bool-cases (ltb 0 count)) [
  | inr zero_ ↦ simp zero_ (omega arith, (λ h j e. absurd (ground arith)), inl refl)
  | inl placed ↦ elim (Option-cases (find name)) [
    | inl e ↦ simp (placed, e) (omega arith, (λ h j f. cc), inl refl)
    | inr (v, e) ↦ elim (Bool-cases (ltb_ℤ best.1 (effective_priority v.priority))) [
      | inl worse ↦
          simp (placed, e, worse)
            (
              ground arith,
              (λ h j f. ground arith),
              inr (v, refl, ground arith, refl, refl, ground arith),
            )
      | inr fine ↦ simp (placed, e, fine) (omega arith, (λ h j f. ground arith), inl refl)
    ]
  ]
]

pick_victim-Picks :
    (find : String → Option Job) (m : Counts) (best : Option Job × ℤ)
    → Picks find m best (pick_victim find m best)
unfolding pick_victim
pick_victim-Picks find [] best = record { grown = omega arith; bounded = tt; picked = inl refl }
pick_victim-Picks find ((name, count) ∷ m) best =
    let now = choice find (name, count) best in
    let (grew, seen, from) = choice_cases find name count best in
    let rest = pick_victim-Picks find m now in
    record {
      grown = omega (arith, grew, rest.grown);
      bounded = ((λ h j e. omega (arith, seen h j e, rest.grown)), rest.bounded);
      picked = elim rest.picked [
        | inr (j, e, p, v, l) ↦ inr (j, e, inr p, v, omega (arith, grew, l))
        | inl same ↦ elim from [
          | inl kept ↦ inl (same ∙ kept)
          | inr (j, e, h, f, v, l) ↦
              inr (j, ap (λ b. b.0) same ∙ e, inl (h, f), v ∙ sym (ap (λ b. b.1) same), rw same l)
        ]
      ];
    }

-- The victim on an agent is a job that is placed there and strictly less important than the one
-- that needs room, and none that is placed there is less important than it. If there is no victim,
-- no job that is placed there is less important than the one that needs room.
pub find_victim_lem :
    (find : String → Option Job) (id : String) (priority : Option ℤ) (s : LeaderState)
    → ((find_victim find id priority s ≡ none)
        × AtMost find (effective_priority priority) (counts_of id s))
      ⊎ ((v : Job) × (find_victim find id priority s ≡ some v)
          × IsPlaced find v (counts_of id s)
          × (effective_priority priority <ℤ effective_priority v.priority)
          × AtMost find (effective_priority v.priority) (counts_of id s))
unfolding find_victim
find_victim_lem find id priority s =
    let p = pick_victim-Picks find (counts_of id s) (none, effective_priority priority) in
    elim p.picked [
      | inl same ↦ inl (ap (λ b. b.0) same, rw same at p.bounded)
      | inr (v, e, placed, value, less) ↦ inr (v, e, placed, rw value less, rw value p.bounded)
    ]
