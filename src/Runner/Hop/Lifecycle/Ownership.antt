-- ===== src/Runner/Hop/Lifecycle/Ownership.antt =====
-- Who may stop what in internal/runner/hopos.go: the slot of a task that the runner knows is the
-- task's own.
use easyrun.Prelude.{
  ℕ, zero, suc, ◌+◌, ◌≤◌, ◌<◌, ◌≡◌, refl, Bool, true, false, not, ◌&&◌, ◌||◌, Option, none, some,
  List, [], ◌∷◌, ltb, leb, ◌==◌, if◌then◌else◌, is_some, or_else, Bool-cases, inl, inr, arith,
}
use easyrun.Prelude.Text.{String, str_eq, str_eq_iff, str_eq_refl}
use easyrun.Prelude.Dict.{Dict, lookup, insert, lookup-insert, lookup-erase}
use easyrun.Prelude.Int.{ℤ, pos, ltb_ℤ, pos_part}
use easyrun.Types.{Job}
use easyrun.Runner.Logs.Store.{LogStore}
use easyrun.Runner.Hop.{
  SlotManager, HopRunner, owner_of, set_owner, disown, flag, Allocation, slot_found, no_capacity,
  out_of_fuel, allocate_slot,
}
use easyrun.Runner.Hop.FirstFit.{allocate_slot-free}
use easyrun.Runner.Hop.Lifecycle.{
  claim_cages, claim_found, claim, release, cancel_start, stream_over, run_claimed, run_hop,
  run_checked, RunError, adopt_cages, adopt_one, adopt_running, adopted_cages, new_logs, cores_of,
  shape_of, RunResult, publish_unless, StartWorld, StreamEnd, turned_away, stream_refused,
  stream_error, stream_placed, check_image,
}

pub owner_of-set_owner :
    (c d : ℕ) (id : String) (m : List (ℕ × String))
    → owner_of d (set_owner c id m) ≡ (if c == d then some id else owner_of d m)
unfolding owner_of set_owner
owner_of-set_owner c d id [] = refl
owner_of-set_owner c d id ((e, j) ∷ m) = ground (arith, owner_of-set_owner c d id m)

owner_of-claim_cages :
    (id : String) (slot n d : ℕ) (m : List (ℕ × String))
    → owner_of d (claim_cages id slot n m)
      ≡ (if leb slot d && ltb d (slot + n) then some id else owner_of d m)
unfolding claim_cages
owner_of-claim_cages id slot zero d m = ground arith
owner_of-claim_cages id slot (suc n) d m = ground (
  arith,
  owner_of-claim_cages id (suc slot) n d (set_owner slot id m),
  owner_of-set_owner slot d id m,
)

owner_of-disown :
    (id j : String) (d : ℕ) (m : List (ℕ × String))
    → owner_of d m ≡ some j
    → str_eq j id ≡ false
    → owner_of d (disown id m) ≡ some j
unfolding owner_of disown
owner_of-disown id j d [] h e = h
owner_of-disown id j d ((c, k) ∷ m) h e = ground (arith, h, e, owner_of-disown id j d m)

owner_of-adopt_cages :
    (id : String) (slot n d : ℕ) (m : List (ℕ × String))
    → owner_of d (adopt_cages id slot n m) ≡ (
        if leb slot d && ltb d (slot + n) && not (is_some (owner_of d m))
        then some id
        else owner_of d m)
unfolding adopt_cages
owner_of-adopt_cages id slot zero d m = ground arith
owner_of-adopt_cages id slot (suc n) d m = ground (
  arith,
  owner_of-adopt_cages id (suc slot) n d m,
  owner_of-adopt_cages id (suc slot) n d (set_owner slot id m),
  owner_of-set_owner slot d id m,
)

-- A task that the runner knows owns its slot: the one that a stop of it will stop.
abbrev pub Owns : HopRunner → Type 0
Owns r = (id : String) (slot : ℕ) → lookup id r.slots ≡ some slot → owner_of slot r.in_use ≡ some id

claim_found-Owns :
    (id : String) (n : ℕ) (a : Allocation) (r : HopRunner)
    → 0 < n
    → ((s c : ℕ) → a ≡ slot_found s → s ≤ c → c < s + n → owner_of c r.in_use ≡ none)
    → Owns r
    → Owns (claim_found id n a r).1
unfolding claim_found
claim_found-Owns id n no_capacity r one free h = h
claim_found-Owns id n out_of_fuel r one free h = h
claim_found-Owns id n (slot_found s) r one free h = λ j c e. elim (Bool-cases (str_eq id j)) [
  | inl same ↦ ground (
    arith,
    one,
    same,
    e,
    str_eq_iff id j,
    lookup-insert id j s r.slots,
    owner_of-claim_cages id s n c r.in_use,
  )
  | inr other ↦
      let before : lookup j r.slots ≡ some c =
        ground (arith, other, e, lookup-insert id j s r.slots) in
      ground (arith, h j c before, free s c refl, owner_of-claim_cages id s n c r.in_use)
]

pub release-Owns : (now : ℕ) (id : String) (r : HopRunner) → Owns r → Owns (release now id r)
unfolding release
release-Owns now id r h = λ j c e. elim (Bool-cases (str_eq id j)) [
  | inl same ↦ ground (arith, same, e, lookup-erase id j r.slots)
  | inr other ↦
      let before : lookup j r.slots ≡ some c =
        ground (arith, other, e, lookup-erase id j r.slots) in
      owner_of-disown id j c r.in_use (h j c before)
        (ground (arith, other, str_eq_iff id j, str_eq_iff j id))
]

-- What the adoption of one task relies on: nobody owns its slot, where it is adopted at all.
abbrev pub IsUnclaimed : String → ℤ → HopRunner → Type 0
IsUnclaimed id slot r =
    (ltb_ℤ slot (pos 1) || is_some (lookup id r.slots)) ≡ false
    → owner_of (pos_part slot) r.in_use ≡ none

adopted-Owns :
    (n : ℕ) (id : String) (slot : ℕ) (r : HopRunner) (logs : LogStore)
    → 0 < n
    → owner_of slot r.in_use ≡ none
    → Owns r
    → Owns (record r {
      slots = insert id slot r.slots;
      in_use = adopt_cages id slot n r.in_use;
      logs = logs;
    })
adopted-Owns n id slot r logs one free h = λ j c e. elim (Bool-cases (str_eq id j)) [
  | inl same ↦ ground (
    arith,
    one,
    same,
    e,
    str_eq_iff id j,
    free,
    lookup-insert id j slot r.slots,
    owner_of-adopt_cages id slot n c r.in_use,
  )
  | inr other ↦
      let before : lookup j r.slots ≡ some c =
        ground (arith, other, e, lookup-insert id j slot r.slots) in
      ground (arith, h j c before, owner_of-adopt_cages id slot n c r.in_use)
]

adopted_cages_positive : (cores : ℤ) → 0 < adopted_cages cores
unfolding adopted_cages
adopted_cages_positive cores = ground arith

adopt_one-Owns :
    (cores : ℤ) (id : String) (slot : ℤ) (r : HopRunner)
    → IsUnclaimed id slot r
    → Owns r
    → Owns (adopt_one cores id slot r)
unfolding adopt_one
adopt_one-Owns cores id slot r free h =
    elim (Bool-cases (ltb_ℤ slot (pos 1) || is_some (lookup id r.slots))) [
      | inl e ↦ simp e h
      | inr e ↦ simp e (
          adopted-Owns (adopted_cages cores) id (pos_part slot) r (new_logs id r.logs)
            (adopted_cages_positive cores) (free e) h)
    ]

abbrev pub AllUnclaimed : Dict ℤ → Dict ℤ → HopRunner → Type 0
AllUnclaimed [] cores r = Unit
AllUnclaimed ((id, slot) ∷ slots) cores r =
    IsUnclaimed id slot r
    × AllUnclaimed slots cores (adopt_one (or_else (lookup id cores) (pos 0)) id slot r)

pub adopt_running-Owns :
    (slots cores : Dict ℤ) (r : HopRunner)
    → AllUnclaimed slots cores r
    → Owns r
    → Owns (adopt_running slots cores r)
unfolding adopt_running
adopt_running-Owns [] cores r free h = h
adopt_running-Owns ((id, slot) ∷ slots) cores r free h =
    let n = or_else (lookup id cores) (pos 0) in
    adopt_running-Owns slots cores (adopt_one n id slot r) free.1
      (adopt_one-Owns n id slot r free.0 h)

pub cancel_start-Owns : (id : String) (r : HopRunner) → Owns r → Owns (cancel_start id r)
unfolding cancel_start
cancel_start-Owns id r h = h

stream_over-Owns :
    (now : ℕ) (end : StreamEnd) (id : String) (r : HopRunner)
    → Owns r
    → Owns (stream_over now end id r).1
unfolding stream_over
stream_over-Owns now turned_away id r h = h
stream_over-Owns now stream_refused id r h = release-Owns now id r h
stream_over-Owns now stream_error id r h = elim (Bool-cases (flag id r.starts)) [
  | inl e ↦ simp e h
  | inr e ↦ simp e (release-Owns now id r h)
]
stream_over-Owns now stream_placed id r h = h

-- What other calls do meanwhile keeps the ownership too.
abbrev pub KeepsOwns : (HopRunner → HopRunner) → Type 0
KeepsOwns f = (r : HopRunner) → Owns r → Owns (f r)

publish_unless-Owns :
    (o : Option RunResult) (id : String) (slot : ℕ) (later r : HopRunner)
    → Owns later
    → Owns r
    → Owns (publish_unless o id slot later r).1
publish_unless-Owns none id slot later r h k = h
publish_unless-Owns (some result) id slot later r h k = k

run_claimed-Owns :
    (w : StartWorld) (id : String) (o : Option ℕ) (r : HopRunner)
    → KeepsOwns w.during
    → KeepsOwns w.before_publish
    → Owns r
    → Owns (run_claimed w id (o, r)).1
unfolding run_claimed
run_claimed-Owns w id none r k l h = h
run_claimed-Owns w id (some slot) r k l h =
    let (stopped, r') = stream_over w.now w.download id (w.during r) in
    let r'' = cancel_start id r' in
    let h' : Owns r'' =
      cancel_start-Owns id r' (stream_over-Owns w.now w.download id (w.during r) (k r h)) in
    publish_unless-Owns stopped id slot (w.before_publish r'') r'' (l r'' h') h'

cores_of_positive : (shares : ℤ) → 0 < cores_of shares
unfolding cores_of
cores_of_positive shares = ground arith

shape_of_positive : (group : String) (cores : ℕ) → 0 < cores → 0 < (shape_of group cores).2
unfolding shape_of
shape_of_positive group cores h = ground (arith, h)

claim-Owns :
    (sm : SlotManager) (fuel : ℕ) (job : Job) (id : String) (r : HopRunner)
    → Owns r
    → Owns (claim sm fuel job id r).1
unfolding claim
claim-Owns sm fuel job id r h =
    let group = or_else (lookup "sharegroup" job.tags) "" in
    let n : ℕ = (shape_of group (cores_of job.cpu_shares)).2 in
    let class = or_else (lookup "core-class" job.tags) "" in
    let shared : Bool = not (str_eq group "") in
    claim_found-Owns id n (allocate_slot sm fuel class n shared r) r
      (shape_of_positive group (cores_of job.cpu_shares) (cores_of_positive job.cpu_shares))
      (λ s c. allocate_slot-free sm fuel class n shared r s c) h

run_checked-Owns :
    (sm : SlotManager) (w : StartWorld) (job : Job) (id : String) (r : HopRunner)
    (o : Option RunError)
    → KeepsOwns w.during
    → KeepsOwns w.before_publish
    → Owns r
    → Owns (run_checked sm w job id r o).1
unfolding run_checked
run_checked-Owns sm w job id r (some e) k l h = h
run_checked-Owns sm w job id r none k l h =
    let (o, r') = claim sm w.fuel job id r in
    run_claimed-Owns w id o r' k l (claim-Owns sm w.fuel job id r h)

-- A start keeps it so that every task owns its slot, however it ends: refused, without slots, with a
-- download that fails or is cancelled, overtaken by a stop, or up; where what other calls do during
-- the download and before the start is published keeps it so too.
pub run_hop-Owns :
    (sm : SlotManager) (w : StartWorld) (job : Job) (id : String) (r : HopRunner)
    → KeepsOwns w.during
    → KeepsOwns w.before_publish
    → Owns r
    → Owns (run_hop sm w job id r).1
unfolding run_hop
run_hop-Owns sm w job id r k l h = run_checked-Owns sm w job id r (check_image job) k l h

adopt_one-keeps :
    (cores : ℤ) (id : String) (slot : ℤ) (r : HopRunner) (c : ℕ) (j : String)
    → owner_of c r.in_use ≡ some j
    → owner_of c (adopt_one cores id slot r).in_use ≡ some j
unfolding adopt_one
adopt_one-keeps cores id slot r c j h =
    elim (Bool-cases (ltb_ℤ slot (pos 1) || is_some (lookup id r.slots))) [
      | inl e ↦ simp e h
      | inr e ↦ simp e (
          ground
            (arith, h, owner_of-adopt_cages id (pos_part slot) (adopted_cages cores) c r.in_use))
    ]

-- After an adoption every task asked for is known, but for those with no slot.
abbrev Knows : Dict ℤ → HopRunner → Type 0
Knows [] r = Unit
Knows ((id, slot) ∷ slots) r =
    ((ltb_ℤ slot (pos 1) || is_some (lookup id r.slots)) ≡ true) × Knows slots r

adopt_running-Knows_id :
    (slots cores : Dict ℤ) (r : HopRunner) → Knows slots r → adopt_running slots cores r ≡ r
unfolding adopt_running adopt_one
adopt_running-Knows_id [] cores r h = refl
adopt_running-Knows_id ((id, slot) ∷ slots) cores r h =
    simp h.0 (adopt_running-Knows_id slots cores r h.1)

adopt_one-known :
    (cores : ℤ) (id j : String) (slot : ℤ) (r : HopRunner)
    → is_some (lookup j r.slots) ≡ true
    → is_some (lookup j (adopt_one cores id slot r).slots) ≡ true
unfolding adopt_one
adopt_one-known cores id j slot r h =
    elim (Bool-cases (ltb_ℤ slot (pos 1) || is_some (lookup id r.slots))) [
      | inl e ↦ simp e h
      | inr e ↦ simp e (ground (arith, h, lookup-insert id j (pos_part slot) r.slots))
    ]

adopt_running-known :
    (slots cores : Dict ℤ) (r : HopRunner) (j : String)
    → is_some (lookup j r.slots) ≡ true
    → is_some (lookup j (adopt_running slots cores r).slots) ≡ true
unfolding adopt_running
adopt_running-known [] cores r j h = h
adopt_running-known ((id, slot) ∷ slots) cores r j h =
    let n = or_else (lookup id cores) (pos 0) in
    adopt_running-known slots cores (adopt_one n id slot r) j (adopt_one-known n id j slot r h)

adopt_one_self :
    (cores : ℤ) (id : String) (slot : ℤ) (r : HopRunner)
    → (ltb_ℤ slot (pos 1) || is_some (lookup id (adopt_one cores id slot r).slots)) ≡ true
unfolding adopt_one
adopt_one_self cores id slot r =
    elim (Bool-cases (ltb_ℤ slot (pos 1) || is_some (lookup id r.slots))) [
      | inl e ↦ simp e refl
      | inr e ↦ simp e (ground (arith, lookup-insert id id (pos_part slot) r.slots, str_eq_refl id))
    ]

adopt_running-Knows :
    (slots cores : Dict ℤ) (r : HopRunner) → Knows slots (adopt_running slots cores r)
unfolding adopt_running
adopt_running-Knows [] cores r = tt
adopt_running-Knows ((id, slot) ∷ slots) cores r =
    let n = or_else (lookup id cores) (pos 0) in
    let r' = adopt_one n id slot r in
    (
      ground (arith, adopt_one_self n id slot r, adopt_running-known slots cores r' id),
      adopt_running-Knows slots cores r',
    )

adopt_running-keeps :
    (slots cores : Dict ℤ) (r : HopRunner) (c : ℕ) (j : String)
    → owner_of c r.in_use ≡ some j
    → owner_of c (adopt_running slots cores r).in_use ≡ some j
unfolding adopt_running
adopt_running-keeps [] cores r c j h = h
adopt_running-keeps ((id, slot) ∷ slots) cores r c j h =
    let n = or_else (lookup id cores) (pos 0) in
    adopt_running-keeps slots cores (adopt_one n id slot r) c j (adopt_one-keeps n id slot r c j h)

-- An owner stays.
abbrev pub IsKept : Option String → Option String → Type 0
IsKept none o = Unit
IsKept (some j) o = o ≡ some j

kept : (o o' : Option String) → ((j : String) → o ≡ some j → o' ≡ some j) → IsKept o o'
kept none o' f = tt
kept (some j) o' f = f j refl

-- Where the slot of each task that an adoption takes in has no owner when its turn comes, and every
-- task of the runner owns its slot: every task does after the adoption, so that a later stop of an
-- adopted task stops the slot that it came with; a cage that had an owner keeps it; and a second
-- adoption of the same tasks changes nothing.
pub adopt_running-Laws :
    (slots cores : Dict ℤ) (r : HopRunner)
    → AllUnclaimed slots cores r
    → Owns r
    → Owns (adopt_running slots cores r)
      × ((c : ℕ) → IsKept (owner_of c r.in_use) (owner_of c (adopt_running slots cores r).in_use))
      × (adopt_running slots cores (adopt_running slots cores r) ≡ adopt_running slots cores r)
adopt_running-Laws slots cores r free h = (
  adopt_running-Owns slots cores r free h,
  λ c. kept (owner_of c r.in_use) _ (λ j h. adopt_running-keeps slots cores r c j h),
  adopt_running-Knows_id slots cores (adopt_running slots cores r)
      (adopt_running-Knows slots cores r),
)
