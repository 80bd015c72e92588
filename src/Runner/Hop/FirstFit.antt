-- ===== src/Runner/Hop/FirstFit.antt =====
-- allocateSlotLocked of internal/runner/hopos.go: the first run of slots that fits.
use easyrun.Prelude.{
  ℕ, zero, suc, ◌+◌, ◌≤◌, ◌<◌, ◌≡◌, ◌≢◌, refl, ap, subst, Bool, true, false, not, ◌||◌, Option,
  none, some, List, [], ◌∷◌, ltb, ◌==◌, Bool-cases, inl, inr, arith, ◌⊎◌,
}
use Prim.Native.Nat.{max}
use easyrun.Prelude.Text.{String, str_eq}
use easyrun.Runner.Hop.{
  SlotManager, HopRunner, owner_of, cage_free, cages_free, placeable, first_slot, slot_limit,
  within, Allocation, slot_found, no_capacity, out_of_fuel, fits, search_slot, allocate_slot,
}

abbrev highest : List (ℕ × String) → ℕ
highest [] = 0
highest ((d, id) ∷ m) = max d (highest m)

owner_of-highest : (c : ℕ) (m : List (ℕ × String)) → highest m < c → owner_of c m ≡ none
unfolding owner_of
owner_of-highest c [] h = refl
owner_of-highest c ((d, id) ∷ m) h = ground (arith, owner_of-highest c m (omega (arith, h)))

within-later :
    (sm : SlotManager) (limit : Option ℕ) (cores slot t : ℕ)
    → within sm limit cores slot ≡ false
    → slot ≤ t
    → within sm limit cores t ≡ true
    → ⊥
unfolding within
within-later sm none cores slot t w a i = ground (arith, w)
within-later sm (some l) cores slot t w a i = ground (arith, w, a, i)

module _ (sm : SlotManager) (class : String) (shared : Bool) (in_use : List (ℕ × String)) where
  -- Every cage of a run passes the look at it.
  pub cages_free-each :
      (slot n c : ℕ)
      → cages_free sm class shared in_use slot n ≡ true
      → slot ≤ c
      → c < slot + n
      → cage_free sm class shared in_use c ≡ true
  unfolding cages_free
  cages_free-each slot zero c h a b = ground (arith, a, b)
  cages_free-each slot (suc n) c h a b = elim (Bool-cases (c == slot)) [
    | inl e ↦ ground (arith, e, h)
    | inr e ↦
        cages_free-each (suc slot) n c (ground (arith, h)) (ground (arith, e)) (omega (arith, b))
  ]

  cages_free-beyond :
      (slot n : ℕ)
      → ((c : ℕ) → slot ≤ c → cage_free sm class shared in_use c ≡ true)
      → cages_free sm class shared in_use slot n ≡ true
  unfolding cages_free
  cages_free-beyond slot zero h = refl
  cages_free-beyond slot (suc n) h =
      rw (h slot (omega arith)) (cages_free-beyond (suc slot) n (λ c a. h c (omega (arith, a))))

  fits-cages_free :
      (cores slot : ℕ)
      → fits sm class shared in_use cores slot ≡ true
      → cages_free sm class shared in_use slot cores ≡ true
  unfolding fits
  fits-cages_free cores slot h = ground (arith, h)

  -- Where the search finds a run, however long it went on, its cages passed the look at them.
  abbrev pub PassesLook : ℕ → Allocation → Type 0
  PassesLook cores (slot_found s) = cages_free sm class shared in_use s cores ≡ true
  PassesLook cores no_capacity = Unit
  PassesLook cores out_of_fuel = Unit

  pub search_slot-PassesLook :
      (limit : Option ℕ) (cores slot fuel : ℕ)
      → PassesLook cores (search_slot sm class shared in_use limit cores slot fuel)
  unfolding search_slot
  search_slot-PassesLook limit cores slot zero = tt
  search_slot-PassesLook limit cores slot (suc fuel) =
      elim (Bool-cases (within sm limit cores slot)) [
        | inr w ↦ simp w tt
        | inl w ↦ elim (Bool-cases (fits sm class shared in_use cores slot)) [
          | inl f ↦ simp (w, f) (fits-cages_free cores slot f)
          | inr f ↦ simp (w, f) (search_slot-PassesLook limit cores (suc slot) fuel)
        ]
      ]

  module _ (limit : Option ℕ) (cores : ℕ) where
    -- What the search answers, from a slot on: the first run that fits, inside the limit, or that no
    -- run inside the limit does.
    abbrev pub FirstFit : ℕ → Allocation → Type 0
    FirstFit start (slot_found s) =
        (start ≤ s)
        × (within sm limit cores s ≡ true)
        × (fits sm class shared in_use cores s ≡ true)
        × ((t : ℕ) → start ≤ t → t < s → fits sm class shared in_use cores t ≡ false)
    FirstFit start no_capacity =
        (t : ℕ)
        → start ≤ t
        → within sm limit cores t ≡ true
        → fits sm class shared in_use cores t ≡ false
    FirstFit start out_of_fuel = ⊥

    -- Where the search is sure to end.
    abbrev Ends : ℕ → Type 0
    Ends s = (within sm limit cores s ≡ false) ⊎ (fits sm class shared in_use cores s ≡ true)

    FirstFit-later :
        (start : ℕ) (a : Allocation)
        → fits sm class shared in_use cores start ≡ false
        → FirstFit (suc start) a
        → FirstFit start a
    FirstFit-later start (slot_found s) e (a, b, c, d) = (
      omega (arith, a),
      b,
      c,
      λ t f g. elim (Bool-cases (t == start)) [
        | inl h ↦ subst (λ i. fits sm class shared in_use cores i ≡ false) (ground (arith, h)) e
        | inr h ↦ d t (ground (arith, h)) g
      ],
    )
    FirstFit-later start no_capacity e h = λ t f g. elim (Bool-cases (t == start)) [
      | inl i ↦ subst (λ j. fits sm class shared in_use cores j ≡ false) (ground (arith, i)) e
      | inr i ↦ h t (ground (arith, i)) g
    ]
    FirstFit-later start out_of_fuel e h = h

    Ends-before :
        (slot bound : ℕ)
        → within sm limit cores slot ≡ true
        → fits sm class shared in_use cores slot ≡ false
        → Ends bound
        → slot ≢ bound
    Ends-before slot bound w f (inl h) e = ground (arith, w, h, ap (within sm limit cores) e)
    Ends-before slot bound w f (inr h) e =
        ground (arith, f, h, ap (fits sm class shared in_use cores) e)

    search_slot-FirstFit :
        (slot fuel bound : ℕ)
        → slot ≤ bound
        → bound < slot + fuel
        → Ends bound
        → FirstFit slot (search_slot sm class shared in_use limit cores slot fuel)
    unfolding search_slot
    search_slot-FirstFit slot zero bound a b e = ground (arith, a, b)
    search_slot-FirstFit slot (suc fuel) bound a b e =
        elim (Bool-cases (within sm limit cores slot)) [
          | inr w ↦ simp w λ t a' i. absurd (within-later sm limit cores slot t w a' i)
          | inl w ↦ elim (Bool-cases (fits sm class shared in_use cores slot)) [
            | inl f ↦ simp (w, f) (omega arith, refl, refl, λ t g h. ground (arith, g, h))
            | inr f ↦
                simp (w, f)
                  (FirstFit-later slot
                    (search_slot sm class shared in_use limit cores (suc slot) fuel) f
                    (search_slot-FirstFit (suc slot) fuel bound
                      (omega (arith, a, Ends-before slot bound w f e)) (omega (arith, b)) e))
          ]
        ]

-- The last slot that anything is known of: the cores, what runs, and what is claimed.
abbrev pub last_known : SlotManager → ℕ → HopRunner → ℕ
last_known sm top r = max sm.num_cores (max top (highest r.in_use))

cage_free-beyond :
    (sm : SlotManager) (class : String) (shared : Bool) (r : HopRunner) (top : ℕ)
    → ((c : ℕ) → top < c → sm.core_on c ≡ false)
    → (shared || str_eq class "") ≡ true
    → (c : ℕ) → last_known sm top r < c
    → cage_free sm class shared r.in_use c ≡ true
unfolding cage_free
cage_free-beyond sm class shared r top quiet any c h =
    ground
      (arith, h, any, owner_of-highest c r.in_use (omega (arith, h)), quiet c (omega (arith, h)))

within-beyond :
    (sm : SlotManager) (cores slot : ℕ)
    → 0 < cores
    → sm.num_cores < slot
    → within sm (some sm.num_cores) cores slot ≡ false
unfolding within
within-beyond sm cores slot one a = ground (arith, one, a)

fits-beyond :
    (sm : SlotManager) (class : String) (cores : ℕ) (shared : Bool) (r : HopRunner) (top : ℕ)
    → 0 < cores
    → ((c : ℕ) → top < c → sm.core_on c ≡ false)
    → (shared || str_eq class "") ≡ true
    → fits sm class shared r.in_use cores (suc (last_known sm top r)) ≡ true
unfolding fits placeable
fits-beyond sm class cores shared r top one quiet any =
    let free =
      cages_free-beyond sm class shared r.in_use (suc (last_known sm top r)) cores
        (λ c a. cage_free-beyond sm class shared r top quiet any c (omega (arith, a))) in
    ground (arith, one, free)

allocate_slot-Ends :
    (sm : SlotManager) (class : String) (cores : ℕ) (shared : Bool) (r : HopRunner) (top : ℕ)
    → 0 < cores
    → ((c : ℕ) → top < c → sm.core_on c ≡ false)
    → Ends sm class shared r.in_use
        (slot_limit sm class shared cores)
        cores
        (suc (last_known sm top r))
unfolding slot_limit
allocate_slot-Ends sm class cores shared r top one quiet = elim (Bool-cases shared) [
  | inl e ↦ inr (fits-beyond sm class cores shared r top one quiet (ground (arith, e)))
  | inr e ↦ elim (Bool-cases (not (str_eq class "") || ltb 1 cores)) [
    | inl f ↦
        simp (e, f) (inl (within-beyond sm cores (suc (last_known sm top r)) one (omega arith)))
    | inr f ↦ inr (fits-beyond sm class cores shared r top one quiet (ground (arith, f)))
  ]
]

-- An allocation of at least one core, where nothing runs beyond some slot, ends within as many
-- looks as there are slots up to the last that anything is known of. It gives the first run of
-- slots that fits, or says that there is no room where no run does, inside the node's cores for an
-- app that needs a class or several cores, and without a limit for the others.
pub allocate_slot-FirstFit :
    (sm : SlotManager) (class : String) (cores : ℕ) (shared : Bool) (r : HopRunner) (top fuel : ℕ)
    → 0 < cores
    → ((c : ℕ) → top < c → sm.core_on c ≡ false)
    → suc (last_known sm top r) < fuel
    → FirstFit sm class shared r.in_use
        (slot_limit sm class shared cores)
        cores
        (first_slot sm shared)
        (allocate_slot sm fuel class cores shared r)
unfolding allocate_slot first_slot
allocate_slot-FirstFit sm class cores shared r top fuel one quiet enough =
    search_slot-FirstFit sm class shared r.in_use (slot_limit sm class shared cores) cores
      (first_slot sm shared) fuel (suc (last_known sm top r)) (ground arith)
      (ground (arith, enough)) (allocate_slot-Ends sm class cores shared r top one quiet)

-- What is allocated has no owner.
pub allocate_slot-free :
    (sm : SlotManager) (fuel : ℕ) (class : String) (cores : ℕ) (shared : Bool) (r : HopRunner)
    (s c : ℕ)
    → allocate_slot sm fuel class cores shared r ≡ slot_found s
    → s ≤ c
    → c < s + cores
    → owner_of c r.in_use ≡ none
unfolding allocate_slot cage_free
allocate_slot-free sm fuel class cores shared r s c e a b =
    let look = subst (PassesLook sm class shared r.in_use cores) e (
      search_slot-PassesLook sm class shared r.in_use (slot_limit sm class shared cores) cores
        (first_slot sm shared) fuel) in
    ground (arith, cages_free-each sm class shared r.in_use s cores c look a b)
