-- ===== src/Examples/Leases.antt =====
-- A store of the lease in which a handle is what it stands for, and a claim on it.
use easyrun.Prelude.{
  ◌≡◌, refl, sym, ap, ◌∙◌, inl, inr, Bool, true, false, ◌&&◌, Option, none, some, arith, ◌==◌,
  if◌then◌else◌, Bool-cases,
}
use easyrun.Prelude.Int.{ℤ, pos, negsuc, eqb_ℤ}
use easyrun.Prelude.Text.{str_eq, str_eq_iff}
use easyrun.Lease.{
  LeaseState, ReadResult, no_lease, lease, lease_held, WriteResult, written, not_written, Backend,
  Discovery, try_claim,
}
use easyrun.Lease.Claims.{CompareAndSwap, Claimed, try_claim-Claimed, handle_of}

abbrev same : Option LeaseState → Option LeaseState → Bool
same none none = true
same none (some t) = false
same (some s) none = false
same (some s) (some t) =
    eqb_ℤ s.generation t.generation && (s.expires_at == t.expires_at) && str_eq s.owner t.owner

eqb_ℤ→eq : (a b : ℤ) → eqb_ℤ a b ≡ true → a ≡ b
eqb_ℤ→eq (pos m) (pos n) h = ap pos (ground arith)
eqb_ℤ→eq (pos m) (negsuc n) h = absurd (ground arith)
eqb_ℤ→eq (negsuc m) (pos n) h = absurd (ground arith)
eqb_ℤ→eq (negsuc m) (negsuc n) h = ap negsuc (ground arith)

same→eq : (a b : Option LeaseState) → same a b ≡ true → a ≡ b
same→eq none none h = refl
same→eq none (some t) h = absurd (ground arith)
same→eq (some s) none h = absurd (ground arith)
same→eq (some s) (some t) h =
    let e : s.generation ≡ t.generation = eqb_ℤ→eq s.generation t.generation (ground arith) in
    let f : s.expires_at ≡ t.expires_at = ground arith in
    let g : s.owner ≡ t.owner = ground (arith, str_eq_iff s.owner t.owner) in
    ap some (ground (arith, e, f, g))

abbrev read : Option LeaseState → ReadResult (Option LeaseState)
read none = no_lease
read (some s) = lease s (some s)

abbrev write :
    Option LeaseState
    → LeaseState
    → Option LeaseState
    → WriteResult (Option LeaseState) × Option LeaseState
write h s w = if same w h then (written (some s), some s) else (not_written lease_held, w)

abbrev cell : Backend (Option LeaseState) (Option LeaseState)
cell = record {
  blank = none;
  read = read;
  write = write;
  delete = λ h w. if same w h then none else w;
}

handle_of-read : (w : Option LeaseState) → handle_of none (read w) ≡ some w
handle_of-read none = refl
handle_of-read (some s) = refl

cell_swaps :
    (h h' : Option LeaseState) (s : LeaseState) (w : Option LeaseState)
    → (write h s w).0 ≡ written h'
    → (handle_of none (read w) ≡ some h) × (read (write h s w).1 ≡ lease s h')
cell_swaps h h' s w e = elim (Bool-cases (same w h)) [
  | inr f ↦ absurd (ground (arith, f, e))
  | inl f ↦
      let swapped : written (some s) ≡ written h' = simp f at e in
      (handle_of-read w ∙ ap some (same→eq w h f), simp f (ground (arith, swapped)))
]

cell_content :
    (w w' h : Option LeaseState)
    → handle_of none (read w) ≡ some h
    → handle_of none (read w') ≡ some h
    → read w ≡ read w'
cell_content w w' h e f =
    let g : w ≡ h = ground (arith, sym (handle_of-read w) ∙ e) in
    let g' : w' ≡ h = ground (arith, sym (handle_of-read w') ∙ f) in ap read (g ∙ sym g')

cell-CompareAndSwap : CompareAndSwap cell
cell-CompareAndSwap = record { swaps = cell_swaps; content = cell_content }

abbrev expired : LeaseState
expired = record { generation = pos 4; expires_at = 50; owner = "b" }

abbrev candidate : Discovery (Option LeaseState)
candidate = record { owner = "a"; ttl = 30; handle = none }

try_claim-Claimed_example :
    Claimed cell cell-CompareAndSwap "a" 60 91
      (some expired)
      (try_claim cell (λ w. w) 60 61 candidate (some expired))
try_claim-Claimed_example =
    try_claim-Claimed cell cell-CompareAndSwap (λ w. w) 60 61 candidate (some expired)
