-- ===== src/Lease/Claims.antt =====
-- tryClaim against a store that writes by compare-and-swap.
use easyrun.Prelude.{
  ℕ, ◌+◌, ◌<◌, ◌≡◌, refl, sym, ap, subst, ◌∙◌, ◌⊎◌, inl, inr, Option, none, some, arith, ltb,
  Bool-cases,
}
use easyrun.Prelude.Int.{ℤ}
use easyrun.Prelude.Text.{String, str_eq, str_eq_iff}
use easyrun.Lease.{
  LeaseState, ReadResult, no_lease, lease, unreachable, ClaimError, WriteResult, written,
  not_written, Backend, Discovery, Attempt, fail, try, decide, note_write, refresh, attempt,
  try_claim,
}

-- The handle of what a read has found.
abbrev pub handle_of : {H : Type 0} → H → ReadResult H → Option H
handle_of blank no_lease = some blank
handle_of blank (lease st h) = some h
handle_of blank unreachable = none

-- What the store promises: a write goes through only where the handle is that of what stands there
-- at that moment, and what it writes is then read; a handle stands for one content, and the blank
-- one for none.
pub record CompareAndSwap {H W : Type 0} (b : Backend H W) : Type 0 where
  pub swaps :
      (h h' : H) (st : LeaseState) (w : W)
      → (b.write h st w).0 ≡ written h'
      → (handle_of b.blank (b.read w) ≡ some h) × (b.read (b.write h st w).1 ≡ lease st h')
  pub content :
      (w w' : W) (h : H)
      → handle_of b.blank (b.read w) ≡ some h
      → handle_of b.blank (b.read w') ≡ some h
      → b.read w ≡ b.read w'

-- No other node's lease is alive: there is none, it is the node's own, or it has expired.
abbrev pub IsFree : {H : Type 0} → String → ℕ → ReadResult H → Type 0
IsFree owner now no_lease = Unit
IsFree owner now (lease st h) = (st.owner ≡ owner) ⊎ (st.expires_at < now)
IsFree owner now unreachable = ⊥

module _ {H W : Type 0} (b : Backend H W) (cas : CompareAndSwap b) where
  abbrev Tries : String → ℕ → ReadResult H → Attempt H → Type 0
  Tries owner now r (fail e) = Unit
  Tries owner now r (try h gen) = (handle_of b.blank r ≡ some h) × IsFree owner now r

  decide-Tries :
      (owner : String) (now : ℕ) (r : ReadResult H) → Tries owner now r (decide b owner now r)
  unfolding decide
  decide-Tries owner now no_lease = (refl, tt)
  decide-Tries owner now unreachable = tt
  decide-Tries owner now (lease st h) = elim (Bool-cases (str_eq st.owner owner)) [
    | inl e ↦ simp e (refl, inl (ground (arith, str_eq_iff st.owner owner, e)))
    | inr e ↦ elim (Bool-cases (ltb st.expires_at now)) [
      | inl f ↦ simp (e, f) (refl, inr (ground arith))
      | inr f ↦ simp (e, f) tt
    ]
  ]

  -- What a claim that went through says of the lease that it replaced, and of what stands there now.
  abbrev pub Claimed : String → ℕ → ℕ → W → Option ClaimError × Discovery H × W → Type 0
  Claimed owner now expiry before (some e, d, w) = Unit
  Claimed owner now expiry before (none, d, w) =
      IsFree owner now (b.read before)
      × ((gen : ℤ) × (h : H) × (d.handle ≡ some h)
          × (b.read w ≡ lease (record { generation = gen; expires_at = expiry; owner = owner }) h))

  note_write-Claimed :
      (now later : ℕ) (d : Discovery H) (gen : ℤ) (prev : H) (w₀ w₁ : W) (x : WriteResult H × W)
      → b.write prev (record { generation = gen; expires_at = later + d.ttl; owner = d.owner }) w₁
        ≡ x
      → handle_of b.blank (b.read w₀) ≡ some prev
      → IsFree d.owner now (b.read w₀)
      → Claimed d.owner now (later + d.ttl) w₁ (note_write b d x)
  unfolding note_write
  note_write-Claimed now later d gen prev w₀ w₁ (not_written e, w) x here free = tt
  note_write-Claimed now later d gen prev w₀ w₁ (written h, w) x here free =
      let st : LeaseState = record {
        generation = gen;
        expires_at = later + d.ttl;
        owner = d.owner;
      } in
      let (swapped, reads) = cas.swaps prev h st w₁ (ap (λ y. y.0) x) in
      let same : b.read w₀ ≡ b.read w₁ = cas.content w₀ w₁ prev here swapped in
      (
        subst (IsFree d.owner now) same free,
        (gen, h, refl, ap b.read (sym (ap (λ y. y.1) x)) ∙ reads),
      )

  attempt-Claimed :
      (now later : ℕ) (d : Discovery H) (w₀ w₁ : W) (a : Attempt H)
      → Tries d.owner now (b.read w₀) a
      → Claimed d.owner now (later + d.ttl) w₁ (attempt b a later d w₁)
  unfolding attempt refresh
  attempt-Claimed now later d w₀ w₁ (fail e) t = tt
  attempt-Claimed now later d w₀ w₁ (try prev gen) (here, free) =
      let st : LeaseState = record {
        generation = gen;
        expires_at = later + d.ttl;
        owner = d.owner;
      } in
      note_write-Claimed now later d gen prev w₀ w₁ (b.write prev st w₁) refl here free

  -- Against a store that keeps its compare-and-swap promise, and whatever other nodes do to the lease
  -- between the read and the write of a claim: where the claim goes through, the lease that it replaces at the moment of the write is none, the node's own, or
  -- one that had expired when the claim began. So a live lease is never taken from another node.
  -- What stands there afterwards is a lease of this node over its time to live, and the handle that
  -- the node keeps is that lease's.
  pub try_claim-Claimed :
      (others : W → W) (now later : ℕ) (d : Discovery H) (w : W)
      → Claimed d.owner now (later + d.ttl) (others w) (try_claim b others now later d w)
  unfolding try_claim
  try_claim-Claimed others now later d w =
      attempt-Claimed now later d w (others w) (decide b d.owner now (b.read w))
        (decide-Tries d.owner now (b.read w))
