-- ===== src/Lease.antt =====
-- internal/discovery/discovery.go: the lease that makes a node the leader. The store of the lease is
-- outside: a parameter that reads, writes against the handle of what was read, and deletes. Its
-- handles are opaque, and `blank` is the one that stands for no lease.
pub mod Claims
use easyrun.Prelude.{ℕ, ◌+◌, Bool, true, false, Option, none, some, ltb, if◌then◌else◌, is_some}
use easyrun.Prelude.Int.{ℤ, pos, add_int}
use easyrun.Prelude.Text.{String, str_eq}

pub record LeaseState : Type 0 where
  pub generation : ℤ
  pub expires_at : ℕ
  pub owner : String

pub data ReadResult (H : Type 0) : Type 0 where
  no_lease : ReadResult H
  lease : LeaseState → H → ReadResult H
  unreachable : ReadResult H

-- `lease_held` is the error of a live lease of another node, also where a write lost the race.
pub data ClaimError : Type 0 where
  lease_held backend_error : ClaimError

pub data WriteResult (H : Type 0) : Type 0 where
  written : H → WriteResult H
  not_written : ClaimError → WriteResult H

pub record Backend (H W : Type 0) : Type 0 where
  pub blank : H
  pub read : W → ReadResult H
  pub write : H → LeaseState → W → WriteResult H × W
  pub delete : H → W → W

pub record Discovery (H : Type 0) : Type 0 where
  pub owner : String
  pub ttl : ℕ
  pub handle : Option H

-- What an attempt goes by, once the lease is read: the handle to write against and the generation.
pub data Attempt (H : Type 0) : Type 0 where
  fail : ClaimError → Attempt H
  try : H → ℤ → Attempt H

module _ {H W : Type 0} (b : Backend H W) where
  unfoldable pub decide : String → ℕ → ReadResult H → Attempt H
  decide owner now no_lease = try b.blank (pos 1)
  decide owner now unreachable = fail backend_error
  decide owner now (lease st h) =
      if str_eq st.owner owner
      then try h st.generation
      else if ltb st.expires_at now
      then try h (add_int st.generation (pos 1))
      else fail lease_held

  unfoldable pub note_write : Discovery H → WriteResult H × W → Option ClaimError × Discovery H × W
  note_write d (written h, w) = (none, record d { handle = some h }, w)
  note_write d (not_written e, w) = (some e, d, w)

  unfoldable pub refresh : H → ℤ → ℕ → Discovery H → W → Option ClaimError × Discovery H × W
  unfolding note_write
  refresh prev gen now d w =
      note_write d
        (b.write prev (record { generation = gen; expires_at = now + d.ttl; owner = d.owner }) w)

  unfoldable pub attempt : Attempt H → ℕ → Discovery H → W → Option ClaimError × Discovery H × W
  attempt (fail e) now d w = (some e, d, w)
  attempt (try prev gen) now d w = refresh prev gen now d w

  -- `tryClaim`, with what other nodes do to the lease between the read and the write, and the two
  -- looks at the clock.
  unfoldable pub try_claim : (W → W) → ℕ → ℕ → Discovery H → W → Option ClaimError × Discovery H × W
  unfolding decide attempt
  try_claim others now later d w = attempt (decide d.owner now (b.read w)) later d (others w)

  unfoldable pub try_become_leader : (W → W) → ℕ → ℕ → Discovery H → W → Bool × Discovery H × W
  try_become_leader others now later d w =
      let (err, d', w') = try_claim others now later d w in
      (if is_some err then false else true, d', w')

  unfoldable pub is_displaced : Option ClaimError → Bool
  is_displaced (some lease_held) = true
  is_displaced _ = false

  -- Whether the lease was renewed, and whether it was lost to another node.
  unfoldable pub renew_lease : (W → W) → ℕ → ℕ → Discovery H → W → (Bool × Bool) × Discovery H × W
  unfolding is_displaced
  renew_lease others now later d w =
      let (err, d', w') = try_claim others now later d w in
      ((if is_some err then false else true, is_displaced err), d', w')

  unfoldable pub leader_of : ℕ → ReadResult H → String
  leader_of now (lease st h) = if ltb st.expires_at now then "" else st.owner
  leader_of now _ = ""

  unfoldable pub get_leader : ℕ → W → String
  unfolding leader_of
  get_leader now w = leader_of now (b.read w)

  unfoldable pub release_leadership : Discovery H → W → Discovery H × W
  release_leadership d w = elim d.handle [
    | none ↦ (d, w)
    | some h ↦ (record d { handle = none }, b.delete h w)
  ]
