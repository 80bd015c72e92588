-- ===== src/Leader/Persist/Flush.antt =====
-- persistLoop of internal/leader/persist.go: the loop that commits the jobs while they change, over
-- the store that tracks changes. The encoding of a snapshot is the caller's, and does not fail.
use easyrun.Prelude.{
  ℕ, ◌≡◌, refl, sym, ◌∙◌, inl, inr, Bool, true, false, List, [], ◌∷◌, Option, none, some,
  if◌then◌else◌, Bool-cases,
}
use easyrun.Prelude.Text.{String}
use easyrun.Types.{Job}
use easyrun.JobStore.{JobStore}
use easyrun.Leader.Persist.{PersistedState, dirty_tracking}

-- Where the loop stands: waiting for a mark, letting changes gather, or saving a snapshot.
pub data Phase : Type 0 where
  waiting coalescing : Phase
  saving : PersistedState → Phase

-- The tracked store carries the mark, which a channel of one holds.
pub record Flusher (S : Type 0) : Type 0 where
  pub tracked : S × Bool
  pub phase : Phase
  pub committed : Option PersistedState

pub data Mutation : Type 0 where
  stores updates : Job → ℕ → Mutation
  deletes : String → ℕ → Mutation
  syncs : List Job → ℕ → Mutation

-- What happens next: a change by anyone, or a step of the loop. A save that fails may have been
-- written all the same.
pub data Turn : Type 0 where
  mutates : Mutation → Turn
  takes_mark save_ok : Turn
  timer_fires : ℕ → Turn
  save_failed : (written : Bool) → Turn

module _ {S : Type 0} (store : JobStore S) where
  unfoldable pub mutate : Mutation → S × Bool → S × Bool
  unfolding dirty_tracking
  mutate (stores j now) t = (dirty_tracking store).store_job j now t
  mutate (updates j now) t = ((dirty_tracking store).update_job j now t).1
  mutate (deletes n now) t = (dirty_tracking store).delete_job n now t
  mutate (syncs js updated) t = (dirty_tracking store).sync_jobs js updated t

  unfoldable pub take_mark : Phase → Flusher S → Flusher S
  take_mark waiting f =
      if f.tracked.1 then record f { tracked = (f.tracked.0, false); phase = coalescing } else f
  take_mark _ f = f

  unfoldable pub snapshot_at : ℕ → Phase → Flusher S → Flusher S
  snapshot_at now coalescing f = record f {
    phase = saving (record { updated = now; jobs = store.get_jobs f.tracked.0 });
  }
  snapshot_at now _ f = f

  unfoldable pub commit : Phase → Flusher S → Flusher S
  commit (saving st) f = record f { phase = waiting; committed = some st }
  commit _ f = f

  -- The mark comes back, for another round.
  unfoldable pub retry : Bool → Phase → Flusher S → Flusher S
  retry written (saving st) f = record f {
    tracked = (f.tracked.0, true);
    phase = waiting;
    committed = if written then some st else f.committed;
  }
  retry written _ f = f

  unfoldable pub turn : Turn → Flusher S → Flusher S
  unfolding mutate take_mark snapshot_at commit retry
  turn (mutates m) f = record f { tracked = mutate m f.tracked }
  turn takes_mark f = take_mark f.phase f
  turn (timer_fires now) f = snapshot_at now f.phase f
  turn save_ok f = commit f.phase f
  turn (save_failed written) f = retry written f.phase f

  unfoldable pub turns_of : List Turn → Flusher S → Flusher S
  turns_of [] f = f
  turns_of (t ∷ ts) f = turns_of ts (turn t f)

  -- The snapshot has the jobs of the store.
  abbrev pub Holds : Option PersistedState → S → Type 0
  Holds none s = ⊥
  Holds (some st) s = st.jobs ≡ store.get_jobs s

  -- Where there is no mark, what is committed, or about to be, is what the store holds.
  abbrev pub UpToDate : Phase → S × Bool → Option PersistedState → Type 0
  UpToDate waiting (s, true) c = Unit
  UpToDate waiting (s, false) c = Holds c s
  UpToDate coalescing t c = Unit
  UpToDate (saving st) (s, true) c = Unit
  UpToDate (saving st) (s, false) c = Holds (some st) s

  abbrev pub IsTracked : Flusher S → Type 0
  IsTracked f = UpToDate f.phase f.tracked f.committed

  -- An update that reports that it found no job has changed none.
  abbrev pub IsHonest : Type 0
  IsHonest =
      (j : Job) (now : ℕ) (s : S)
      → (store.update_job j now s).0 ≡ false
      → store.get_jobs (store.update_job j now s).1 ≡ store.get_jobs s

  marked-UpToDate : (p : Phase) (s : S) (c : Option PersistedState) → UpToDate p (s, true) c
  marked-UpToDate waiting s c = tt
  marked-UpToDate coalescing s c = tt
  marked-UpToDate (saving st) s c = tt

  -- Nothing that counts has changed.
  same-UpToDate :
      (p : Phase) (s s' : S) (b : Bool) (c : Option PersistedState)
      → store.get_jobs s' ≡ store.get_jobs s
      → UpToDate p (s, b) c
      → UpToDate p (s', b) c
  same-UpToDate p s s' true c e h = marked-UpToDate p s' c
  same-UpToDate waiting s s' false none e h = h
  same-UpToDate waiting s s' false (some st) e h = h ∙ sym e
  same-UpToDate coalescing s s' false c e h = tt
  same-UpToDate (saving st) s s' false c e h = h ∙ sym e

  mutate-UpToDate :
      (m : Mutation) (p : Phase) (s : S) (b : Bool) (c : Option PersistedState)
      → IsHonest
      → UpToDate p (s, b) c
      → UpToDate p (mutate m (s, b)) c
  unfolding mutate dirty_tracking
  mutate-UpToDate (stores j now) p s b c honest h = marked-UpToDate p (store.store_job j now s) c
  mutate-UpToDate (deletes n now) p s b c honest h = marked-UpToDate p (store.delete_job n now s) c
  mutate-UpToDate (syncs js updated) p s b c honest h =
      marked-UpToDate p (store.sync_jobs js updated s) c
  mutate-UpToDate (updates j now) p s b c honest h =
      elim (Bool-cases (store.update_job j now s).0) [
        | inl e ↦ simp e (marked-UpToDate p (store.update_job j now s).1 c)
        | inr e ↦ simp e (same-UpToDate p s (store.update_job j now s).1 b c (honest j now s e) h)
      ]

  taken-IsTracked : (f : Flusher S) → IsTracked f → IsTracked (take_mark waiting f)
  unfolding take_mark
  taken-IsTracked f h = elim (Bool-cases f.tracked.1) [ inl e ↦ simp e tt | inr e ↦ simp e h ]

  take_mark-IsTracked : (p : Phase) (f : Flusher S) → IsTracked f → IsTracked (take_mark p f)
  unfolding take_mark
  take_mark-IsTracked waiting f h = taken-IsTracked f h
  take_mark-IsTracked coalescing f h = h
  take_mark-IsTracked (saving st) f h = h

  snapshot-UpToDate :
      (s : S) (b : Bool) (now : ℕ) (c : Option PersistedState)
      → UpToDate (saving (record { updated = now; jobs = store.get_jobs s })) (s, b) c
  snapshot-UpToDate s true now c = tt
  snapshot-UpToDate s false now c = refl

  snapshot_at-IsTracked :
      (now : ℕ) (p : Phase) (f : Flusher S) → IsTracked f → IsTracked (snapshot_at now p f)
  unfolding snapshot_at
  snapshot_at-IsTracked now waiting f h = h
  snapshot_at-IsTracked now coalescing f h =
      snapshot-UpToDate f.tracked.0 f.tracked.1 now f.committed
  snapshot_at-IsTracked now (saving st) f h = h

  saved-UpToDate :
      (s : S) (b : Bool) (st : PersistedState) (c : Option PersistedState)
      → UpToDate (saving st) (s, b) c
      → UpToDate waiting (s, b) (some st)
  saved-UpToDate s true st c h = tt
  saved-UpToDate s false st c h = h

  commit-IsTracked :
      (p : Phase) (f : Flusher S)
      → UpToDate p f.tracked f.committed
      → IsTracked f
      → IsTracked (commit p f)
  unfolding commit
  commit-IsTracked waiting f h g = g
  commit-IsTracked coalescing f h g = g
  commit-IsTracked (saving st) f h g = saved-UpToDate f.tracked.0 f.tracked.1 st f.committed h

  retry-IsTracked :
      (written : Bool) (p : Phase) (f : Flusher S) → IsTracked f → IsTracked (retry written p f)
  unfolding retry
  retry-IsTracked written waiting f h = h
  retry-IsTracked written coalescing f h = h
  retry-IsTracked written (saving st) f h = tt

  turn-IsTracked : IsHonest → (t : Turn) (f : Flusher S) → IsTracked f → IsTracked (turn t f)
  unfolding turn
  turn-IsTracked honest (mutates m) f h =
      mutate-UpToDate m f.phase f.tracked.0 f.tracked.1 f.committed honest h
  turn-IsTracked honest takes_mark f h = take_mark-IsTracked f.phase f h
  turn-IsTracked honest (timer_fires now) f h = snapshot_at-IsTracked now f.phase f h
  turn-IsTracked honest save_ok f h = commit-IsTracked f.phase f h h
  turn-IsTracked honest (save_failed written) f h = retry-IsTracked written f.phase f h

  all-IsTracked :
      IsHonest → (ts : List Turn) (f : Flusher S) → IsTracked f → IsTracked (turns_of ts f)
  unfolding turns_of
  all-IsTracked honest [] f h = h
  all-IsTracked honest (t ∷ ts) f h =
      all-IsTracked honest ts (turn t f) (turn-IsTracked honest t f h)

  -- Two rounds of the loop in which nothing changes and no save fails.
  unfoldable pub undisturbed : ℕ → ℕ → List Turn
  undisturbed a b = takes_mark ∷ timer_fires a ∷ save_ok ∷ takes_mark ∷ timer_fires b ∷ save_ok ∷ []

  -- After the turns, what is committed is what the store holds now.
  abbrev pub Commits : List Turn → Flusher S → Type 0
  Commits ts f = Holds (turns_of ts f).committed f.tracked.0

  undisturbed-Commits :
      (a b : ℕ) (s : S) (mark : Bool) (p : Phase) (c : Option PersistedState)
      → UpToDate p (s, mark) c
      → Commits (undisturbed a b) (record { tracked = (s, mark); phase = p; committed = c })
  unfolding turns_of undisturbed turn take_mark snapshot_at commit
  undisturbed-Commits a b s true waiting c h = refl
  undisturbed-Commits a b s false waiting c h = h
  undisturbed-Commits a b s true coalescing c h = refl
  undisturbed-Commits a b s false coalescing c h = refl
  undisturbed-Commits a b s true (saving st) c h = refl
  undisturbed-Commits a b s false (saving st) c h = h

  -- Over a store whose update changes no job where it reports that it found none, from a state in
  -- which the loop is up to date, after any sequence of changes, marks taken, timers and saves, the
  -- failed ones too: the loop is up to date (where it waits and there is no mark, what is committed
  -- is what the store holds), and two more rounds without a change or a failed save commit what the
  -- store holds.
  pub turns_of-IsTracked :
      IsHonest
      → (ts : List Turn) (f : Flusher S) → IsTracked f
      → (a b : ℕ) → IsTracked (turns_of ts f) × Commits (undisturbed a b) (turns_of ts f)
  turns_of-IsTracked honest ts f h a b =
      let g = turns_of ts f in
      let k = all-IsTracked honest ts f h in
      (k, undisturbed-Commits a b g.tracked.0 g.tracked.1 g.phase g.committed k)
