-- ===== src/Leader/State/RoundRobin.antt =====
-- nextAgent of internal/leader/dispatch.go: a turn for everyone.
use mathlib.Core.Path.{ap₂}
use easyrun.Prelude.{
  ℕ, zero, suc, ◌+◌, ◌-◌, ◌%◌, ◌≤◌, ◌<◌, ◌≡◌, refl, ap, subst, ◌∙◌, List, [], ◌∷◌, ◌++◌, map,
  Option, some, arith, length, get_elem?, take, drop,
}
use easyrun.Prelude.Text.{String}
use easyrun.Prelude.Dict.{lookup}
use easyrun.Types.{Agent}
use easyrun.Leader.State.{LeaderState, resolve, next_agent}

-- The agents of `n` turns in a row, with nothing else in between.
unfoldable pub turns : ℕ → LeaderState → List (Option Agent)
turns zero s = []
turns (suc n) s = let (a, s') = next_agent s in a ∷ turns n s'

module _ {ℓ} {A : Type ℓ} where
  -- The entries at positions i, i + 1, …, i + n - 1.
  slice : ℕ → ℕ → List A → List (Option A)
  slice zero i l = []
  slice (suc n) i l = get_elem? l i ∷ slice n (suc i) l

  slice-suc : (n i : ℕ) (x : A) (l : List A) → slice n (suc i) (x ∷ l) ≡ slice n i l
  unfolding slice
  slice-suc zero i x l = refl
  slice-suc (suc n) i x l = ap (◌∷◌ (get_elem? l i)) (slice-suc n (suc i) x l)

  slice_prefix : (n : ℕ) (l : List A) → n ≤ length l → slice n 0 l ≡ map some (take n l)
  unfolding slice
  slice_prefix zero l h = refl
  slice_prefix (suc n) [] h = elim h [ ]
  slice_prefix (suc n) (x ∷ l) h =
      ap (◌∷◌ (some x)) (slice-suc n 0 x l ∙ slice_prefix n l (omega arith))

  take_all : (l : List A) → take (length l) l ≡ l
  take_all [] = refl
  take_all (x ∷ l) = ap (◌∷◌ x) (take_all l)

  slice_suffix : (n i : ℕ) (l : List A) → n + i ≡ length l → slice n i l ≡ map some (drop i l)
  slice_suffix n zero l h =
      slice_prefix n l (omega arith)
      ∙ let e : n ≡ length l = omega arith in ap (map some) (rw e (take_all l))
  slice_suffix n (suc i) [] h = absurd (omega arith)
  slice_suffix n (suc i) (x ∷ l) h = slice-suc n i x l ∙ slice_suffix n i l (omega arith)

next_mod : (r k : ℕ) → r % k + 1 < k → (r + 1) % k ≡ r % k + 1
next_mod r k h = grind arith

wrap_mod : (r k : ℕ) → 0 < k → (r + (k - r % k)) % k ≡ 0
wrap_mod r k h = grind arith

-- The state after `n` turns.
abbrev after_turns : ℕ → LeaderState → LeaderState
after_turns n s = record s { round_robin = s.round_robin + n }

turn_lem :
    (s : LeaderState)
    → 0 < length s.agents_sorted
    → next_agent s ≡ (
      resolve s (get_elem? s.agents_sorted (s.round_robin % length s.agents_sorted)),
      after_turns 1 s,
    )
unfolding next_agent
turn_lem s h = ground arith

turns_between :
    (n : ℕ) (s : LeaderState)
    → 0 < length s.agents_sorted
    → n + s.round_robin % length s.agents_sorted ≤ length s.agents_sorted
    → turns n s ≡ map (resolve s) (slice n (s.round_robin % length s.agents_sorted) s.agents_sorted)
unfolding turns slice resolve
turns_between zero s pos_ h = refl
turns_between (suc zero) s pos_ h = rw (turn_lem s pos_, turns) refl
turns_between (suc (suc n)) s pos_ h =
    let k = length s.agents_sorted in
    let e : (s.round_robin + 1) % k ≡ suc (s.round_robin % k) =
      next_mod s.round_robin k (omega arith) ∙ omega arith in
    let ih = turns_between (suc n) (after_turns 1 s) pos_ (rw e (omega arith)) in
    rw (turn_lem s pos_)
      (ap (◌∷◌ (resolve s (get_elem? s.agents_sorted (s.round_robin % k)))) (rw e at ih))

turns-add :
    (m n : ℕ) (s : LeaderState)
    → 0 < length s.agents_sorted
    → turns (m + n) s ≡ turns m s ++ turns n (after_turns m s)
unfolding turns
turns-add zero n s h =
    let e : s.round_robin + 0 ≡ s.round_robin = omega arith in
    let f : 0 + n ≡ n = omega arith in rw (e, f) refl
turns-add (suc m) n s h =
    let e : suc m + n ≡ suc (m + n) = omega arith in
    let f : s.round_robin + suc m ≡ s.round_robin + 1 + m = omega arith in
    rw (e, f, turn_lem s h)
      (ap (◌∷◌ (resolve s (get_elem? s.agents_sorted (s.round_robin % length s.agents_sorted))))
        (turns-add m n (after_turns 1 s) h))

map-resolve :
    (s : LeaderState) (l : List String)
    → map (resolve s) (map some l) ≡ map (λ id. lookup id s.agents) l
unfolding resolve
map-resolve s [] = refl
map-resolve s (x ∷ l) = ap (◌∷◌ (lookup x s.agents)) (map-resolve s l)

-- As many turns in a row as there are agents go to the sorted agents in their order, from the one
-- whose turn it was to the end and on from the beginning.
pub turns_rotate :
    (s : LeaderState)
    → 0 < length s.agents_sorted
    → let k = length s.agents_sorted in
      let m = s.round_robin % k in
      turns k s
      ≡ map (λ id. lookup id s.agents) (drop m s.agents_sorted)
        ++ map (λ id. lookup id s.agents) (take m s.agents_sorted)
turns_rotate s h =
    let k = length s.agents_sorted in
    let m = s.round_robin % k in
    let split : k - m + m ≡ k = grind arith in
    let s' = after_turns (k - m) s in
    let back : (s.round_robin + (k - m)) % k ≡ 0 = wrap_mod s.round_robin k h in
    let first : turns (k - m) s ≡ map (λ id. lookup id s.agents) (drop m s.agents_sorted) =
      turns_between (k - m) s h (grind arith)
      ∙ ap (map (resolve s)) (slice_suffix (k - m) m s.agents_sorted (grind arith))
      ∙ map-resolve s (drop m s.agents_sorted) in
    let second : turns m s' ≡ map (λ id. lookup id s.agents) (take m s.agents_sorted) =
      turns_between m s' h (grind arith)
      ∙ ap (map (resolve s')) ((rw back refl) ∙ slice_prefix m s.agents_sorted (grind arith))
      ∙ map-resolve s' (take m s.agents_sorted) in
    subst
      (λ n.
        turns n s
        ≡ map (λ id. lookup id s.agents) (drop m s.agents_sorted)
          ++ map (λ id. lookup id s.agents) (take m s.agents_sorted))
      split (turns-add (k - m) m s h ∙ ap₂ ◌++◌ first second)
