-- ===== src/Runner/Logs/Store/Retention.antt =====
-- What internal/runner/logs.go still finds of the logs of a task that finished.
use easyrun.Prelude.{
  ℕ, ◌+◌, ◌≤◌, leb, ◌≡◌, refl, sym, ap, subst, ◌∙◌, Option, none, some, List, [], ◌∷◌, arith,
  if◌then◌else◌, Bool-cases, Option-cases, inl, inr, ◌>>=◌, All, length, map, ◌<◌, zero, suc,
}
use easyrun.Prelude.Text.{String, str_eq, str_eq_iff}
use easyrun.Prelude.Dict.{
  Dict, lookup, insert, erase, IsUnique, IsUnique-insert, lookup-insert, lookup-erase,
}
use easyrun.Runner.Logs.{LogBroadcaster, tail_lines, close, at_channels, close_channel}
use easyrun.Runner.Logs.Channels.{IsSafe, SafeResult, close-IsSafe}
use easyrun.Runner.Logs.Store.{
  LogPair, LogStore, prune_retired, retired_pair, lookup_logs, retire_pair, retire, close_stream,
  close_broadcaster,
}

lookup-prune_retired-none :
    (now : ℕ) (j : String) (m : Dict LogPair)
    → lookup j m ≡ none
    → lookup j (prune_retired now m) ≡ none
unfolding lookup prune_retired
lookup-prune_retired-none now j [] h = refl
lookup-prune_retired-none now j ((id, p) ∷ m) h =
    ground (arith, h, lookup-prune_retired-none now j m)

-- A look at or after the pruning sees what it would have seen without.
retired_pair-prune_retired :
    (now t : ℕ) (j : String) (m : Dict LogPair)
    → IsUnique m
    → now ≤ t
    → retired_pair t (lookup j (prune_retired now m)) ≡ retired_pair t (lookup j m)
unfolding lookup prune_retired retired_pair
retired_pair-prune_retired now t j [] u h = refl
retired_pair-prune_retired now t j ((id, p) ∷ m) u h = ground (
  arith,
  h,
  str_eq_iff id j,
  u.0,
  lookup-prune_retired-none now j m,
  retired_pair-prune_retired now t j m u.1 h,
)

-- What closing leaves: no broadcaster loses its last lines, and all stay safe.
abbrev KeepsTails : List LogBroadcaster → Option (List LogBroadcaster) → Type 0
KeepsTails bs none = ⊥
KeepsTails bs (some bs') =
    All IsSafe bs' × (length bs' ≡ length bs) × (map tail_lines bs' ≡ map tail_lines bs)

abbrev SameTail : LogBroadcaster → Option LogBroadcaster → Type 0
SameTail b none = Unit
SameTail b (some b') = tail_lines b' ≡ tail_lines b

close-SameTail : (b : LogBroadcaster) → SameTail b (close b)
unfolding close tail_lines
close-SameTail b = elim (Option-cases (at_channels close_channel b.listeners b.channels)) [
  | inl e ↦ simp e tt
  | inr (cs, e) ↦ simp e refl
]

cons-KeepsTails :
    (b : LogBroadcaster) (bs : List LogBroadcaster) (r : Option (List LogBroadcaster))
    → IsSafe b
    → KeepsTails bs r
    → KeepsTails (b ∷ bs) (r >>= λ bs'. some (b ∷ bs'))
cons-KeepsTails b bs none h k = absurd k
cons-KeepsTails b bs (some bs') h (safe, size, same) =
    ((h, safe), ap suc size, ap (λ ts. tail_lines b ∷ ts) same)

first-KeepsTails :
    (b : LogBroadcaster) (bs : List LogBroadcaster) (r : Option LogBroadcaster)
    → SameTail b r
    → SafeResult r
    → All IsSafe bs
    → KeepsTails (b ∷ bs) (r >>= λ b'. some (b' ∷ bs))
first-KeepsTails b bs none e h safe = absurd h
first-KeepsTails b bs (some b') e h safe = ((h, safe), refl, ap (λ t. t ∷ map tail_lines bs) e)

close_broadcaster-KeepsTails :
    (i : ℕ) (bs : List LogBroadcaster)
    → i < length bs
    → All IsSafe bs
    → KeepsTails bs (close_broadcaster i bs)
unfolding close_broadcaster
close_broadcaster-KeepsTails i [] l h = ground (arith, l)
close_broadcaster-KeepsTails zero (b ∷ bs) l h =
    first-KeepsTails b bs (close b) (close-SameTail b) (close-IsSafe b h.0) h.1
close_broadcaster-KeepsTails (suc i) (b ∷ bs) l h =
    cons-KeepsTails b bs (close_broadcaster i bs) h.0
      (close_broadcaster-KeepsTails i bs (omega (arith, l)) h.1)

abbrev pub IsInside : Option ℕ → ℕ → Type 0
IsInside none n = Unit
IsInside (some i) n = i < n

abbrev pub IsPresent : Option LogPair → ℕ → Type 0
IsPresent none n = Unit
IsPresent (some p) n = IsInside p.stdout n × IsInside p.stderr n

close_stream-KeepsTails :
    (o : Option ℕ) (bs : List LogBroadcaster)
    → IsInside o (length bs)
    → All IsSafe bs
    → KeepsTails bs (close_stream o bs)
unfolding close_stream
close_stream-KeepsTails none bs l h = (h, refl, refl)
close_stream-KeepsTails (some i) bs l h = close_broadcaster-KeepsTails i bs l h

-- What the store finds after a task's logs have retired, one statement for every task: the task's
-- own pair with the time of its retirement, up to five minutes after it, and of any other task what it found before.
abbrev found_after : ℕ → ℕ → String → String → Option LogPair → Option LogPair → Option LogPair
found_after now t id j none before = before
found_after now t id j (some p) before =
    if str_eq id j
    then (if leb t (now + 300000000000) then some (record p { retired_at = now }) else none)
    else before

abbrev pub IsReadable : ℕ → ℕ → ℕ → String → LogStore → Option LogStore → Type 0
IsReadable now later t id s none = ⊥
IsReadable now later t id s (some s') =
    (map tail_lines s'.broadcasters ≡ map tail_lines s.broadcasters)
    × ((j : String)
        → lookup_logs t j s' ≡ found_after now t id j (lookup id s.live) (lookup_logs t j s))

abbrev retired_store : ℕ → ℕ → String → LogPair → LogStore → List LogBroadcaster → LogStore
retired_store now later id p s bs = record {
  live = erase id s.live;
  retired = prune_retired later (insert id (record p { retired_at = now }) s.retired);
  broadcasters = bs;
}

within_retention :
    (now t : ℕ) (p : LogPair)
    → retired_pair t (some (record p { retired_at = now }))
      ≡ (if leb t (now + 300000000000) then some (record p { retired_at = now }) else none)
unfolding retired_pair
within_retention now t p = ground arith

retired_store-lookup_logs :
    (now later t : ℕ) (id j : String) (p : LogPair) (s : LogStore) (bs : List LogBroadcaster)
    → IsUnique s.retired
    → later ≤ t
    → lookup_logs t j (retired_store now later id p s bs)
      ≡ found_after now t id j (some p) (lookup_logs t j s)
unfolding lookup_logs
retired_store-lookup_logs now later t id j p s bs u a =
    let q : LogPair = record p { retired_at = now } in
    let pruned =
      retired_pair-prune_retired later t j (insert id q s.retired)
        (IsUnique-insert id q s.retired u) a in
    elim (Bool-cases (str_eq id j)) [
      | inl e ↦
          rw (lookup-erase id j s.live, pruned, lookup-insert id j q s.retired, e)
            (within_retention now t p)
      | inr e ↦ rw (lookup-erase id j s.live, pruned, lookup-insert id j q s.retired, e) refl
    ]

KeepsTails-some :
    (bs : List LogBroadcaster) (r : Option (List LogBroadcaster))
    → KeepsTails bs r
    → (bs' : List LogBroadcaster) × (r ≡ some bs') × KeepsTails bs (some bs')
KeepsTails-some bs none k = absurd k
KeepsTails-some bs (some bs') k = (bs', refl, k)

retire_live_case :
    (now later t : ℕ) (id : String) (s : LogStore) (p : LogPair)
    → IsUnique s.retired
    → All IsSafe s.broadcasters
    → IsPresent (some p) (length s.broadcasters)
    → later ≤ t
    → lookup id s.live ≡ some p
    → IsReadable now later t id s (retire now later id s)
unfolding retire retire_pair
retire_live_case now later t id s p u safe (out, err) a e =
    let (bs, f, (safe', size, same)) =
      KeepsTails-some s.broadcasters (close_stream p.stdout s.broadcasters)
        (close_stream-KeepsTails p.stdout s.broadcasters out safe) in
    let (bs', g, (_, _, same')) =
      KeepsTails-some bs (close_stream p.stderr bs)
        (close_stream-KeepsTails p.stderr bs (subst (IsInside p.stderr) (sym size) err) safe') in
    simp (e, f, g) (same' ∙ same, λ j. retired_store-lookup_logs now later t id j p s bs' u a)

-- When a task's logs retire, in a store where no name stands twice among the retired, every
-- broadcaster is safe and the task's pair is of broadcasters that are there: nothing panics; every
-- broadcaster keeps its last lines; and a look at or after the pruning finds the task's own logs
-- for five minutes from the moment of retirement, and not after, and for every other task
-- exactly what it would have found without the call, so that the pruning loses nothing that could
-- still be read. Where the task has no live logs, nothing is found differently.
pub retire-IsReadable :
    (now later t : ℕ) (id : String) (s : LogStore)
    → IsUnique s.retired
    → All IsSafe s.broadcasters
    → IsPresent (lookup id s.live) (length s.broadcasters)
    → later ≤ t
    → IsReadable now later t id s (retire now later id s)
unfolding retire retire_pair lookup_logs
retire-IsReadable now later t id s u safe here a = elim (Option-cases (lookup id s.live)) [
  | inl e ↦ simp e (refl, λ j. rw (retired_pair-prune_retired later t j s.retired u a) refl)
  | inr (p, e) ↦
      retire_live_case now later t id s p u safe
        (subst (λ o. IsPresent o (length s.broadcasters)) e here) a e
]
