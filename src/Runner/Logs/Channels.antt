-- ===== src/Runner/Logs/Channels.antt =====
-- The channels of a broadcaster of internal/runner/logs.go: that no call panics.
use easyrun.Prelude.{
  ℕ, zero, suc, ◌-◌, ◌<◌, ◌≡◌, ◌≢◌, refl, sym, ap, subst, ◌∙◌, true, false, Option, none, some,
  List, [], ◌∷◌, ◌++◌, arith, ltb, ◌==◌, length, Bool-cases, Option-cases, All-append, inl, inr,
  ◌>>=◌, All,
}
use easyrun.Prelude.Text.{String}
use easyrun.Runner.Logs.{
  Channel, LogBroadcaster, write, subscribe, unsubscribe, close, send, channel_size, at_channels,
  at_channel, close_channel, without_listener, ring_lines,
}
use easyrun.Runner.Logs.Run.{
  Call, call_write, call_subscribe, call_close, call_unsubscribe, step, run,
}

-- The channel at an index is there and open.
abbrev pub IsOpen : List Channel → ℕ → Type 0
IsOpen [] i = ⊥
IsOpen (c ∷ cs) zero = c.is_closed ≡ false
IsOpen (c ∷ cs) (suc i) = IsOpen cs i

abbrev pub IsDistinct : List ℕ → Type 0
IsDistinct [] = Unit
IsDistinct (l ∷ ls) = All (λ k. l ≢ k) ls × IsDistinct ls

-- Every listener is an open channel, and none stands twice.
abbrev pub IsSafe : LogBroadcaster → Type 0
IsSafe b = All (IsOpen b.channels) b.listeners × IsDistinct b.listeners

-- What a step on one channel leaves: the others stay open, and the one too where the step keeps it.
abbrev pub Others : List Channel → ℕ → Option (List Channel) → Type 0
Others cs i none = ⊥
Others cs i (some cs') = (j : ℕ) → i ≢ j → IsOpen cs j → IsOpen cs' j

first-Others : (c c' : Channel) (cs : List Channel) → Others (c ∷ cs) 0 (some (c' ∷ cs))
first-Others c c' cs zero other o = absurd (other refl)
first-Others c c' cs (suc j) other o = o

later-Others :
    (c : Channel) (cs : List Channel) (i : ℕ) (r : Option (List Channel))
    → Others cs i r
    → Others (c ∷ cs) (suc i) (r >>= λ cs'. some (c ∷ cs'))
later-Others c cs i none h = absurd h
later-Others c cs i (some cs') h = at
  where
    at : (j : ℕ) → suc i ≢ j → IsOpen (c ∷ cs) j → IsOpen (c ∷ cs') j
    at zero other o = o
    at (suc j) other o = h j (λ e. other (ap suc e)) o

close-Others :
    (i : ℕ) (cs : List Channel) → IsOpen cs i → Others cs i (at_channel close_channel i cs)
unfolding at_channel close_channel
close-Others i [] h = absurd h
close-Others zero (c ∷ cs) h = simp h (first-Others c (record c { is_closed = true }) cs)
close-Others (suc i) (c ∷ cs) h =
    later-Others c cs i (at_channel close_channel i cs) (close-Others i cs h)

abbrev Same : List Channel → Option (List Channel) → Type 0
Same cs none = ⊥
Same cs (some cs') = (j : ℕ) → IsOpen cs j → IsOpen cs' j

first-Same :
    (c c' : Channel) (cs : List Channel)
    → c'.is_closed ≡ c.is_closed
    → Same (c ∷ cs) (some (c' ∷ cs))
first-Same c c' cs e zero o = e ∙ o
first-Same c c' cs e (suc j) o = o

later-Same :
    (c : Channel) (cs : List Channel) (r : Option (List Channel))
    → Same cs r
    → Same (c ∷ cs) (r >>= λ cs'. some (c ∷ cs'))
later-Same c cs none h = absurd h
later-Same c cs (some cs') h = at
  where
    at : (j : ℕ) → IsOpen (c ∷ cs) j → IsOpen (c ∷ cs') j
    at zero o = o
    at (suc j) o = h j o

send-Same :
    (line : String) (i : ℕ) (cs : List Channel)
    → IsOpen cs i
    → Same cs (at_channel (send line) i cs)
unfolding at_channel send
send-Same line i [] h = absurd h
send-Same line zero (c ∷ cs) h = elim (Bool-cases (ltb (length c.buffer) channel_size)) [
  | inl e ↦
      simp (h, e)
        (first-Same c (record { buffer = c.buffer ++ (line ∷ []); is_closed = false }) cs (sym h))
  | inr e ↦ simp (h, e) (first-Same c c cs refl)
]
send-Same line (suc i) (c ∷ cs) h =
    later-Same c cs (at_channel (send line) i cs) (send-Same line i cs h)

All-IsOpen :
    (cs cs' : List Channel) (ls : List ℕ)
    → Same cs (some cs')
    → All (IsOpen cs) ls
    → All (IsOpen cs') ls
All-IsOpen cs cs' [] s h = tt
All-IsOpen cs cs' (l ∷ ls) s h = (s l h.0, All-IsOpen cs cs' ls s h.1)

-- Sends to listeners that are open reach each of them and close none.
bind-Same :
    (line : String) (cs : List Channel) (ls : List ℕ) (r : Option (List Channel))
    → Same cs r
    → ((cs' : List Channel) → Same cs (some cs') → Same cs' (at_channels (send line) ls cs'))
    → Same cs (r >>= at_channels (send line) ls)
bind-Same line cs ls none h k = absurd h
bind-Same line cs ls (some cs') h k = compose (at_channels (send line) ls cs') (k cs' h)
  where
    compose : (r : Option (List Channel)) → Same cs' r → Same cs r
    compose none g = absurd g
    compose (some cs'') g = λ j o. g j (h j o)

sends-Same :
    (line : String) (ls : List ℕ) (cs : List Channel)
    → All (IsOpen cs) ls
    → Same cs (at_channels (send line) ls cs)
unfolding at_channels
sends-Same line [] cs h = λ j o. o
sends-Same line (l ∷ ls) cs h =
    bind-Same line cs ls (at_channel (send line) l cs) (send-Same line l cs h.0)
      λ cs' s. sends-Same line ls cs' (All-IsOpen cs cs' ls s h.1)

All-Others :
    (cs cs' : List Channel) (l : ℕ) (ls : List ℕ)
    → Others cs l (some cs')
    → All (λ k. l ≢ k) ls
    → All (IsOpen cs) ls
    → All (IsOpen cs') ls
All-Others cs cs' l [] s d h = tt
All-Others cs cs' l (k ∷ ls) s d h = (s k d.0 h.0, All-Others cs cs' l ls s d.1 h.1)

abbrev IsSome : {A : Type 0} → Option A → Type 0
IsSome none = ⊥
IsSome (some a) = Unit

bind-IsSome :
    (cs : List Channel) (l : ℕ) (ls : List ℕ) (r : Option (List Channel))
    → Others cs l r
    → ((cs' : List Channel) → Others cs l (some cs') → IsSome (at_channels close_channel ls cs'))
    → IsSome (r >>= at_channels close_channel ls)
bind-IsSome cs l ls none h k = absurd h
bind-IsSome cs l ls (some cs') h k = k cs' h

closes-IsSome :
    (ls : List ℕ) (cs : List Channel)
    → All (IsOpen cs) ls
    → IsDistinct ls
    → IsSome (at_channels close_channel ls cs)
unfolding at_channels
closes-IsSome [] cs h d = tt
closes-IsSome (l ∷ ls) cs h d =
    bind-IsSome cs l ls (at_channel close_channel l cs) (close-Others l cs h.0)
      λ cs' s. closes-IsSome ls cs' (All-Others cs cs' l ls s d.0 h.1) d.1

IsOpen-append : (cs : List Channel) (c : Channel) (i : ℕ) → IsOpen cs i → IsOpen (cs ++ (c ∷ [])) i
IsOpen-append [] c i h = absurd h
IsOpen-append (d ∷ cs) c zero h = h
IsOpen-append (d ∷ cs) c (suc i) h = IsOpen-append cs c i h

IsOpen-lt : (cs : List Channel) (i : ℕ) → IsOpen cs i → i < length cs
IsOpen-lt [] i h = absurd h
IsOpen-lt (d ∷ cs) zero h = omega arith
IsOpen-lt (d ∷ cs) (suc i) h = omega (arith, IsOpen-lt cs i h)

IsOpen-end :
    (cs : List Channel) (c : Channel) → c.is_closed ≡ false → IsOpen (cs ++ (c ∷ [])) (length cs)
IsOpen-end [] c h = h
IsOpen-end (d ∷ cs) c h = IsOpen-end cs c h

All-lt : (cs : List Channel) (ls : List ℕ) → All (IsOpen cs) ls → All (λ k. k < length cs) ls
All-lt cs [] h = tt
All-lt cs (l ∷ ls) h = (IsOpen-lt cs l h.0, All-lt cs ls h.1)

IsDistinct-append :
    (ls : List ℕ) (n : ℕ) → IsDistinct ls → All (λ k. k < n) ls → IsDistinct (ls ++ (n ∷ []))
IsDistinct-append [] n d h = (tt, tt)
IsDistinct-append (l ∷ ls) n d h = (
  All-append (λ k. l ≢ k) ls (n ∷ []) d.0 (λ e. omega (arith, e, h.0), tt),
  IsDistinct-append ls n d.1 h.1,
)

module _ (P : ℕ → Type 0) (ch : ℕ) where
  without_listener-All : (ls : List ℕ) → All P ls → All P (without_listener ch ls).1
  unfolding without_listener
  without_listener-All [] h = tt
  without_listener-All (l ∷ ls) h = elim (Bool-cases (l == ch)) [
    | inl e ↦ simp e h.1
    | inr e ↦ simp e (h.0, without_listener-All ls h.1)
  ]

  without_listener-found : (ls : List ℕ) → (without_listener ch ls).0 ≡ true → All P ls → P ch
  unfolding without_listener
  without_listener-found [] f h = ground (arith, f)
  without_listener-found (l ∷ ls) f h = elim (Bool-cases (l == ch)) [
    | inl e ↦ subst P (ground (arith, e)) h.0
    | inr e ↦ without_listener-found ls (ground (arith, f, e)) h.1
  ]

without_listener-IsDistinct :
    (ch : ℕ) (ls : List ℕ) → IsDistinct ls → IsDistinct (without_listener ch ls).1
unfolding without_listener
without_listener-IsDistinct ch [] d = tt
without_listener-IsDistinct ch (l ∷ ls) d = elim (Bool-cases (l == ch)) [
  | inl e ↦ simp e d.1
  | inr e ↦
      simp e (without_listener-All (λ k. l ≢ k) ch ls d.0, without_listener-IsDistinct ch ls d.1)
]

without_listener-gone :
    (ch : ℕ) (ls : List ℕ)
    → (without_listener ch ls).0 ≡ true
    → IsDistinct ls
    → All (λ k. ch ≢ k) (without_listener ch ls).1
unfolding without_listener
without_listener-gone ch [] f d = tt
without_listener-gone ch (l ∷ ls) f d = elim (Bool-cases (l == ch)) [
  | inl e ↦ simp e (subst (λ i. All (λ k. i ≢ k) ls) (ground (arith, e)) d.0)
  | inr e ↦
      simp e
        (λ same. ground (arith, e, same), without_listener-gone ch ls (ground (arith, f, e)) d.1)
]

-- A result that is there and safe.
abbrev pub SafeResult : Option LogBroadcaster → Type 0
SafeResult none = ⊥
SafeResult (some b) = IsSafe b

write-IsSafe : (line : String) (b : LogBroadcaster) → IsSafe b → SafeResult (write line b)
unfolding write
write-IsSafe line b h = elim (Option-cases (at_channels (send line) b.listeners b.channels)) [
  | inl e ↦ absurd (subst (Same b.channels) e (sends-Same line b.listeners b.channels h.0))
  | inr (cs, e) ↦ simp e (
    All-IsOpen b.channels cs b.listeners
        (subst (Same b.channels) e (sends-Same line b.listeners b.channels h.0)) h.0,
    h.1,
  )
]

pub close-IsSafe : (b : LogBroadcaster) → IsSafe b → SafeResult (close b)
unfolding close
close-IsSafe b h = elim (Option-cases (at_channels close_channel b.listeners b.channels)) [
  | inl e ↦ absurd (subst IsSome e (closes-IsSome b.listeners b.channels h.0 h.1))
  | inr (cs, e) ↦ simp e (tt, tt)
]

abbrev history : LogBroadcaster → List String
history b = ring_lines b.tail (b.tail_pos - b.tail_count) b.tail_count

subscribe-IsSafe : (b : LogBroadcaster) → IsSafe b → IsSafe (subscribe b).1
unfolding subscribe
subscribe-IsSafe b h = elim (Bool-cases b.closed) [
  | inl e ↦
      let c : Channel = record { buffer = history b; is_closed = true } in
      simp e (
        All-IsOpen b.channels (b.channels ++ (c ∷ [])) b.listeners (IsOpen-append b.channels c) h.0,
        h.1,
      )
  | inr e ↦
      let c : Channel = record { buffer = history b; is_closed = false } in
      simp e (
        All-append (IsOpen (b.channels ++ (c ∷ []))) b.listeners (length b.channels ∷ [])
            (All-IsOpen b.channels (b.channels ++ (c ∷ [])) b.listeners (IsOpen-append b.channels c)
              h.0)
            (IsOpen-end b.channels c refl, tt),
        IsDistinct-append b.listeners (length b.channels) h.1 (All-lt b.channels b.listeners h.0),
      )
]

unsubscribe-IsSafe : (ch : ℕ) (b : LogBroadcaster) → IsSafe b → SafeResult (unsubscribe ch b)
unfolding unsubscribe
unsubscribe-IsSafe ch b h = elim (Bool-cases (without_listener ch b.listeners).0) [
  | inl f ↦
      let ls : List ℕ = (without_listener ch b.listeners).1 in
      let is_open : IsOpen b.channels ch =
        without_listener-found (IsOpen b.channels) ch b.listeners f h.0 in
      elim (Option-cases (at_channel close_channel ch b.channels)) [
        | inl e ↦ absurd (subst (Others b.channels ch) e (close-Others ch b.channels is_open))
        | inr (cs, e) ↦
            simp (f, e)
              (
                All-Others b.channels cs ch ls
                    (subst (Others b.channels ch) e (close-Others ch b.channels is_open))
                    (without_listener-gone ch b.listeners f h.1)
                    (without_listener-All (IsOpen b.channels) ch b.listeners h.0),
                without_listener-IsDistinct ch b.listeners h.1,
              )
      ]
  | inr f ↦ simp f h
]

step-IsSafe : (c : Call) (b : LogBroadcaster) → IsSafe b → SafeResult (step c b)
unfolding step
step-IsSafe (call_write line) b h = write-IsSafe line b h
step-IsSafe call_subscribe b h = subscribe-IsSafe b h
step-IsSafe call_close b h = close-IsSafe b h
step-IsSafe (call_unsubscribe ch) b h = unsubscribe-IsSafe ch b h

bind-SafeResult :
    (r : Option LogBroadcaster) (k : LogBroadcaster → Option LogBroadcaster)
    → SafeResult r
    → ((b : LogBroadcaster) → IsSafe b → SafeResult (k b))
    → SafeResult (r >>= k)
bind-SafeResult none k h f = absurd h
bind-SafeResult (some b) k h f = f b h

-- From a broadcaster whose listeners are distinct open channels, as a new one is, no sequence of
-- calls panics: no line is sent on a closed channel and none is closed twice, whoever unsubscribes
-- or closes when. The listeners are distinct open channels at the end of every such sequence.
pub run-SafeResult : (cs : List Call) (b : LogBroadcaster) → IsSafe b → SafeResult (run cs b)
unfolding run
run-SafeResult [] b h = h
run-SafeResult (c ∷ cs) b h =
    bind-SafeResult (step c b) (run cs) (step-IsSafe c b h) (run-SafeResult cs)
