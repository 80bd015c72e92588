-- ===== src/Runner/Logs/Ring.antt =====
-- The ring of the last lines: what Tail and Subscribe of internal/runner/logs.go give.
use easyrun.Prelude.{
  ℕ, zero, suc, ◌+◌, ◌-◌, ◌%◌, ◌≤◌, ◌<◌, ◌≡◌, ◌≢◌, refl, sym, ap, subst, ◌∙◌, Option, none, some,
  List, [], ◌∷◌, ◌++◌, arith, ltb, ◌==◌, if◌then◌else◌, set, length, drop, Bool-cases, Option-cases,
  length-append, inl, inr,
}
use easyrun.Prelude.Text.{String}
use easyrun.Runner.Logs.{
  LogBroadcaster, new_log_broadcaster, tail_size, ring_at, ring_lines, tail_lines, write, subscribe,
  unsubscribe, close, send, at_channels, at_channel, close_channel, without_listener,
}
use easyrun.Runner.Logs.Run.{
  Call, call_write, call_subscribe, call_close, call_unsubscribe, step, run, written, all_written,
}

ring_at-set_self :
    (tail : List String) (i : ℕ) (v : String) → i < length tail → ring_at (set tail i v) i ≡ v
unfolding ring_at
ring_at-set_self [] i v h = ground arith
ring_at-set_self (x ∷ xs) zero v h = refl
ring_at-set_self (x ∷ xs) (suc i) v h = ring_at-set_self xs i v (omega arith)

ring_at-set_other :
    (tail : List String) (i j : ℕ) (v : String) → i ≢ j → ring_at (set tail i v) j ≡ ring_at tail j
unfolding ring_at
ring_at-set_other [] i j v h = refl
ring_at-set_other (x ∷ xs) zero zero v h = absurd (h refl)
ring_at-set_other (x ∷ xs) zero (suc j) v h = refl
ring_at-set_other (x ∷ xs) (suc i) zero v h = refl
ring_at-set_other (x ∷ xs) (suc i) (suc j) v h = ring_at-set_other xs i j v (λ e. h (ap suc e))

length-set : {A : Type 0} (xs : List A) (i : ℕ) (v : A) → length (set xs i v) ≡ length xs
length-set [] i v = refl
length-set (x ∷ xs) zero v = refl
length-set (x ∷ xs) (suc i) v = ap suc (length-set xs i v)

ring_at-append_left :
    (xs ys : List String) (i : ℕ) → i < length xs → ring_at (xs ++ ys) i ≡ ring_at xs i
unfolding ring_at
ring_at-append_left [] ys i h = ground arith
ring_at-append_left (x ∷ xs) ys zero h = refl
ring_at-append_left (x ∷ xs) ys (suc i) h = ring_at-append_left xs ys i (omega arith)

ring_at-append_end : (xs : List String) (y : String) → ring_at (xs ++ (y ∷ [])) (length xs) ≡ y
unfolding ring_at
ring_at-append_end [] y = refl
ring_at-append_end (x ∷ xs) y = ring_at-append_end xs y

drop-ring_at :
    (xs : List String) (i : ℕ) → i < length xs → drop i xs ≡ ring_at xs i ∷ drop (suc i) xs
unfolding ring_at
drop-ring_at [] i h = ground arith
drop-ring_at (x ∷ xs) zero h = refl
drop-ring_at (x ∷ xs) (suc i) h = drop-ring_at xs i (omega arith)

drop-all : (xs : List String) (i : ℕ) → length xs ≤ i → drop i xs ≡ []
drop-all [] zero h = refl
drop-all [] (suc i) h = refl
drop-all (x ∷ xs) zero h = ground arith
drop-all (x ∷ xs) (suc i) h = drop-all xs i (omega arith)

-- The ring holds the history's lines from a position on, each at its position modulo the size.
abbrev Holds : List String → List String → Type 0
Holds tail ls =
    (j : ℕ)
    → j < length ls
    → length ls ≤ j + tail_size
    → ring_at tail (j % tail_size) ≡ ring_at ls j

ring_lines-drop :
    (tail ls : List String) (start n : ℕ)
    → Holds tail ls
    → start + n ≡ length ls
    → n ≤ tail_size
    → ring_lines tail start n ≡ drop start ls
unfolding ring_lines
ring_lines-drop tail ls start zero h e l = sym (drop-all ls start (omega arith))
ring_lines-drop tail ls start (suc n) h e l = rw (
  drop-ring_at ls start (omega arith),
  h start (omega arith) (omega arith),
  ring_lines-drop tail ls (suc start) n h (omega arith) (omega arith),
)

-- What a broadcaster remembers of the lines written to it.
abbrev Remembers : LogBroadcaster → List String → Type 0
Remembers b ls =
    (length b.tail ≡ tail_size)
    × (b.tail_pos ≡ length ls)
    × (b.tail_count ≡ (if ltb (length ls) tail_size then length ls else tail_size))
    × Holds b.tail ls

Holds-set :
    (tail ls : List String) (line : String)
    → length tail ≡ tail_size
    → Holds tail ls
    → Holds (set tail (length ls % tail_size) line) (ls ++ (line ∷ []))
Holds-set tail ls line e h j below above = elim (Bool-cases (j == length ls)) [
  | inl same ↦
      let at : j ≡ length ls = ground arith in
      rw (at, ring_at-append_end ls line)
        (ring_at-set_self tail (length ls % tail_size) line (omega arith))
  | inr other ↦
      let less : j < length ls = ground (arith, length-append ls (line ∷ [])) in
      rw
        (
          ring_at-append_left ls (line ∷ []) j less,
          sym (h j less (ground (arith, length-append ls (line ∷ [])))),
        )
        (ring_at-set_other tail (length ls % tail_size) (j % tail_size) line
          (λ same. omega (arith, same, less, above, length-append ls (line ∷ []))))
]

-- A call's result keeps a property of the broadcaster, where it does not panic.
abbrev Keeps : List String → Option LogBroadcaster → Type 0
Keeps ls none = Unit
Keeps ls (some b) = Remembers b ls

append_nil : {A : Type 0} (xs : List A) → xs ++ [] ≡ xs
append_nil [] = refl
append_nil (x ∷ xs) = rw (append_nil xs)

write-Keeps :
    (line : String) (b : LogBroadcaster) (ls : List String)
    → Remembers b ls
    → Keeps (ls ++ (line ∷ [])) (write line b)
unfolding write
write-Keeps line b ls (size, at, count, holds) =
    elim (Option-cases (at_channels (send line) b.listeners b.channels)) [
      | inl e ↦ simp e tt
      | inr (cs, e) ↦ simp e (
        length-set b.tail (b.tail_pos % tail_size) line ∙ size,
        omega (arith, at, length-append ls (line ∷ [])),
        ground (arith, at, count, length-append ls (line ∷ [])),
        rw at (Holds-set b.tail ls line size holds),
      )
    ]

step-Keeps :
    (c : Call) (b : LogBroadcaster) (ls : List String)
    → Remembers b ls
    → Keeps (ls ++ written c) (step c b)
unfolding step subscribe close unsubscribe
step-Keeps (call_write line) b ls h = write-Keeps line b ls h
step-Keeps call_subscribe b ls h = rw (append_nil ls) h
step-Keeps call_close b ls h =
    elim (Option-cases (at_channels close_channel b.listeners b.channels)) [
      | inl e ↦ simp e tt
      | inr (cs, e) ↦ simp (e, append_nil ls) h
    ]
step-Keeps (call_unsubscribe ch) b ls h = elim (Bool-cases (without_listener ch b.listeners).0) [
  | inl f ↦ elim (Option-cases (at_channel close_channel ch b.channels)) [
    | inl e ↦ simp (e, f) tt
    | inr (cs, e) ↦ simp (e, f, append_nil ls) h
  ]
  | inr f ↦ simp (f, append_nil ls) h
]

append_assoc : {A : Type 0} (xs ys zs : List A) → (xs ++ ys) ++ zs ≡ xs ++ (ys ++ zs)
append_assoc [] ys zs = refl
append_assoc (x ∷ xs) ys zs = rw (append_assoc xs ys zs)

run-Keeps :
    (cs : List Call) (b : LogBroadcaster) (ls : List String)
    → Remembers b ls
    → Keeps (ls ++ all_written cs) (run cs b)
unfolding run
run-Keeps [] b ls h = rw (append_nil ls) h
run-Keeps (c ∷ cs) b ls h = elim (Option-cases (step c b)) [
  | inl e ↦ simp e tt
  | inr (b', e) ↦
      simp (e, sym (append_assoc ls (written c) (all_written cs)))
        (run-Keeps cs b' (ls ++ written c)
          (subst (Keeps (ls ++ written c)) e (step-Keeps c b ls h)))
]

new-Remembers : Remembers new_log_broadcaster []
unfolding new_log_broadcaster
new-Remembers = (refl, refl, refl, λ j h k. ground arith)

Remembers-tail_lines :
    (b : LogBroadcaster) (ls : List String)
    → Remembers b ls
    → tail_lines b ≡ drop (length ls - tail_size) ls
unfolding tail_lines
Remembers-tail_lines b ls (size, at, count, holds) =
    let start : b.tail_pos - b.tail_count ≡ length ls - tail_size = ground (arith, at, count) in
    ring_lines-drop b.tail ls (b.tail_pos - b.tail_count) b.tail_count holds
      (ground (arith, at, count)) (ground (arith, count))
    ∙ ap (λ i. drop i ls) start

Keeps-tail_lines :
    (o : Option LogBroadcaster) (b : LogBroadcaster) (ls : List String)
    → o ≡ some b
    → Keeps ls o
    → tail_lines b ≡ drop (length ls - tail_size) ls
Keeps-tail_lines o b ls e h = Remembers-tail_lines b ls (subst (Keeps ls) e h)

-- After any sequence of the calls on a new broadcaster, however they interleave writers, readers
-- and the close, Tail gives the last fifty of the lines that were written, in their order, or all
-- of them while there are fewer.
pub run-tail_lines :
    (cs : List Call) (b : LogBroadcaster)
    → run cs new_log_broadcaster ≡ some b
    → tail_lines b ≡ drop (length (all_written cs) - tail_size) (all_written cs)
run-tail_lines cs b e =
    Keeps-tail_lines (run cs new_log_broadcaster) b (all_written cs) e
      (run-Keeps cs new_log_broadcaster [] new-Remembers)
