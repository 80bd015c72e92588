-- ===== src/Leader/EventBus/Laws.antt =====
-- A subscriber of the bus as if it were the only one.
use easyrun.Prelude.{
  ℕ, ◌≡◌, ◌≢◌, refl, ap, ◌∙◌, inl, inr, false, List, [], ◌∷◌, Option, none, some, arith, ◌==◌,
  if◌then◌else◌, Bool-cases, All,
}
use easyrun.Prelude.Text.{String}
use easyrun.Leader.EventBus.{
  EventBus, subscribe, unsubscribe, offer, notify, receive, Op, subscribes, unsubscribes, receives,
  notifies, perform, perform_all, held_by,
}

-- What one operation makes of a channel that is subscribed.
abbrev pub seen_after : ℕ → Op → Option String → Option String
seen_after ch (subscribes l) p = p
seen_after ch (unsubscribes l) p = p
seen_after ch (receives l) p = if l == ch then none else p
seen_after ch (notifies topic) p = some topic

abbrev pub seen_after_all : ℕ → List Op → Option String → Option String
seen_after_all ch [] p = p
seen_after_all ch (op ∷ ops) p = seen_after_all ch ops (seen_after ch op p)

abbrev pub Stays : ℕ → Op → Type 0
Stays ch op = op ≢ unsubscribes ch

held-subscribe :
    (ch l : ℕ) (b : EventBus) (p : Option String)
    → held_by ch b ≡ some p
    → held_by ch (subscribe l b) ≡ some p
unfolding held_by subscribe
held-subscribe ch l [] p h = absurd (ground (arith, h))
held-subscribe ch l ((k, q) ∷ b) p h = elim (Bool-cases (k == ch)) [
  | inl e ↦ simp e (simp e at h)
  | inr e ↦ simp e (held-subscribe ch l b p (simp e at h))
]

held-unsubscribe :
    (ch l : ℕ) (b : EventBus) → (l == ch) ≡ false → held_by ch (unsubscribe l b) ≡ held_by ch b
unfolding held_by unsubscribe
held-unsubscribe ch l [] h = refl
held-unsubscribe ch l ((k, q) ∷ b) h = ground (arith, h, held-unsubscribe ch l b h)

offer-some : (topic : String) (p : Option String) → offer topic p ≡ some topic
unfolding offer
offer-some topic none = refl
offer-some topic (some q) = refl

held-notify :
    (ch : ℕ) (topic : String) (b : EventBus) (p : Option String)
    → held_by ch b ≡ some p
    → held_by ch (notify topic b) ≡ some (some topic)
unfolding held_by notify
held-notify ch topic [] p h = absurd (ground (arith, h))
held-notify ch topic ((k, q) ∷ b) p h = elim (Bool-cases (k == ch)) [
  | inl e ↦ simp e (ap some (offer-some topic q))
  | inr e ↦ simp e (held-notify ch topic b p (simp e at h))
]

held-receive :
    (ch l : ℕ) (b : EventBus) (p : Option String)
    → held_by ch b ≡ some p
    → held_by ch (receive l b) ≡ some (if l == ch then none else p)
unfolding held_by receive
held-receive ch l [] p h = absurd (ground (arith, h))
held-receive ch l ((k, q) ∷ b) p h = ground (arith, h, held-receive ch l b p)

held-perform :
    (ch : ℕ) (op : Op) (b : EventBus) (p : Option String)
    → Stays ch op
    → held_by ch b ≡ some p
    → held_by ch (perform op b) ≡ some (seen_after ch op p)
unfolding perform
held-perform ch (subscribes l) b p stays h = held-subscribe ch l b p h
held-perform ch (receives l) b p stays h = held-receive ch l b p h
held-perform ch (notifies topic) b p stays h = held-notify ch topic b p h
held-perform ch (unsubscribes l) b p stays h = elim (Bool-cases (l == ch)) [
  | inl e ↦ absurd (stays (ap unsubscribes (ground (arith, e))))
  | inr e ↦ held-unsubscribe ch l b e ∙ h
]

-- Whatever else is done to the bus, a subscriber that stays finds in its channel the last topic that
-- was told since it last took one, and nothing if there was none since: no other subscriber, slow or
-- fast, takes a topic from it or keeps one back.
pub perform_all-held :
    (ch : ℕ) (ops : List Op) (b : EventBus) (p : Option String)
    → All (Stays ch) ops
    → held_by ch b ≡ some p
    → held_by ch (perform_all ops b) ≡ some (seen_after_all ch ops p)
unfolding perform_all
perform_all-held ch [] b p stays h = h
perform_all-held ch (op ∷ ops) b p stays h =
    perform_all-held ch ops (perform op b) (seen_after ch op p) stays.1
      (held-perform ch op b p stays.0 h)
