-- ===== src/Leader/EventBus.antt =====
-- internal/leader/events.go: the subscribers, each with a channel that holds one topic. A channel is
-- named by a number.
pub mod Laws
use easyrun.Prelude.{
  ℕ, Bool, true, false, List, [], ◌∷◌, ◌++◌, map, Option, none, some, ◌==◌, if◌then◌else◌,
}
use easyrun.Prelude.Text.{String}

abbrev pub EventBus : Type 0
EventBus = List (ℕ × Option String)

unfoldable pub subscribe : ℕ → EventBus → EventBus
subscribe ch b = b ++ (ch, none) ∷ []

unfoldable pub unsubscribe : ℕ → EventBus → EventBus
unsubscribe ch [] = []
unsubscribe ch ((l, p) ∷ b) = if l == ch then b else (l, p) ∷ unsubscribe ch b

-- A topic that waits is taken out for the new one.
unfoldable pub offer : String → Option String → Option String
offer topic none = some topic
offer topic (some stale) = some topic

unfoldable pub notify : String → EventBus → EventBus
unfolding offer
notify topic [] = []
notify topic ((l, p) ∷ b) = (l, offer topic p) ∷ notify topic b

-- The subscriber takes what its channel holds.
unfoldable pub receive : ℕ → EventBus → EventBus
receive ch [] = []
receive ch ((l, p) ∷ b) = if l == ch then (l, none) ∷ b else (l, p) ∷ receive ch b

pub data Op : Type 0 where
  subscribes unsubscribes receives : ℕ → Op
  notifies : String → Op

unfoldable pub perform : Op → EventBus → EventBus
perform (subscribes ch) b = subscribe ch b
perform (unsubscribes ch) b = unsubscribe ch b
perform (receives ch) b = receive ch b
perform (notifies topic) b = notify topic b

unfoldable pub perform_all : List Op → EventBus → EventBus
perform_all [] b = b
perform_all (op ∷ ops) b = perform_all ops (perform op b)

-- What the channel of a subscriber holds; `none` is nobody.
unfoldable pub held_by : ℕ → EventBus → Option (Option String)
held_by ch [] = none
held_by ch ((l, p) ∷ b) = if l == ch then some p else held_by ch b
