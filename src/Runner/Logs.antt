-- ===== src/Runner/Logs.antt =====
-- internal/runner/logs.go: the log of one task, its last lines in a ring and the listeners of its
-- stream, and the store of the logs of running tasks and of those that finished not long ago. A
-- channel is an index into the channels that the broadcaster has made. A send on a closed channel
-- and a second close panic in Go: they are `none` here.
pub mod Store
pub mod Run
pub mod Ring
pub mod Channels
use easyrun.Prelude.{
  ℕ, suc, ◌+◌, ◌-◌, ◌%◌, Bool, true, false, Option, none, some, List, [], ◌∷◌, ◌++◌, ltb, ◌==◌,
  if◌then◌else◌, get_elem?, set, length, replicate, or_else, zero, ◌>>=◌,
}
use easyrun.Prelude.Text.{String}

abbrev pub tail_size : ℕ
tail_size = 50

abbrev pub channel_size : ℕ
channel_size = 100

pub record Channel : Type 0 where
  pub buffer : List String
  pub is_closed : Bool

pub record LogBroadcaster : Type 0 where
  pub listeners : List ℕ
  pub tail : List String
  pub tail_pos : ℕ
  pub tail_count : ℕ
  pub closed : Bool
  -- Every channel that `subscribe` has made, whoever reads it.
  pub channels : List Channel

unfoldable pub new_log_broadcaster : LogBroadcaster
new_log_broadcaster = record {
  listeners = [];
  tail = replicate tail_size "";
  tail_pos = 0;
  tail_count = 0;
  closed = false;
  channels = [];
}

-- A send that does not wait: a full channel loses the line.
unfoldable pub send : String → Channel → Option Channel
send line c =
    if c.is_closed
    then none
    else if ltb (length c.buffer) channel_size
    then some (record c { buffer = c.buffer ++ (line ∷ []) })
    else some c

unfoldable pub close_channel : Channel → Option Channel
close_channel c = if c.is_closed then none else some (record c { is_closed = true })

-- What a step does to the channel at an index, which the listeners are.
unfoldable pub at_channel : (Channel → Option Channel) → ℕ → List Channel → Option (List Channel)
at_channel f i [] = none
at_channel f zero (c ∷ cs) = do c' ← f c; some (c' ∷ cs)
at_channel f (suc i) (c ∷ cs) = do cs' ← at_channel f i cs; some (c ∷ cs')

unfoldable pub at_channels :
    (Channel → Option Channel) → List ℕ → List Channel → Option (List Channel)
at_channels f [] cs = some cs
at_channels f (l ∷ ls) cs = do cs' ← at_channel f l cs; at_channels f ls cs'

unfoldable pub write : String → LogBroadcaster → Option LogBroadcaster
write line b = do
  cs ← at_channels (send line) b.listeners b.channels
  some (record b {
    tail = set b.tail (b.tail_pos % tail_size) line;
    tail_pos = suc b.tail_pos;
    tail_count = if ltb b.tail_count tail_size then suc b.tail_count else b.tail_count;
    channels = cs;
  })

unfoldable pub ring_at : List String → ℕ → String
ring_at tail i = or_else (get_elem? tail i) ""

-- The lines of the ring from a position on.
unfoldable pub ring_lines : List String → ℕ → ℕ → List String
ring_lines tail start zero = []
ring_lines tail start (suc n) = ring_at tail (start % tail_size) ∷ ring_lines tail (suc start) n

unfoldable pub tail_lines : LogBroadcaster → List String
tail_lines b = ring_lines b.tail (b.tail_pos - b.tail_count) b.tail_count

-- The channel that a caller gets is the last one, whose index is the number of those before it.
unfoldable pub subscribe : LogBroadcaster → ℕ × LogBroadcaster
subscribe b =
    let ch = length b.channels in
    let history = ring_lines b.tail (b.tail_pos - b.tail_count) b.tail_count in
    let c : Channel = record { buffer = history; is_closed = b.closed } in
    (
      ch,
      record b {
        listeners = if b.closed then b.listeners else b.listeners ++ (ch ∷ []);
        channels = b.channels ++ (c ∷ []);
      },
    )

-- The listeners without the first one that is the channel, and whether there was one.
unfoldable pub without_listener : ℕ → List ℕ → Bool × List ℕ
without_listener ch [] = (false, [])
without_listener ch (l ∷ ls) =
    let rest = without_listener ch ls in if l == ch then (true, ls) else (rest.0, l ∷ rest.1)

unfoldable pub unsubscribe : ℕ → LogBroadcaster → Option LogBroadcaster
unsubscribe ch b =
    let (found, ls) = without_listener ch b.listeners in
    if found
    then at_channel close_channel ch b.channels
      >>= (λ cs. some (record b { listeners = ls; channels = cs }))
    else some b

unfoldable pub close : LogBroadcaster → Option LogBroadcaster
close b = do
  cs ← at_channels close_channel b.listeners b.channels
  some (record b { listeners = []; closed = true; channels = cs })
