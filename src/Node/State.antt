-- ===== src/Node/State.antt =====
-- internal/agent/agent.go, agentState: the jobs and tasks that one goroutine owns.
-- The source's maps hold pointers. A task that left the map lives on for the goroutines that hold
-- its pointer: `gone` keeps those objects, by their task's id.
use easyrun.Prelude.{ℕ, [], Option, none, some}
use easyrun.Prelude.Text.{String}
use easyrun.Prelude.Dict.{Dict, lookup, insert, erase}
use easyrun.Types.{Job, Task}

pub record AgentState : Type 0 where
  pub jobs : Dict Job
  pub tasks : Dict Task
  pub gone : Dict Task
  pub state_time : ℕ

unfoldable pub init : AgentState
init = record { jobs = []; tasks = []; gone = []; state_time = 0 }

-- `delete(s.tasks, id)`: the object stays with whoever points at it.
unfoldable pub drop_task : String → AgentState → AgentState
drop_task id s = elim (lookup id s.tasks) [
  | none ↦ s
  | some t ↦ record s { tasks = erase id s.tasks; gone = insert id t s.gone }
]

-- `s.tasks[id] = task`.
unfoldable pub add_task : Task → AgentState → AgentState
add_task t s = record s { tasks = insert t.id t s.tasks; gone = erase t.id s.gone }

-- `if t := s.tasks[id]; t != nil { ... }`: a write through the map.
unfoldable pub with_task : String → (Task → Task) → AgentState → AgentState
with_task id f s = elim (lookup id s.tasks) [
  | none ↦ s
  | some t ↦ record s { tasks = insert id (f t) s.tasks }
]

-- What a goroutine reads through a pointer that it holds.
unfoldable pub held : String → AgentState → Option Task
held id s = elim (lookup id s.tasks) [ none ↦ lookup id s.gone | some t ↦ some t ]
