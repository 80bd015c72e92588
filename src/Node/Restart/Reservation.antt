-- ===== src/Node/Restart/Reservation.antt =====
-- What restartTask of internal/agent/handlers.go does to the node's reservations: the swap is one
-- operation, so the memory that is handed out changes by the two limits alone.
use easyrun.Prelude.{◌+◌, ◌≤◌, ◌≡◌, refl, [], ◌∷◌, none, some, arith, if◌then◌else◌}
use easyrun.Prelude.Text.{String, str_eq}
use easyrun.Prelude.Dict.{
  Dict, lookup, erase, values, lookup-insert, lookup-insert_self, lookup-erase,
}
use easyrun.Types.{Task}
use easyrun.Node.State.{AgentState, add_task, drop_task}
use easyrun.Node.Capacity.{is_excluded}
use easyrun.Node.Capacity.Memory.{memory_of, memory_of-insert}
use easyrun.Node.Restart.{swap}

memory_of-erase :
    (k : String) (m : Dict Task) → memory_of "" (values (erase k m)) ≤ memory_of "" (values m)
unfolding memory_of erase
memory_of-erase k [] = omega arith
memory_of-erase k ((j, u) ∷ m) = ground (arith, memory_of-erase k m)

memory_of-erase_found :
    (k : String) (t : Task) (m : Dict Task)
    → lookup k m ≡ some t
    → t.memory_limit + memory_of "" (values (erase k m)) ≤ memory_of "" (values m)
unfolding memory_of erase lookup is_excluded
memory_of-erase_found k t [] e = ground arith
memory_of-erase_found k t ((j, u) ∷ m) e =
    ground (arith, memory_of-erase k m, memory_of-erase_found k t m)

-- The swap of a restart keeps a reservation at every moment, and exactly one: the replacement
-- stands in the place of the task, with one restart more, the replaced id is free (unless the
-- replacement was given that very id), and what the node has handed out grows by no more than the
-- difference of the two memory limits.
swap-memory :
    (task replacement old : Task) (s : AgentState)
    → lookup task.id s.tasks ≡ some old
    → (r : Task) × (s' : AgentState) × (swap task replacement s ≡ some (r, s'))
      × (lookup r.id s'.tasks ≡ some r)
      × (r.restart_count ≡ old.restart_count + 1)
      × ((k : String)
          → lookup k s'.tasks ≡ (
              if str_eq r.id k
              then some r
              else if str_eq task.id k
              then none
              else lookup k s.tasks))
      × (memory_of "" (values s'.tasks) + old.memory_limit
          ≤ memory_of "" (values s.tasks) + replacement.memory_limit)
unfolding swap add_task drop_task is_excluded
swap-memory task replacement old s here =
    let r : Task = record replacement {
      restart_count = old.restart_count + 1;
      last_failed_at = old.last_failed_at;
    } in
    let s' = add_task r (drop_task task.id s) in
    (
      r,
      s',
      rw (here, swap) refl,
      lookup-insert_self r.id r _,
      refl,
      λ k.
          ground
            (arith, lookup-insert r.id k r (erase task.id s.tasks), lookup-erase task.id k s.tasks),
      ground (
        arith,
        memory_of-insert "" r.id r (erase task.id s.tasks),
        memory_of-erase_found task.id old s.tasks here,
      ),
    )
