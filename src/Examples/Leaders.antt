-- ===== src/Examples/Leaders.antt =====
-- The theorems about the leader, applied.
use easyrun.Prelude.{
  List, ◌==◌, ◌≡◌, ◌⊎◌, refl, true, false, [], ◌∷◌, Option, none, some, arith, if◌then◌else◌,
  is_some, All,
}
use easyrun.Prelude.Int.{pos, ◌<ℤ◌}
use easyrun.Prelude.Text.{String, str_eq, str_eq_iff}
use easyrun.Prelude.Dict.{Dict, lookup, erase}
use easyrun.Types.{Job}
use easyrun.JobStore.{last_named}
use easyrun.Node.Store.{get_job, get_jobs, store_job, update_job, agent_store, agent_store-Laws}
use easyrun.Leader.State.{
  LeaderState, init, counts_of, effective_priority, find_victim, register_op, is_dispatching,
  placed_at, lock_job,
}
use easyrun.Leader.State.Victim.{AtMost, IsPlaced, find_victim_lem}
use easyrun.Leader.State.Registry.{start, after, came, IsRegistry, Reach-IsRegistry}
use easyrun.Node.Capacity.{prepare_job}
use easyrun.Leader.System.Own.{Reran}
use easyrun.Leader.System.{Sys, Since, claim_job}
use easyrun.Leader.Dispatch.{
  dispatch_without_preemption, dispatch_to_available_agent, dispatch_instances,
}
use easyrun.Leader.Dispatch.Gentle.{Gentle, dispatch_without_preemption_lem}
use easyrun.Leader.Dispatch.Preemption.{Fair, Fairly, dispatch_to_available_agent-Fairly}
use easyrun.Leader.Dispatch.Claim.{dispatch_instances-releases}
use easyrun.Leader.Reconcile.{reconcile_daemon, redundant, submit_job}
use easyrun.Leader.Reconcile.Daemon.{reconcile_daemon-once}
use easyrun.Leader.Reconcile.Surplus.{Covered, redundant-Covered}
use easyrun.Leader.Reconcile.Submit.{Flags, submit_job-stores}
use easyrun.Leader.Update.{rolling, policy_of, update_job_op}
use easyrun.Leader.Update.Flags.{update_job_op-Flags}
use easyrun.Leader.Update.Progress.{deploying_of, update_job_op-Marked}
use easyrun.Leader.Delete.{Others, has_tombstone, delete_job_by_name}
use easyrun.Leader.Delete.Sweep.{delete_job_by_name-gone}
use easyrun.Leader.Persist.{load_committed_state}
use easyrun.Leader.Persist.Laws.{load_committed_state-exact}
use easyrun.Leader.Persist.Flush.{
  Flusher, Turn, waiting, mutates, stores, updates, takes_mark, timer_fires, save_failed, turns_of,
  undisturbed, Commits, IsTracked, IsHonest, turns_of-IsTracked,
}
use easyrun.Node.State.{AgentState}
use easyrun.Leader.Status.{StatusWorld, replied, unreachable}
use easyrun.Leader.EventBus.{Op, subscribes, notifies, receives, perform_all, held_by}
use easyrun.Leader.EventBus.Laws.{seen_after_all, perform_all-held}
use easyrun.Examples.Data.{
  web, web_task, batch_task, batch, daemon, node, leader, agent_a, agent_b, world, cluster,
}

abbrev find : String → Option Job
find n = get_job n node

find_victim_lem_example :
    ((find_victim find "a" (some (pos 2)) leader ≡ none)
      × AtMost find (pos 2) (counts_of "a" leader))
    ⊎ ((v : Job) × (find_victim find "a" (some (pos 2)) leader ≡ some v)
        × IsPlaced find v (counts_of "a" leader)
        × (pos 2 <ℤ effective_priority v.priority)
        × AtMost find (effective_priority v.priority) (counts_of "a" leader))
unfolding effective_priority
find_victim_lem_example = find_victim_lem find "a" (some (pos 2)) leader

abbrev one_agent : LeaderState
one_agent = (register_op 30 "a" "http://a" "1" none 5 (init 0)).1

Reach-IsRegistry_example : IsRegistry one_agent
Reach-IsRegistry_example =
    Reach-IsRegistry {settle_delay = 0} {s = one_agent}
      (after start (came 30 "a" "http://a" "1" none 5 (init 0)))

dispatch_without_preemption_lem_example :
    Gentle web cluster (dispatch_without_preemption world web cluster)
dispatch_without_preemption_lem_example = dispatch_without_preemption_lem world web cluster

abbrev burying : Sys
burying = record cluster { state = record leader { tombstones = ("web", 99) ∷ [] } }

dispatch_to_available_agent-Fairly_example :
    Fairly web cluster (dispatch_to_available_agent world web cluster).1
dispatch_to_available_agent-Fairly_example = dispatch_to_available_agent-Fairly world web cluster

dispatch_instances-releases_example :
    let y' = (dispatch_instances world web (pos 2) cluster).1 in
    (is_dispatching "web" leader ≡ true
      → dispatch_instances world web (pos 2) cluster ≡ (none, cluster))
    × ((n : String) → is_dispatching n y'.state ≡ is_dispatching n leader)
    × Reran web node.jobs y'.store.jobs
    × Since (Fair web node) [] y'.trace
dispatch_instances-releases_example = dispatch_instances-releases world web (pos 2) cluster

reconcile_daemon-once_example :
    let s' = (reconcile_daemon world daemon (agent_a ∷ agent_b ∷ []) cluster).1.state in
    (placed_at "b" "daemon" s' ≡ placed_at "b" "daemon" leader)
    ⊎ ((◌≡◌ {A = String} "daemon" "daemon")
        × (placed_at "b" "daemon" leader ≡ 0)
        × (placed_at "b" "daemon" s' ≡ 1))
reconcile_daemon-once_example =
    reconcile_daemon-once world daemon (agent_a ∷ agent_b ∷ []) cluster "b" "daemon"
      (((λ e. ground (arith, e, str_eq_iff "b" "a")), tt), (tt, tt))

redundant-Covered_example : All (Covered find (erase "a" leader.placed)) (redundant find "a" leader)
unfolding lookup counts_of
redundant-Covered_example = redundant-Covered find "a" leader (refl, (refl, tt)) (refl, (refl, tt))

submit_job-stores_example :
    let y' = (submit_job world daemon cluster).1 in
    ((get_job "daemon" y'.store ≡ some daemon)
      ⊎ (get_job "daemon" y'.store ≡ some (prepare_job daemon)))
    × ((n : String) → if str_eq "daemon" n then Unit else (get_job n y'.store ≡ get_job n node))
    × Flags cluster y'
submit_job-stores_example = submit_job-stores world daemon cluster (λ t. refl) refl

update_job_op-Flags_example : Flags cluster (update_job_op world web cluster).1
update_job_op-Flags_example = update_job_op-Flags world web cluster (λ t. refl) refl

update_job_op-Marked_example :
    let (err, y') = update_job_op world web cluster in
    deploying_of (get_job "web" y'.store) ≡ some (is_some err)
unfolding lookup get_job policy_of claim_job lock_job is_dispatching
update_job_op-Marked_example =
    update_job_op-Marked world web web rolling cluster (λ t. refl) refl
      (refl, refl, (refl, refl, tt)) refl refl refl

-- A dispatch under way puts the job back while the agents delete their tasks.
abbrev straggler : Others
straggler = record {
  during = λ k y. record y {
    state = record y.state { tombstones = ("web", 100) ∷ [] };
    store = if k == 0 then store_job web 101 y.store else y.store;
  };
  done = λ k. false;
}

delete_job_by_name-gone_example :
    get_job "web" (delete_job_by_name world straggler "web" cluster).store ≡ none
unfolding lookup has_tombstone
delete_job_by_name-gone_example = delete_job_by_name-gone world straggler "web" cluster (record {
  keeps_tombstone = λ k y. refl;
  runs = λ k. refl;
  ends = λ k y h e. ground (arith, h, e);
})

abbrev again : Others
again = record {
  during = λ k y. record y {
    state = record y.state { tombstones = [] };
    store = store_job batch 101 node;
  };
  done = λ k. false;
}

load_committed_state-exact_example :
    agent_store.get_job "web"
      (load_committed_state agent_store (some (record { updated = 4; jobs = batch ∷ [] })) 5 node).1
    ≡ last_named "web" (batch ∷ [])
unfolding agent_store get_job get_jobs lookup
load_committed_state-exact_example =
    load_committed_state-exact agent_store agent_store-Laws "web"
      (record { updated = 4; jobs = batch ∷ [] }) 5 node (λ e. refl)

abbrev seed : Job
seed = record web { name = "dns"; priority = none }

abbrev told : List Op
told = subscribes 2 ∷ notifies "job:web" ∷ receives 2 ∷ notifies "status" ∷ []

perform_all-held_example :
    held_by 1 (perform_all told ((1, none) ∷ [])) ≡ some (seen_after_all 1 told none)
unfolding held_by
perform_all-held_example =
    perform_all-held 1 told ((1, none) ∷ []) none
      (
        (λ e. ground (arith, e)),
        ((λ e. ground (arith, e)), ((λ e. ground (arith, e)), ((λ e. ground (arith, e)), tt))),
      )
      refl

agent_store-IsHonest : IsHonest agent_store
unfolding agent_store get_jobs update_job
agent_store-IsHonest j now s h = ground arith

abbrev fresh : Flusher AgentState
fresh = record { tracked = (node, true); phase = waiting; committed = none }

abbrev storm : List Turn
storm =
    takes_mark
    ∷ mutates (stores batch 6)
    ∷ timer_fires 7
    ∷ mutates (updates daemon 8)
    ∷ save_failed true
    ∷ takes_mark
    ∷ []

turns_of-IsTracked_example :
    IsTracked agent_store (turns_of agent_store storm fresh)
    × Commits agent_store (undisturbed agent_store 9 10) (turns_of agent_store storm fresh)
turns_of-IsTracked_example = turns_of-IsTracked agent_store agent_store-IsHonest storm fresh tt 9 10

-- Agent a replies with its tasks, all others do not reply.
abbrev polled : StatusWorld
polled = record {
  reply =
      λ id. if str_eq id "a" then replied 200 (some (web_task ∷ batch_task ∷ [])) else unreachable;
  arrived = λ ids. ids;
}
