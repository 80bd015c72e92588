-- ===== src/Examples/Nodes.antt =====
-- The theorems about a node, applied.
use easyrun.Prelude.{◌+◌, ◌≤◌, ◌≡◌, refl, true, false, [], ◌∷◌, none, some, arith, if◌then◌else◌}
use easyrun.Prelude.Int.{pos, mul_int, add_int}
use easyrun.Prelude.Text.{String, str_eq}
use easyrun.Prelude.Dict.{lookup, insert, values}
use easyrun.Types.{Task, Job}
use easyrun.Node.State.{AgentState, add_task}
use easyrun.Node.Capacity.{
  effective_memory_bytes, effective_cpu_shares, resource_usage_excluding, count_tasks, text_at,
  prepare_job, new_task, matches_affinity, handle_run, admit,
}
use easyrun.Node.Capacity.Memory.{memory_of, admit-memory}
use easyrun.Node.Capacity.Admission.{
  handle_run-refuses, handle_run-accepts, task_after, IsPrepared, IsNew,
}
use easyrun.Node.Start.{Ports, StartEnv, came_up, run_failed}
use easyrun.Node.Restart.{RoundEnv, max_restarts_of, restart_task}
use easyrun.Node.Restart.Budget.{Ends, restart_task-Ends}
use easyrun.Examples.Data.{web, web_task, node, idle_node, config, request}

abbrev started_node : AgentState
started_node = add_task (new_task "w2" web 9) (record idle_node { jobs = ("web", web) ∷ [] })

admit-memory_example :
    (400 + memory_of "" (values idle_node.tasks) ≤ effective_memory_bytes config)
    × (memory_of "" (values started_node.tasks) ≤ effective_memory_bytes config)
unfolding admit add_task new_task effective_cpu_shares mul_int add_int resource_usage_excluding
    count_tasks text_at effective_memory_bytes memory_of lookup insert
admit-memory_example =
    admit-memory config false web "w2" 9 idle_node started_node [] refl (ground arith)
      (ground arith)

abbrev elsewhere : Job
elsewhere = record web { affinity = ("arch", "arm64") ∷ [] }

handle_run-refuses_example :
    let r = record request { body = some elsewhere } in
    ((handle_run config r node).1 ≡ none) × ((handle_run config r node).2 ≡ node)
unfolding handle_run matches_affinity text_at lookup
handle_run-refuses_example =
    handle_run-refuses config (record request { body = some elsewhere }) node
      (λ e. ground (arith, e))

handle_run-accepts_example :
    (body : Job) × (request.body ≡ some body)
    × (matches_affinity config.attributes body.affinity ≡ true)
    × (job : Job) × IsPrepared body job
    × (task : Task) × IsNew request job task
    × ((n : String)
        → lookup n (handle_run config request idle_node).2.jobs
          ≡ (if str_eq job.name n then some job else lookup n idle_node.jobs))
    × ((k : String)
        → lookup k (handle_run config request idle_node).2.tasks
          ≡ task_after request.replace job task k idle_node)
unfolding handle_run matches_affinity admit prepare_job effective_cpu_shares mul_int add_int
    resource_usage_excluding count_tasks text_at lookup effective_memory_bytes
handle_run-accepts_example = handle_run-accepts config request idle_node refl

abbrev no_ports : Ports
no_ports = record { available = λ p. false; free_port = λ n. none }

-- The job is deleted while its process starts.
abbrev deleting : StartEnv
deleting = record {
  attributes = [];
  ports = no_ports;
  result = came_up (pos 7);
  during = λ s. record s { jobs = [] };
  started_at = 11;
}

-- A round in which nothing else happens and the replacement does not come up.
abbrev failing : RoundEnv
failing = record {
  now = 50;
  attributes = [];
  waited = true;
  ports = no_ports;
  closed_before = false;
  closed_after = false;
  new_id = "w2";
  result = run_failed;
  during = λ s. s;
}

restart_task-Ends_example : Ends (restart_task (failing ∷ failing ∷ []) false web_task node)
unfolding lookup max_restarts_of
restart_task-Ends_example =
    restart_task-Ends 1 (failing ∷ failing ∷ []) false web web_task web_task node
      ((λ s. refl), ((λ s. refl), tt)) refl refl refl refl (omega arith)

abbrev needs_port : Job
needs_port = record web { ports = ("http", pos 80) ∷ [] }

abbrev stopped_node : AgentState
stopped_node = record node { jobs = ("web", needs_port) ∷ []; tasks = [] }
