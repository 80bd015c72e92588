-- ===== src/Examples/Data.antt =====
-- A job, its tasks, a node, and a cluster of two nodes.
use easyrun.Prelude.{true, false, [], ◌∷◌, none, some, if◌then◌else◌}
use easyrun.Prelude.Text.{str_eq}
use easyrun.Prelude.Int.{pos, negsuc}
use easyrun.Types.{Job, Task, running, queued, Agent}
use easyrun.Node.State.{AgentState}
use easyrun.Node.Capacity.{NodeConfig, RunRequest}
use easyrun.Leader.State.{LeaderState}
use easyrun.Leader.System.{World, Sys, answered}

abbrev pub web : Job
web = record {
  name = "web";
  affinity = [];
  driver = "exec";
  image = "";
  artifacts = [];
  user = "";
  command = "serve";
  count = pos 2;
  ports = [];
  cpu_shares = pos 100;
  memory_limit = 400;
  env = [];
  tags = [];
  volumes = [];
  health_check = none;
  max_restarts = some (pos 1);
  restart_window = pos 0;
  update_policy = "";
  priority = some (pos 0);
  deploying = false;
}

abbrev pub batch : Job
batch = record web { name = "batch"; priority = some (pos 7); count = pos 1 }

abbrev pub daemon : Job
daemon = record web { name = "daemon"; count = negsuc 0 }

abbrev pub web_task : Task
web_task = record {
  id = "w1";
  job_name = "web";
  driver = "exec";
  image = "";
  ports = [];
  pid = pos 12;
  state = running;
  started_at = 3;
  restart_count = 0;
  last_failed_at = 0;
  cpu_shares = pos 100;
  memory_limit = 400;
  downloaded = 0;
  image_size = 0;
}

abbrev pub batch_task : Task
batch_task = record web_task { id = "b1"; job_name = "batch"; state = queued }

abbrev pub node : AgentState
node = record {
  jobs = ("web", web) ∷ ("batch", batch) ∷ [];
  tasks = ("w1", web_task) ∷ ("b1", batch_task) ∷ [];
  gone = [];
  state_time = 3;
}

abbrev pub idle_node : AgentState
idle_node = record node { jobs = []; tasks = [] }

abbrev pub config : NodeConfig
config = record {
  attributes = [];
  cpu_cores = pos 2;
  memory_bytes = 1000;
  cap_cpu_shares = pos 0;
  cap_memory = 0;
  pool_largest = 0;
}

abbrev pub request : RunRequest
request = record { is_post = true; replace = false; body = some web; id = "w2"; now = 9 }

abbrev pub agent_a : Agent
agent_a = record {
  id = "a";
  endpoint = "http://a";
  version = "1";
  last_seen = 5;
  temp_milli_c = pos 0;
}

abbrev pub agent_b : Agent
agent_b = record agent_a { id = "b"; endpoint = "http://b"; last_seen = 90 }

abbrev pub leader : LeaderState
leader = record {
  agents = ("b", agent_b) ∷ ("a", agent_a) ∷ [];
  agents_sorted = "a" ∷ "b" ∷ [];
  placed = ("a", ("batch", 1) ∷ ("web", 1) ∷ []) ∷ ("b", ("web", 2) ∷ []) ∷ [];
  dispatching = [];
  settled = true;
  round_robin = 5;
  tombstones = [];
}

-- Every agent accepts every job.
abbrev pub world : World
world = record {
  own_node = λ t a. if str_eq a.id "a" then some config else none;
  task_id = λ t. "w9";
  run_reply = λ t a j r. answered 202;
  stop_reply = λ t a n. answered 200;
  tasks_reply = λ t a. some (web_task ∷ []);
  now = λ t. 100;
  stopping = λ t. (false, false);
  cancelled = λ t. false;
}

abbrev pub cluster : Sys
cluster = record { state = leader; store = node; trace = [] }
