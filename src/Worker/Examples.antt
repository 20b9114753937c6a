-- ===== src/Worker/Examples.antt =====
-- Runs of the handlers against a small host, which counts the ids that it gives out.
use aetherium.Base.{
  ℕ, ◌+◌, ◌≡◌, refl, true, false, none, some, List, [], ◌∷◌, ◌++◌, ok, is_err, Text, text, itoa,
  text_eq, lookup, for_each,
}
use aetherium.Storage.{VmRow, WorkerRow, Workspace, PrepStep, PromptTask}
use aetherium.Storage.Db.{Db, has_row}
use aetherium.Storage.Kept.{status_of}
use aetherium.Vmm.{created}
use aetherium.Worker.{Backend, World}
use aetherium.Worker.Idle.{destroy_workspace_vm}
use aetherium.Worker.Idle.Cascade.{destroy_workspace_vm-on_vm}
use aetherium.Worker.Prep.{run_step}
use aetherium.Worker.Prep.Ends.{AllEnded, run_step-AllEnded}
use aetherium.Worker.Prompts.{handle_prompt}
use aetherium.Worker.Prompts.Status.{settled_status, handle_prompt-status}
use aetherium.Worker.Shell.{quoted}
use aetherium.Worker.Shell.Quoting.{read_word, outside, read_word-quoted}
use aetherium.Worker.Workspaces.{delete_workspace}
use aetherium.Worker.Workspaces.Cascade.{succeeds, delete_workspace-on_vm}

-- Every call succeeds.
abbrev willing : Backend ℕ
willing = record {
  create_vm = λ config n. (
    ok (record {
      id = config.id;
      status = created;
      config = config;
      created_at = n;
      started_at = none;
      stopped_at = none;
      metadata = [];
    }),
    config,
    n,
  );
  start_vm = λ vm_id n. (none, n);
  delete_vm = λ vm_id n. (none, n);
  execute_command =
      λ vm_id command n. (ok (record { exit_code = 0; stdout = text "ok"; stderr = [] }), n);
  vm_status = λ vm_id n. text "RUNNING";
  provide_secrets = none;
  install_tools = λ vm_id tools versions n. (true, n);
  new_id = λ n. (itoa n, n + 1);
  parse_id = λ id. some id;
  now = λ n. n;
  has_registry = false;
  register = λ id n. (true, n);
  heartbeat = λ id n. (true, n);
  deregister = λ id n. (true, n);
}

abbrev vm : VmRow
vm = record {
  id = text "v";
  name = text "workspace-site";
  orchestrator = text "firecracker";
  status = text "RUNNING";
  kernel_path = none;
  root_fs_path = none;
  socket_path = none;
  vcpu_count = some 2;
  memory_mb = some 512;
  worker_id = none;
  started_at = none;
  stopped_at = none;
  metadata = [];
}

abbrev pub site : Workspace
site = record {
  id = text "w";
  name = text "site";
  description = none;
  vm_id = some (text "v");
  environment_id = some (text "e");
  status = text "ready";
  ai_assistant = text "claude-code";
  ai_assistant_config = [];
  working_directory = text "/workspace";
  idle_since = some 0;
  ready_at = some 0;
  stopped_at = none;
  metadata = [];
}

-- A prompt that was cancelled.
abbrev cancelled : PromptTask
cancelled = record {
  id = text "p";
  workspace_id = text "w";
  prompt = text "don't";
  system_prompt = none;
  working_directory = none;
  environment = [];
  priority = 5;
  status = text "cancelled";
  exit_code = none;
  stdout = none;
  stderr = none;
  error = none;
  started_at = none;
  completed_at = none;
  duration_ms = none;
}

abbrev step : Text → Text → PrepStep
step id kind = record {
  id = id;
  workspace_id = text "w";
  step_type = kind;
  step_order = 1;
  config = [];
  status = text "pending";
  exit_code = none;
  stdout = none;
  stderr = none;
  error = none;
  started_at = none;
  completed_at = none;
  duration_ms = none;
}

abbrev steps : List PrepStep
steps = step (text "s") (text "script") ∷ step (text "t") (text "teleport") ∷ []

abbrev pub database : Db
database = record {
  vms = (text "v", vm) ∷ [];
  executions = [];
  workers = [];
  environments = [];
  workspaces = (text "w", site) ∷ [];
  secrets = [];
  prep_steps =
      (text "s", step (text "s") (text "script"))
      ∷ (text "t", step (text "t") (text "teleport"))
      ∷ [];
  prompts = (text "p", cancelled) ∷ [];
  sessions = [];
  messages = [];
  faults = [];
}

abbrev world : World ℕ
world = record {
  db = database;
  host = 7;
  running_vms = [];
  tasks_processed = 0;
  worker_info = none;
}

site-found : lookup (text "w") database.workspaces ≡ some site
unfolding lookup text_eq
site-found = refl

vm-there : has_row (text "v") database.vms ≡ true
unfolding has_row lookup text_eq
vm-there = refl

prompt-found : lookup (text "p") database.prompts ≡ some cancelled
unfolding lookup text_eq
prompt-found = refl

step-found : (lookup (text "s") database.prep_steps ≡ some (step (text "s") (text "script")))
unfolding lookup text_eq
step-found = refl

other_step-found :
    (lookup (text "t") database.prep_steps ≡ some (step (text "t") (text "teleport")))
unfolding lookup text_eq
other_step-found = refl

delete_workspace-on_vm_example :
    (succeeds (delete_workspace willing (text "task") (text "w") world).0 ≡ false)
    × (lookup (text "w") (delete_workspace willing (text "task") (text "w") world).1.db.workspaces
        ≡ none)
delete_workspace-on_vm_example =
    delete_workspace-on_vm willing world (text "task") (text "w") (text "v") site refl site-found
      refl vm-there

destroy_workspace_vm-on_vm_example :
    ((destroy_workspace_vm willing site world).0 ≡ some (text "failed to clear workspace VM ID"))
    × (lookup (text "w") (destroy_workspace_vm willing site world).1.db.workspaces ≡ none)
destroy_workspace_vm-on_vm_example =
    destroy_workspace_vm-on_vm willing world (text "v") site refl site-found refl vm-there refl

handle_prompt-status_example :
    (is_err
        (handle_prompt willing (λ servers vars. none) (text "task") (text "p") (text "w") world).0
      ≡ false)
    × (status_of
          (text "p")
          (handle_prompt willing
            (λ servers vars. none)
            (text "task")
            (text "p")
            (text "w")
            world).1.db.prompts
        ≡ some (
            settled_status
              (handle_prompt willing
                (λ servers vars. none)
                (text "task")
                (text "p")
                (text "w")
                world).0))
handle_prompt-status_example =
    handle_prompt-status willing (λ servers vars. none) (text "task") (text "p") (text "w") world
      cancelled site refl prompt-found site-found

run_step-AllEnded_example :
    AllEnded steps (for_each (run_step willing (text "v")) steps world).1.db.prep_steps
run_step-AllEnded_example = run_step-AllEnded willing (text "v") steps world refl (
  (step (text "s") (text "script"), step-found),
  ((step (text "t") (text "teleport"), other_step-found), tt),
)

blank : read_word outside (text " -v") ≡ some ([], text " -v")
unfolding read_word
blank = refl

read_word-quoted_example :
    read_word outside (quoted (text "don't; $x") ++ text " -v")
    ≡ some (text "don't; $x" ++ [], text " -v")
read_word-quoted_example = read_word-quoted (text "don't; $x") (text " -v") [] (text " -v") blank

abbrev host_row : ℕ → WorkerRow
host_row started_at = record {
  id = text "h";
  hostname = text "h.local";
  address = text "10.0.0.2";
  status = text "active";
  last_seen = 9;
  started_at = started_at;
  zone = [];
  labels = [];
  capabilities = [];
  cpu_cores = 8;
  memory_mb = 4096;
  disk_gb = 100;
  used_cpu_cores = 0;
  used_memory_mb = 0;
  used_disk_gb = 0;
  vm_count = 0;
  max_vms = 100;
}

abbrev with_host : Db
with_host = record database { workers = (text "h", host_row 1) ∷ [] }
