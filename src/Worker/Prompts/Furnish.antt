-- ===== src/Worker/Prompts/Furnish.antt =====
-- The VM that is made for a prompt: the making leaves the prompts as they are.
use aetherium.Base.{
  Option, none, some, [], ◌++◌, length, Result, ok, err, Text, text, text_eq, Map, pure, Preserves,
  Preserves-if, Preserves-option,
}
use aetherium.Storage.{Workspace, Environment, PromptTask}
use aetherium.Storage.Kept.{Prompts, create_vm-Prompts, set_vm_id-Prompts, update_resources-Prompts}
use aetherium.Vmm.{VmConfig, Vm}
use aetherium.Worker.{
  Backend, World, WorkerInfo, or_nil, store_usage, update_worker_resources, vm_config, usages,
  used_cpu, used_memory,
}
use aetherium.Worker.Prompts.Spawn.{
  McpSettings, store_environment_vm, equip, start_created, spawn_vm, bash, setup_claude_code_mcp,
  clone_environment_repo, set_environment_vars, furnish, furnish_spawned, spawn_environment_vm,
  is_empty,
}

module _ {W : Type 0} (R : Map PromptTask → Type 0) (b : Backend W) where
  -- The database answers, and its prompts satisfy the predicate.
  abbrev pub Good : World W → Type 0
  Good s = Prompts R s.db

  store_usage-Good : (info : Option WorkerInfo) → Preserves Good (store_usage b info)
  unfolding store_usage
  store_usage-Good none s g = g
  store_usage-Good (some info) s g =
      let us = usages s.running_vms in
      update_resources-Prompts R (b.now s.host) info.id (used_cpu us) (used_memory us) (length us)
        s.db g

  pub update_worker_resources-Good : Preserves Good (update_worker_resources b)
  unfolding update_worker_resources
  update_worker_resources-Good s g = store_usage-Good s.worker_info s g

  store_environment_vm-Good :
      (id : Text) (w : Workspace) (env : Environment) (config : VmConfig) (vm : Vm)
      → Preserves Good (store_environment_vm b id w env config vm)
  unfolding store_environment_vm
  store_environment_vm-Good id w env config vm s g =
      set_vm_id-Prompts R w.id id _ (create_vm-Prompts R _ s.db g)

  equip-Good :
      (w : Workspace) (env : Environment) (config : VmConfig) (vm : Vm)
      → Preserves Good (equip b w env config vm)
  unfolding equip
  equip-Good w env config vm s g =
      update_worker_resources-Good _
        (store_environment_vm-Good (or_nil (b.parse_id vm.id)) w env config vm s g)

  start_created-Good :
      (w : Workspace) (env : Environment) (made : Result Text Vm × VmConfig)
      → Preserves Good (start_created b w env made)
  unfolding start_created
  start_created-Good w env (err e, config) s g = g
  start_created-Good w env (ok vm, config) s g =
      Preserves-option Good (b.start_vm vm.id s.host).0 (equip b w env config vm)
        (λ e. pure (err (text "failed to start VM: " ++ e))) (equip-Good w env config vm)
        (λ e s g. g) _ g

  spawn_vm-Good : (w : Workspace) (env : Environment) → Preserves Good (spawn_vm b w env)
  unfolding spawn_vm
  spawn_vm-Good w env s g =
      let (id, v) = b.new_id s.host in
      let (made, c, v1) = b.create_vm (vm_config id env.vcpus env.memory_mb) v in
      start_created-Good w env (made, c) _ g

  setup_claude_code_mcp-Good :
      (mcp : McpSettings) (vm_id : Text) (env : Environment)
      → Preserves Good (setup_claude_code_mcp b mcp vm_id env)
  unfolding setup_claude_code_mcp bash
  setup_claude_code_mcp-Good mcp vm_id env =
      Preserves-option Good (mcp env.mcp_servers env.env_vars) (pure tt) _ (λ s g. g)
        (λ json s g. g)

  furnish-Good :
      (mcp : McpSettings) (env : Environment) (vm : Vm) → Preserves Good (furnish b mcp env vm)
  unfolding furnish clone_environment_repo set_environment_vars bash
  furnish-Good mcp env vm s g =
      let mcp_set =
        Preserves-if Good (is_empty b env.mcp_servers) (pure tt)
          (setup_claude_code_mcp b mcp vm.id env) (λ s g. g)
          (setup_claude_code_mcp-Good mcp vm.id env) s g in
      let cloned =
        Preserves-if Good (text_eq env.git_repo_url []) (pure tt)
          (clone_environment_repo b vm.id env) (λ s g. g) (λ s g. g) _ mcp_set in
      Preserves-if Good (is_empty b env.env_vars) (pure tt)
        (set_environment_vars b vm.id env.env_vars) (λ s g. g) (λ s g. g) _ cloned

  furnish_spawned-Good :
      (mcp : McpSettings) (env : Environment) (made : Result Text Vm)
      → Preserves Good (furnish_spawned b mcp env made)
  unfolding furnish_spawned
  furnish_spawned-Good mcp env (err e) s g = g
  furnish_spawned-Good mcp env (ok vm) s g = furnish-Good mcp env vm s g

  pub spawn_environment_vm-Good :
      (mcp : McpSettings) (w : Workspace) (env : Environment)
      → Preserves Good (spawn_environment_vm b mcp w env)
  unfolding spawn_environment_vm
  spawn_environment_vm-Good mcp w env s g =
      furnish_spawned-Good mcp env (spawn_vm b w env s).0 _ (spawn_vm-Good w env s g)
