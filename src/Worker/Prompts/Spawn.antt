-- ===== src/Worker/Prompts/Spawn.antt =====
-- spawnVMFromEnvironment, setupClaudeCodeMCP, cloneEnvironmentRepo and setEnvironmentVars of
-- services/core/pkg/worker/workspace_handlers.go. What they report besides the VM is only logged.
use aetherium.Base.{
  Bool, true, false, Option, none, some, List, [], ◌∷◌, ◌++◌, if◌then◌else◌, Result, ok, err, Text,
  text, text_eq, Map, Action, ◌>>=◌, ◌>>◌, pure, modify, gets,
}
use aetherium.Storage.{Json, string, boolean, Workspace, Environment}
use aetherium.Storage.Vms as VmTable
use aetherium.Storage.Workspaces as WorkspaceTable
use aetherium.Vmm.{VmConfig, Vm}
use aetherium.Worker.{
  ExecResult, Backend, World, is_member, unique_tools, default_tools, vm_config, or_nil, on_db,
  on_host, track, worker_id, update_worker_resources,
}
use aetherium.Worker.Prep.{clone_args, or_else}
use aetherium.Worker.Shell.{export_cmds}
use aetherium.Worker.Vms.{vm_row, create_vm}

-- The JSON text of the settings for the MCP servers, none if it cannot be made.
abbrev pub McpSettings : Type 0
McpSettings = List Json → Map Text → Option Text

unfoldable pub environment_tools : Environment → List Text
unfolding unique_tools
environment_tools env =
    let tools = default_tools ++ env.tools in
    unique_tools
      (if is_member (text "claude-code") tools then tools else tools ++ (text "claude-code" ∷ []))

module _ {W : Type 0} (b : Backend W) where
  unfoldable pub store_environment_vm :
      Text → Workspace → Environment → VmConfig → Vm → Action (World W) (Unit {0})
  unfolding vm_row
  store_environment_vm vm_uuid w env config vm = do
    status ← gets (λ s. b.vm_status vm.id s.host)
    worker ← gets worker_id
    on_db (
        VmTable.create (
          vm_row vm_uuid (text "env-" ++ (env.name ++ (text "-ws-" ++ w.name))) status config
            env.vcpus env.memory_mb worker
            ((text "workspace_id", string w.id)
              ∷ (text "environment_id", string env.id)
              ∷ (text "on_demand", boolean true)
              ∷ [])))
    on_db (WorkspaceTable.set_vm_id w.id vm_uuid)
    pure tt

  unfoldable pub equip : Workspace → Environment → VmConfig → Vm → Action (World W) (Result Text Vm)
  unfolding store_environment_vm environment_tools update_worker_resources
  equip w env config vm = do
    store_environment_vm (or_nil (b.parse_id vm.id)) w env config vm
    on_host (b.install_tools vm.id (environment_tools env) [])
    modify (track vm.id (record { vcpus = env.vcpus; memory_mb = env.memory_mb }))
    update_worker_resources b
    pure (ok vm)

  unfoldable pub start_created :
      Workspace → Environment → Result Text Vm × VmConfig → Action (World W) (Result Text Vm)
  unfolding equip
  start_created w env (err e, config) = pure (err (text "failed to create VM: " ++ e))
  start_created w env (ok vm, config) = do
    problem ← on_host (b.start_vm vm.id)
    elim problem [
      | some e ↦ pure (err (text "failed to start VM: " ++ e))
      | none ↦ equip w env config vm
    ]

  unfoldable pub spawn_vm : Workspace → Environment → Action (World W) (Result Text Vm)
  unfolding start_created
  spawn_vm w env = do
    vm_id ← on_host b.new_id
    made ← create_vm b (vm_config vm_id env.vcpus env.memory_mb)
    start_created w env made

  unfoldable pub bash : Text → Text → Action (World W) (Result Text ExecResult)
  bash vm_id script =
      on_host
        (b.execute_command vm_id (record { cmd = text "bash"; args = text "-c" ∷ script ∷ [] }))

  unfoldable pub setup_claude_code_mcp :
      McpSettings → Text → Environment → Action (World W) (Unit {0})
  unfolding bash
  setup_claude_code_mcp mcp vm_id env = elim (mcp env.mcp_servers env.env_vars) [
    | none ↦ pure tt
    | some json ↦
        bash vm_id (
          text "mkdir -p ~/.claude && cat > ~/.claude/settings.json << 'MCPEOF'\n"
          ++ (json ++ text "\nMCPEOF"))
        >> pure tt
  ]

  unfoldable pub clone_environment_repo : Text → Environment → Action (World W) (Unit {0})
  unfolding clone_args
  clone_environment_repo vm_id env =
      let dest = or_else env.working_directory (text "/workspace") in
      on_host (
        b.execute_command vm_id
          (record { cmd = text "git"; args = clone_args env.git_repo_url env.git_branch dest }))
      >> pure tt

  unfoldable pub set_environment_vars : Text → Map Text → Action (World W) (Unit {0})
  unfolding bash export_cmds
  set_environment_vars vm_id vars = bash vm_id (export_cmds vars) >> pure tt

  abbrev pub is_empty : {A : Type 0} → List A → Bool
  is_empty [] = true
  is_empty (x ∷ xs) = false

  -- The steps between the new VM and the workspace's being ready.
  unfoldable pub furnish : McpSettings → Environment → Vm → Action (World W) (Result Text Text)
  unfolding setup_claude_code_mcp clone_environment_repo set_environment_vars
  furnish mcp env vm = do
    if is_empty env.mcp_servers then pure tt else setup_claude_code_mcp mcp vm.id env
    if text_eq env.git_repo_url [] then pure tt else clone_environment_repo vm.id env
    if is_empty env.env_vars then pure tt else set_environment_vars vm.id env.env_vars
    pure (ok vm.id)

  unfoldable pub furnish_spawned :
      McpSettings → Environment → Result Text Vm → Action (World W) (Result Text Text)
  unfolding furnish
  furnish_spawned mcp env (err e) = pure (err e)
  furnish_spawned mcp env (ok vm) = furnish mcp env vm

  unfoldable pub spawn_environment_vm :
      McpSettings → Workspace → Environment → Action (World W) (Result Text Text)
  unfolding spawn_vm furnish_spawned
  spawn_environment_vm mcp w env = spawn_vm w env >>= furnish_spawned mcp env
