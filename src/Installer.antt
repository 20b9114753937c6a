-- ===== src/Installer.antt =====
-- Installer of services/core/pkg/tools/installer.go: the loops over the tools, on an orchestrator's
-- ExecuteCommand as a parameter. The timeout of InstallToolsWithTimeout is left out.
pub mod Scripts
pub mod Runs
pub mod Examples
use aetherium.Base.{
  ◌≡◌, Bool, true, false, ◌==◌, Option, none, some, List, [], ◌∷◌, ◌++◌, if◌then◌else◌, Result, ok,
  err, Text, text, text_eq, Map, lookup, insert, Action, ◌>>=◌, ◌>>◌, pure,
}
use aetherium.Worker.{Command, ExecResult}
use aetherium.Installer.Scripts.{get_install_script, get_verify_command}

-- Why a tool was not installed.
pub data InstallError : Type 0 where
  unknown_tool not_executed : Text → InstallError
  script_failed : Text → Text → InstallError

abbrev pub bash : Text → Command
bash script = record { cmd = text "bash"; args = text "-c" ∷ script ∷ [] }

unfoldable pub script_outcome : Result Text ExecResult → Option InstallError
script_outcome (err e) = some (not_executed e)
script_outcome (ok r) = if r.exit_code == 0 then none else some (script_failed r.stderr r.stdout)

-- `versions[tool]`, or "latest".
unfoldable pub version_for : Text → Map Text → Text
version_for tool versions = elim (lookup tool versions) [
  | none ↦ text "latest"
  | some v ↦ if text_eq v [] then text "latest" else v
]

abbrev pub if_failed : {A : Type 0} → Option InstallError → A → A → A
if_failed none failed done = done
if_failed (some e) failed done = failed

module _ {W : Type 0} (execute_command : Text → Command → W → Result Text ExecResult × W) where
  unfoldable pub run_script : Text → Result Text Text → Action W (Option InstallError)
  unfolding script_outcome
  run_script vm_id (err e) = pure (some (unknown_tool e))
  run_script vm_id (ok script) = do
    result ← execute_command vm_id (bash script)
    pure (script_outcome result)

  unfoldable pub install_tool : Text → Text → Text → Action W (Option InstallError)
  unfolding run_script
  install_tool vm_id tool version = run_script vm_id (get_install_script tool version)

  -- The loop of InstallTools, with failedTools.
  unfoldable pub install_each : Text → Map Text → List Text → List Text → Action W (List Text)
  unfolding install_tool
  install_each vm_id versions failed [] = pure failed
  install_each vm_id versions failed (tool ∷ tools) = do
    problem ← install_tool vm_id tool (version_for tool versions)
    install_each vm_id versions (if_failed problem (failed ++ tool ∷ []) failed) tools

  -- The tools that the error names; none where there is no error.
  unfoldable pub install_tools : Text → List Text → Map Text → Action W (List Text)
  unfolding install_each
  install_tools vm_id tools versions = install_each vm_id versions [] tools

  unfoldable pub is_installed : Result Text ExecResult → Bool
  is_installed (err e) = false
  is_installed (ok r) = r.exit_code == 0

  -- The loop of VerifyTools, with results: false for a tool that is not there or not checked.
  unfoldable pub verify_each : Text → Map Bool → List Text → Action W (Map Bool)
  unfolding is_installed
  verify_each vm_id results [] = pure results
  verify_each vm_id results (tool ∷ tools) = do
    result ← execute_command vm_id (bash (get_verify_command tool))
    verify_each vm_id (insert tool (is_installed result) results) tools

  unfoldable pub verify_tools : Text → List Text → Action W (Map Bool)
  unfolding verify_each
  verify_tools vm_id tools = verify_each vm_id [] tools
