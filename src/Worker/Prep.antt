-- ===== src/Worker/Prep.antt =====
-- The preparation steps of a workspace: executePrepSteps, executeGitClone, executeScript and
-- executeEnvVar of services/core/pkg/worker/workspace_handlers.go.
pub mod Ends
use aetherium.Base.{
  ℕ, ◌-◌, Bool, true, false, ◌||◌, not, ◌==◌, Option, none, some, List, [], ◌∷◌, ◌++◌,
  if◌then◌else◌, Result, ok, err, Text, text, text_eq, itoa, Map, lookup, Action, ◌>>=◌, ◌>>◌, pure,
  gets, for_each,
}
use aetherium.Storage.{Json, string, boolean, number, other, PrepStep, PrepStepResult}
use aetherium.Storage.PrepSteps
use aetherium.Worker.{Command, ExecResult, Backend, World, on_db, on_host, the_time}
use aetherium.Worker.Shell.{export_cmd}

-- `s, _ := config[key].(string)` and `b, _ := config[key].(bool)`.
abbrev pub text_of : Option Json → Text
text_of (some (string s)) = s
text_of _ = []

abbrev pub flag_of : Option Json → Bool
flag_of (some (boolean b)) = b
flag_of _ = false

-- A result, if there is one, and an error, if there is one.
abbrev pub StepOutcome : Type 0
StepOutcome = Option PrepStepResult × Option Text

abbrev pub failed_with : Text → StepOutcome
failed_with e = (none, some e)

unfoldable pub step_result : ExecResult → PrepStepResult
step_result r = record {
  exit_code = r.exit_code;
  stdout = r.stdout;
  stderr = r.stderr;
  error = [];
  duration_ms = 0;
}

-- A command that was run, or the error of the orchestrator.
unfoldable pub concluded : Text → (ExecResult → Text) → Result Text ExecResult → StepOutcome
unfolding step_result
concluded what message (err e) = failed_with (what ++ e)
concluded what message (ok r) =
    (some (step_result r), if r.exit_code == 0 then none else some (message r))

unfoldable pub clone_args : Text → Text → Text → List Text
clone_args url branch dest =
    text "clone"
    ∷ (if not (text_eq branch []) then text "-b" ∷ branch ∷ url ∷ dest ∷ [] else url ∷ dest ∷ [])

abbrev pub or_else : Text → Text → Text
or_else s d = if text_eq s [] then d else s

module _ {W : Type 0} (b : Backend W) where
  unfoldable pub execute_git_clone : Text → Map Json → Action (World W) StepOutcome
  unfolding concluded clone_args
  execute_git_clone vm_id config =
      let url = text_of (lookup (text "url") config) in
      let branch = text_of (lookup (text "branch") config) in
      let dest = or_else (text_of (lookup (text "dest_path") config)) (text "/workspace") in
      if text_eq url [] then pure (failed_with (text "git clone requires 'url' in config")) else do
        r ← on_host (
            b.execute_command vm_id
              (record { cmd = text "git"; args = clone_args url branch dest }))
        pure (
            concluded (text "failed to execute git clone: ")
              (λ x.
                text "git clone failed with exit code "
                ++ (itoa x.exit_code ++ (text ": " ++ x.stderr)))
              r)

  unfoldable pub execute_script : Text → Map Json → Action (World W) StepOutcome
  unfolding concluded
  execute_script vm_id config =
      let content = text_of (lookup (text "content") config) in
      let interpreter = or_else (text_of (lookup (text "interpreter") config)) (text "bash") in
      if text_eq content []
      then pure (failed_with (text "script requires 'content' in config"))
      else do
        r ← on_host (
            b.execute_command vm_id (record { cmd = interpreter; args = text "-c" ∷ content ∷ [] }))
        pure (
            concluded (text "failed to execute script: ")
              (λ x.
                text "script failed with exit code "
                ++ (itoa x.exit_code ++ (text ": " ++ x.stderr)))
              r)

  -- A secret is skipped: it has been provided at boot.
  unfoldable pub execute_env_var : Text → Map Json → Action (World W) StepOutcome
  unfolding concluded export_cmd
  execute_env_var vm_id config =
      let key = text_of (lookup (text "key") config) in
      let value = text_of (lookup (text "value") config) in
      let secret_name = text_of (lookup (text "secret_name") config) in
      let is_secret = flag_of (lookup (text "is_secret") config) in
      if text_eq key []
      then pure (failed_with (text "env_var requires 'key' in config"))
      else if not (text_eq secret_name []) || is_secret
      then pure (
        some (record {
          exit_code = 0;
          stdout = text "Secret injection skipped - now handled securely at VM boot via vsock";
          stderr = [];
          error = [];
          duration_ms = 0;
        }),
        none,
      )
      else if text_eq value []
      then pure (failed_with (text "env_var requires 'value' in config for non-secret variables"))
      else do
        r ← on_host (
            b.execute_command vm_id
              (record { cmd = text "bash"; args = text "-c" ∷ export_cmd key value ∷ [] }))
        pure (
            concluded (text "failed to set env var: ")
              (λ x. text "failed to set env var with exit code " ++ itoa x.exit_code) r)

  unfoldable pub execute_step : Text → PrepStep → Action (World W) StepOutcome
  unfolding execute_git_clone execute_script execute_env_var
  execute_step vm_id step =
      if text_eq step.step_type (text "git_clone")
      then execute_git_clone vm_id step.config
      else if text_eq step.step_type (text "script")
      then execute_script vm_id step.config
      else if text_eq step.step_type (text "env_var")
      then execute_env_var vm_id step.config
      else pure (failed_with (text "unknown step type: " ++ step.step_type))

  abbrev pub empty_result : PrepStepResult
  empty_result = record { exit_code = 0; stdout = []; stderr = []; error = []; duration_ms = 0 }

  abbrev pub result_or_empty : Option PrepStepResult → PrepStepResult
  result_or_empty none = empty_result
  result_or_empty (some r) = r

  unfoldable pub recorded : ℕ → StepOutcome → Text × PrepStepResult
  recorded duration (result, problem) =
      let r = record (result_or_empty result) { duration_ms = duration } in
      elim problem [
        | none ↦ (text "completed", r)
        | some e ↦ (text "failed", record r { error = e })
      ]

  unfoldable pub run_step : Text → PrepStep → Action (World W) (Option PrepStepResult)
  unfolding execute_step recorded
  run_step vm_id step = do
    before ← the_time b
    on_db (PrepSteps.update_status before step.id (text "running") none)
    started ← the_time b
    done ← execute_step vm_id step
    now ← the_time b
    let (status, result) = recorded (now - started) done
    on_db (PrepSteps.update_status now step.id status (some result))
    pure (some result)

  -- A step that fails does not keep the next ones from being run. The result is false if the steps
  -- cannot be listed.
  unfoldable pub execute_prep_steps : Text → Text → Action (World W) Bool
  unfolding run_step
  execute_prep_steps workspace_id vm_id = do
    listed ← on_db (PrepSteps.list_by_workspace workspace_id)
    elim listed [ err e ↦ pure false | ok steps ↦ for_each (run_step vm_id) steps >> pure true ]
