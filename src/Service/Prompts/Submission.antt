-- ===== src/Service/Prompts/Submission.antt =====
-- The submission of a prompt: its row and its task.
use aetherium.Base.{
  ℕ, ◌≡◌, refl, ap, ◌∙◌, Bool, true, false, none, some, [], ◌∷◌, if◌then◌else◌, Result, ok, err,
  is_err, Text, text, lookup, insert,
}
use aetherium.Storage.{Workspace, PromptTask}
use aetherium.Storage.Db.{Db, has_row, duplicate_row, missing_reference}
use aetherium.Storage.Answers.{execute-calm, result_of}
use aetherium.Storage.Kept.{status_of}
use aetherium.Storage.Prompts as PromptTable
use aetherium.Service.{Client, Site}
use aetherium.Service.Prompts.{prompt_task}

pub create-fresh :
    (p : PromptTask) (db : Db) (w : Workspace)
    → db.faults ≡ []
    → lookup p.id db.prompts ≡ none
    → lookup p.workspace_id db.workspaces ≡ some w
    → (q : PromptTask) × (PromptTable.create p db
        ≡ (none, record db { prompts = insert p.id q db.prompts }))
      × (q.status ≡ p.status)
unfolding PromptTable.create PromptTable.insert_prompt has_row
create-fresh p db w calm fresh found =
    let q = record p {
      exit_code = none;
      stdout = none;
      stderr = none;
      error = none;
      started_at = none;
      completed_at = none;
      duration_ms = none;
    } in
    (
      q,
      execute-calm (PromptTable.insert_prompt q) db calm
          ∙ ap
              (λ o.
                result_of
                  (if elim o as (λ x. Bool) [ none ↦ false | some v ↦ true ]
                    then err duplicate_row
                    else if has_row p.workspace_id db.workspaces
                    then ok (record db { prompts = insert p.id q db.prompts })
                    else err missing_reference)
                  db)
              fresh
          ∙ ap
              (λ o.
                result_of
                  (if elim o as (λ x. Bool) [ none ↦ false | some v ↦ true ]
                    then ok (record db { prompts = insert p.id q db.prompts })
                    else err missing_reference)
                  db)
              found,
      refl,
    )

module _ {W : Type 0} (c : Client W) where
  -- What SubmitPrompt has done: the state, with the prompt's id and that of its task.
  abbrev pub Submitted : Site W → Text → Text → Text → ℕ → Result Text Text × Site W → Type 0
  Submitted s prompt_id task_id workspace_id priority r =
      (status_of prompt_id r.1.db.prompts
        ≡ some (if is_err r.0 then text "failed" else text "pending"))
      × (r.1.queued ≡ (
          if is_err r.0
          then s.queued
          else prompt_task task_id prompt_id workspace_id priority ∷ s.queued))
