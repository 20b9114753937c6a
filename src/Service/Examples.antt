-- ===== src/Service/Examples.antt =====
-- Runs of the services on a small database.
use aetherium.Base.{
  ℕ, ◌+◌, ◌≤◌, ◌≡◌, refl, arith, Bool, true, false, none, some, [], ◌∷◌, ◌++◌, drop, drop-append,
  ap, length, ok, is_err, text, itoa, text_eq, lookup, insert,
}
use aetherium.Storage.{Workspace}
use aetherium.Storage.Db.{has_row, any_row}
use aetherium.Storage.PrepSteps as PrepStepTable
use aetherium.Storage.Secrets as SecretTable
use aetherium.Storage.Workspaces as WorkspaceTable
use aetherium.Worker.Examples.{database, site}
use aetherium.Queue.Payloads.{decode_workspace_create}
use aetherium.Service.{Client, Site}
use aetherium.Service.Payloads.{decode_workspace_create-creation_payload}
use aetherium.Service.Prompts.{SubmitPromptRequest}
use aetherium.Service.Secrets.{SecretRequest, stored_secret, add_secret_in, get_decrypted_secret}
use aetherium.Service.Secrets.RoundTrip.{taken, get_decrypted_secret-add_secret_in}
use aetherium.Service.Workspaces.{CreateWorkspaceRequest, creation_payload, create_workspace}
use aetherium.Service.Workspaces.Rollback.{create_workspace-Undone}

-- A cipher that puts the nonce before the text, and a queue that takes no task.
abbrev client : Bool → Client ℕ
client taking = record {
  new_id = λ n. (itoa n, n + 1);
  parse_id = λ id. some id;
  now = λ n. n;
  random_nonce = λ n. (some (text "nonce"), n);
  seal = λ nonce plaintext. nonce ++ plaintext;
  unseal = λ nonce ciphertext. some (drop (length nonce) ciphertext);
  take_task = λ task options n. (taking, n);
  registry_update_status = none;
}

abbrev start : Site ℕ
start = record { db = database; queued = []; host = 1 }

abbrev secret : SecretRequest
secret = record { name = text "KEY"; value = text "hush"; secret_type = []; description = [] }

abbrev request : CreateWorkspaceRequest
request = record {
  name = text "blog";
  description = [];
  environment_id = [];
  vcpus = 2;
  memory_mb = 512;
  ai_assistant = text "ampcode";
  ai_assistant_config = none;
  working_directory = [];
  secrets = secret ∷ [];
  prep_steps = [];
  additional_tools = text "go" ∷ [];
  tool_versions = [];
}

abbrev prompt : SubmitPromptRequest
prompt = record {
  prompt = text "fix it";
  system_prompt = [];
  working_directory = [];
  environment = [];
  priority = 0;
}

refused : is_err (create_workspace (client false) request start).0 ≡ true
unfolding create_workspace lookup insert text_eq itoa WorkspaceTable.create SecretTable.create
    PrepStepTable.create_batch
refused = refl

abbrev idle_site : Workspace
idle_site = record site { status = text "idle" }

abbrev idle_start : Site ℕ
idle_start = record start { db = record database { workspaces = (text "w", idle_site) ∷ [] } }

idle-found : lookup (text "w") idle_start.db.workspaces ≡ some idle_site
unfolding lookup text_eq
idle-found = refl

idle_status : text_eq idle_site.status (text "ready") ≡ false
unfolding text_eq
idle_status = refl

free :
    taken
      (stored_secret
        (client true)
        (itoa 1)
        (text "w")
        secret
        (text "workspace")
        (text "nonce" ++ text "hush", text "nonce"))
      database
    ≡ false
unfolding stored_secret has_row any_row lookup text_eq itoa
free = refl

there : has_row (text "w") database.workspaces ≡ true
unfolding has_row lookup text_eq
there = refl

create_workspace-Undone_example :
    lookup (text "w") (create_workspace (client false) request start).1.db.workspaces
    ≡ lookup (text "w") database.workspaces
create_workspace-Undone_example =
    create_workspace-Undone (client false) request start refl refused (text "w")

get_decrypted_secret-add_secret_in_example :
    ((add_secret_in (client true) (text "w") secret (text "workspace") start).0 ≡ ok (itoa 1))
    × ((get_decrypted_secret
          (client true)
          (itoa 1)
          (add_secret_in (client true) (text "w") secret (text "workspace") start).1.db).0
        ≡ ok (text "hush"))
get_decrypted_secret-add_secret_in_example =
    get_decrypted_secret-add_secret_in (client true)
      (λ nonce plaintext. ap some (drop-append nonce plaintext)) start (text "w") secret
      (text "workspace") (text "nonce") 1 refl refl free there

decode_workspace_create-creation_payload_example :
    decode_workspace_create (creation_payload (text "w") request)
    ≡ some (record {
      workspace_id = text "w";
      name = text "blog";
      vcpus = 2;
      memory_mb = 512;
      ai_assistant = text "ampcode";
      additional_tools = text "go" ∷ [];
      tool_versions = [];
    })
decode_workspace_create-creation_payload_example =
    decode_workspace_create-creation_payload (text "w") request

three_le_seven : 3 ≤ 7
three_le_seven = omega arith
