-- ===== src/Service/Payloads.antt =====
-- The workers decode what the services encode.
use aetherium.Base.{
  ℕ, ◌≡◌, refl, Option, none, some, List, [], ◌∷◌, ◌++◌, Text, text, text_eq, Map, lookup,
}
use aetherium.Storage.{Json, string, number, strings, texts, other}
use aetherium.Queue.Payloads.{
  decode_vm_create, decode_vm_execute, decode_workspace_create, decode_prompt_execute,
}
use aetherium.Service.Tasks.{create_payload, execute_payload, entry_unless_empty}
use aetherium.Service.Workspaces.{CreateWorkspaceRequest, creation_payload}
use aetherium.Service.Prompts.{prompt_task}

-- The payload of a task to create a VM decodes to the name, the resources and the tools of the call,
-- whether the lists of tools are empty or not.
pub decode_vm_create-create_payload :
    (name : Text) (vcpus memory_mb : ℕ) (tools : List Text) (versions : Map Text)
    → decode_vm_create (create_payload name vcpus memory_mb tools versions)
      ≡ some (record {
        name = name;
        vcpus = vcpus;
        memory_mb = memory_mb;
        additional_tools = tools;
        tool_versions = versions;
      })
unfolding decode_vm_create create_payload lookup text_eq
decode_vm_create-create_payload name vcpus memory_mb [] [] = refl
decode_vm_create-create_payload name vcpus memory_mb [] (v ∷ vs) = refl
decode_vm_create-create_payload name vcpus memory_mb (t ∷ ts) [] = refl
decode_vm_create-create_payload name vcpus memory_mb (t ∷ ts) (v ∷ vs) = refl

pub decode_vm_execute-execute_payload :
    (vm_id command : Text) (args : List Text)
    → decode_vm_execute (execute_payload vm_id command args)
      ≡ some (record { vm_id = vm_id; command = command; args = args })
unfolding decode_vm_execute execute_payload lookup text_eq
decode_vm_execute-execute_payload vm_id command [] = refl
decode_vm_execute-execute_payload vm_id command (a ∷ rest) = refl

decode_fields :
    (id name ai dir : Text) (vcpus memory_mb : ℕ) (tools : List Text) (versions : Map Text)
    (config : Option (Map Json))
    → decode_workspace_create (
        (text "workspace_id", string id)
        ∷ (text "name", string name)
        ∷ (text "vcpus", number vcpus)
        ∷ (text "memory_mb", number memory_mb)
        ∷ (text "ai_assistant", string ai)
        ∷ (text "working_dir", string dir)
        ∷ (entry_unless_empty (text "additional_tools") strings tools
            ++ (entry_unless_empty (text "tool_versions") texts versions
                ++ (elim config as (λ x. Map Json) [
                  | none ↦ []
                  | some m ↦ (text "ai_assistant_config", other) ∷ []
                ]))))
      ≡ some (record {
        workspace_id = id;
        name = name;
        vcpus = vcpus;
        memory_mb = memory_mb;
        ai_assistant = ai;
        additional_tools = tools;
        tool_versions = versions;
      })
unfolding decode_workspace_create lookup text_eq
decode_fields id name ai dir vcpus memory_mb [] [] none = refl
decode_fields id name ai dir vcpus memory_mb [] [] (some m) = refl
decode_fields id name ai dir vcpus memory_mb [] (v ∷ vs) none = refl
decode_fields id name ai dir vcpus memory_mb [] (v ∷ vs) (some m) = refl
decode_fields id name ai dir vcpus memory_mb (t ∷ ts) [] none = refl
decode_fields id name ai dir vcpus memory_mb (t ∷ ts) [] (some m) = refl
decode_fields id name ai dir vcpus memory_mb (t ∷ ts) (v ∷ vs) none = refl
decode_fields id name ai dir vcpus memory_mb (t ∷ ts) (v ∷ vs) (some m) = refl

-- The payload of a task to create a workspace decodes to its id and to the request's name, resources,
-- assistant and tools.
pub decode_workspace_create-creation_payload :
    (id : Text) (req : CreateWorkspaceRequest)
    → decode_workspace_create (creation_payload id req)
      ≡ some (record {
        workspace_id = id;
        name = req.name;
        vcpus = req.vcpus;
        memory_mb = req.memory_mb;
        ai_assistant = req.ai_assistant;
        additional_tools = req.additional_tools;
        tool_versions = req.tool_versions;
      })
unfolding creation_payload
decode_workspace_create-creation_payload id req =
    decode_fields id req.name req.ai_assistant _ req.vcpus req.memory_mb req.additional_tools
      req.tool_versions req.ai_assistant_config

pub decode_prompt_execute-prompt_task :
    (id prompt_id workspace_id : Text) (priority : ℕ)
    → decode_prompt_execute (prompt_task id prompt_id workspace_id priority).payload
      ≡ some (record { prompt_id = prompt_id; workspace_id = workspace_id })
unfolding decode_prompt_execute prompt_task lookup text_eq
decode_prompt_execute-prompt_task id prompt_id workspace_id priority = refl
