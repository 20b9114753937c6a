-- ===== src/Queue/Payloads.antt =====
-- The payloads of the tasks, decoded by the worker's handlers (UnmarshalPayload into the structs of
-- services/core/pkg/worker), from what the services encode.
use aetherium.Base.{Option, none, some, text, Map}
use aetherium.Storage.{Json}
use aetherium.Queue.{text_field, number_field, strings_field, texts_field}
use aetherium.Worker.Vms.{VmCreatePayload, VmExecutePayload}
use aetherium.Worker.Workspaces.{WorkspaceCreatePayload}
use aetherium.Worker.Prompts.{PromptExecutePayload}

infixl 1 ◌andalso◌
-- The next field, where those before it decode.
abbrev ◌andalso◌ : {A B : Type 0} → Option (A → B) → Option A → Option B
none andalso o = none
(some f) andalso none = none
(some f) andalso (some a) = some (f a)

unfoldable pub decode_vm_create : Map Json → Option VmCreatePayload
unfolding text_field number_field strings_field texts_field
decode_vm_create m =
    some (λ name vcpus memory_mb tools versions. record {
      name = name;
      vcpus = vcpus;
      memory_mb = memory_mb;
      additional_tools = tools;
      tool_versions = versions;
    })
    andalso text_field (text "name") m
    andalso number_field (text "vcpus") m
    andalso number_field (text "memory_mb") m
    andalso strings_field (text "additional_tools") m
    andalso texts_field (text "tool_versions") m

unfoldable pub decode_vm_execute : Map Json → Option VmExecutePayload
unfolding text_field strings_field
decode_vm_execute m =
    some (λ vm_id command args. record { vm_id = vm_id; command = command; args = args })
    andalso text_field (text "vm_id") m
    andalso text_field (text "command") m
    andalso strings_field (text "args") m

-- The fields that the handler looks at; ai_assistant_config and working_dir are not among them.
unfoldable pub decode_workspace_create : Map Json → Option WorkspaceCreatePayload
unfolding text_field number_field strings_field texts_field
decode_workspace_create m =
    some (λ id name vcpus memory_mb ai tools versions. record {
      workspace_id = id;
      name = name;
      vcpus = vcpus;
      memory_mb = memory_mb;
      ai_assistant = ai;
      additional_tools = tools;
      tool_versions = versions;
    })
    andalso text_field (text "workspace_id") m
    andalso text_field (text "name") m
    andalso number_field (text "vcpus") m
    andalso number_field (text "memory_mb") m
    andalso text_field (text "ai_assistant") m
    andalso strings_field (text "additional_tools") m
    andalso texts_field (text "tool_versions") m

unfoldable pub decode_prompt_execute : Map Json → Option PromptExecutePayload
unfolding text_field
decode_prompt_execute m =
    some (λ prompt_id workspace_id. record { prompt_id = prompt_id; workspace_id = workspace_id })
    andalso text_field (text "prompt_id") m
    andalso text_field (text "workspace_id") m
