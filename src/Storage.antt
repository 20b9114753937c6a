-- ===== src/Storage.antt =====
-- The rows of the database: services/core/pkg/storage/storage.go and environment.go. An id is the text
-- of a UUID, a time is a count of ticks, and a nullable column is an Option.
pub mod Db
pub mod Workspaces
pub mod Vms
pub mod Prompts
pub mod Secrets
pub mod PrepSteps
pub mod Sessions
pub mod Workers
pub mod Lists
pub mod Updates
pub mod Answers
pub mod Kept
pub mod Cascade
use aetherium.Base.{ℕ, Bool, Option, List, Text, Map}

-- The values of a JSON object that the program looks at.
pub data Json : Type 0 where
  string : Text → Json
  boolean : Bool → Json
  number : ℕ → Json
  strings : List Text → Json
  texts : Map Text → Json
  null : Json
  other : Json

-- Row of `vms`.
pub record VmRow : Type 0 where
  pub id : Text
  pub name : Text
  pub orchestrator : Text
  pub status : Text
  pub kernel_path : Option Text
  pub root_fs_path : Option Text
  pub socket_path : Option Text
  pub vcpu_count : Option ℕ
  pub memory_mb : Option ℕ
  pub worker_id : Option Text
  pub started_at : Option ℕ
  pub stopped_at : Option ℕ
  pub metadata : Map Json

pub record Execution : Type 0 where
  pub id : Text
  pub vm_id : Option Text
  pub command : Text
  pub args : List Text
  pub exit_code : Option ℕ
  pub stdout : Option Text
  pub stderr : Option Text
  pub started_at : ℕ
  pub completed_at : Option ℕ
  pub duration_ms : Option ℕ

-- Row of `workers`.
pub record WorkerRow : Type 0 where
  pub id : Text
  pub hostname : Text
  pub address : Text
  pub status : Text
  pub last_seen : ℕ
  pub started_at : ℕ
  pub zone : Text
  pub labels : Map Text
  pub capabilities : List Text
  pub cpu_cores : ℕ
  pub memory_mb : ℕ
  pub disk_gb : ℕ
  pub used_cpu_cores : ℕ
  pub used_memory_mb : ℕ
  pub used_disk_gb : ℕ
  pub vm_count : ℕ
  pub max_vms : ℕ

pub record Environment : Type 0 where
  pub id : Text
  pub name : Text
  pub vcpus : ℕ
  pub memory_mb : ℕ
  pub git_repo_url : Text
  pub git_branch : Text
  pub working_directory : Text
  pub tools : List Text
  pub env_vars : Map Text
  pub mcp_servers : List Json
  pub idle_timeout_seconds : ℕ

pub record Workspace : Type 0 where
  pub id : Text
  pub name : Text
  pub description : Option Text
  pub vm_id : Option Text
  pub environment_id : Option Text
  pub status : Text
  pub ai_assistant : Text
  pub ai_assistant_config : Map Json
  pub working_directory : Text
  pub idle_since : Option ℕ
  pub ready_at : Option ℕ
  pub stopped_at : Option ℕ
  pub metadata : Map Json

pub record WorkspaceSecret : Type 0 where
  pub id : Text
  pub workspace_id : Option Text
  pub name : Text
  pub description : Option Text
  pub secret_type : Text
  pub encrypted_value : Text
  pub encryption_key_id : Text
  pub nonce : Text
  pub scope : Text

pub record PrepStep : Type 0 where
  pub id : Text
  pub workspace_id : Text
  pub step_type : Text
  pub step_order : ℕ
  pub config : Map Json
  pub status : Text
  pub exit_code : Option ℕ
  pub stdout : Option Text
  pub stderr : Option Text
  pub error : Option Text
  pub started_at : Option ℕ
  pub completed_at : Option ℕ
  pub duration_ms : Option ℕ

pub record PrepStepResult : Type 0 where
  pub exit_code : ℕ
  pub stdout : Text
  pub stderr : Text
  pub error : Text
  pub duration_ms : ℕ

pub record PromptTask : Type 0 where
  pub id : Text
  pub workspace_id : Text
  pub prompt : Text
  pub system_prompt : Option Text
  pub working_directory : Option Text
  pub environment : Map Json
  pub priority : ℕ
  pub status : Text
  pub exit_code : Option ℕ
  pub stdout : Option Text
  pub stderr : Option Text
  pub error : Option Text
  pub started_at : Option ℕ
  pub completed_at : Option ℕ
  pub duration_ms : Option ℕ

pub record PromptResult : Type 0 where
  pub exit_code : ℕ
  pub stdout : Text
  pub stderr : Text
  pub error : Text
  pub duration_ms : ℕ

pub record WorkspaceSession : Type 0 where
  pub id : Text
  pub workspace_id : Text
  pub status : Text
  pub client_ip : Option Text
  pub user_agent : Option Text
  pub last_activity : ℕ
  pub disconnected_at : Option ℕ

pub record SessionMessage : Type 0 where
  pub id : Text
  pub session_id : Text
  pub message_type : Text
  pub content : Text
  pub exit_code : Option ℕ
