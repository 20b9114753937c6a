-- ===== src/Memory.antt =====
-- The implementations that keep everything in memory: the state store
-- (services/core/pkg/storage/memory/memory.go) and the task queue
-- (services/core/pkg/queue/memory/memory.go), with the types of libs/types/pkg/domain/types.go.
pub mod Store
pub mod Pages
pub mod Queue
pub mod Tasks
pub mod Examples
use aetherium.Base.{ℕ, Option, Text, Map}
use aetherium.Storage.{Json}

pub record Task : Type 0 where
  pub id : Text
  pub project_id : Text
  pub parent_task_id : Option Text
  pub task_type : Text
  pub status : Text
  pub description : Text
  pub agent_type : Text
  pub prompt : Text
  pub container_id : Option Text
  pub vm_id : Option Text
  pub pull_request : Option Text
  pub error_message : Option Text
  pub metadata : Map Json
  pub created_at : ℕ
  pub updated_at : ℕ
  pub started_at : Option ℕ
  pub completed_at : Option ℕ

pub record Project : Type 0 where
  pub id : Text
  pub name : Text
  pub description : Text
  pub repo_url : Text
  pub status : Text
  pub created_at : ℕ
  pub updated_at : ℕ
