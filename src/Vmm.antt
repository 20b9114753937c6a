-- ===== src/Vmm.antt =====
-- The virtual machines: VMConfig, VMStatus and VM of libs/types/pkg/domain/types.go, which the
-- orchestrators under services/core/pkg/vmm manage.
pub mod Firecracker
pub mod Docker
use aetherium.Base.{
  ℕ, ◌≡◌, refl, arith, Bool, true, false, Option, List, Text, text, text_eq, if◌then◌else◌, Map,
}

pub record VmConfig : Type 0 where
  pub id : Text
  pub kernel_path : Text
  pub root_fs_path : Text
  pub socket_path : Text
  pub vcpu_count : ℕ
  pub memory_mb : ℕ
  pub env : Map Text
  pub metadata : Map Text
  pub default_tools : List Text
  pub additional_tools : List Text
  pub tool_versions : Map Text

pub data VmStatus : Type 0 where
  created starting running stopping stopped failed : VmStatus
  -- Any other text: VMStatus is a string.
  unknown : Text → VmStatus

-- A time is a count of ticks, 0 for Go's zero time.
pub record Vm : Type 0 where
  pub id : Text
  pub status : VmStatus
  pub config : VmConfig
  pub created_at : ℕ
  pub started_at : Option ℕ
  pub stopped_at : Option ℕ
  pub metadata : Map Text

unfoldable pub is_created : VmStatus → Bool
is_created created = true
is_created _ = false

unfoldable pub is_running : VmStatus → Bool
is_running running = true
is_running _ = false

pub created_of_is_created : (s : VmStatus) → is_created s ≡ true → s ≡ created
unfolding is_created
created_of_is_created s e = ground arith

pub running_of_is_running : (s : VmStatus) → is_running s ≡ true → s ≡ running
unfolding is_running
running_of_is_running s e = ground arith

-- The status that a text is.
unfoldable pub status_of_text : Text → VmStatus
status_of_text s =
    if text_eq s (text "CREATED")
    then created
    else if text_eq s (text "STARTING")
    then starting
    else if text_eq s (text "RUNNING")
    then running
    else if text_eq s (text "STOPPING")
    then stopping
    else if text_eq s (text "STOPPED")
    then stopped
    else if text_eq s (text "FAILED")
    then failed
    else unknown s
