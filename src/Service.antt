-- ===== src/Service.antt =====
-- The services of services/core/pkg/service over the database and the queue: what they call, and their
-- state. The network is not part of it: proxy_service.go passes its calls on to the network manager.
pub mod Workspaces
pub mod Secrets
pub mod Sessions
pub mod Tasks
pub mod Workers
pub mod Payloads
pub mod Examples
pub mod Prompts
use aetherium.Base.{
  ℕ, Bool, true, false, Option, none, some, List, [], ◌∷◌, ◌++◌, if◌then◌else◌, Result, ok, err,
  Text, text_eq, Action, ◌>>=◌, ◌>>◌, pure, gets,
}
use aetherium.Storage.Db.{Db}
use aetherium.Queue.{Task, TaskOptions, QueueOption, asynq_options}

-- `uuid.New()`, `uuid.Parse`, the time, the random bytes of a nonce (none on an error), AES-GCM under the
-- service's key, the client of asynq (which answers whether it has taken the task), and UpdateStatus of
-- the discovery registry, if there is one.
pub record Client (W : Type 0) : Type 0 where
  pub new_id : W → Text × W
  pub parse_id : Text → Option Text
  pub now : W → ℕ
  pub random_nonce : W → Option Text × W
  pub seal : (nonce plaintext : Text) → Text
  pub unseal : (nonce ciphertext : Text) → Option Text
  pub take_task : Task → List QueueOption → W → Bool × W
  pub registry_update_status : Option (Text → Text → W → Bool × W)

-- The database, the tasks that the queue has taken, the newest first, and the rest of the world.
pub record Site (W : Type 0) : Type 0 where
  pub db : Db
  pub queued : List Task
  pub host : W

-- `stringPtr`: nil for the empty string.
abbrev pub string_ptr : Text → Option Text
string_ptr s = if text_eq s [] then none else some s

module _ {W : Type 0} where
  abbrev pub on_db : {A : Type 0} → (Db → A × Db) → Action (Site W) A
  on_db f s = let (a, d) = f s.db in (a, record s { db = d })

  abbrev pub on_host : {A : Type 0} → (W → A × W) → Action (Site W) A
  on_host f s = let (a, v) = f s.host in (a, record s { host = v })

module _ {W : Type 0} (c : Client W) where
  abbrev pub the_time : Action (Site W) ℕ
  the_time = gets (λ s. c.now s.host)

  -- Enqueue of the asynq queue, true where it does not fail.
  unfoldable pub enqueue : Task → TaskOptions → Action (Site W) Bool
  unfolding asynq_options
  enqueue task options s =
      let (taken, v) = c.take_task task (asynq_options (some options)) s.host in
      (taken, record s { host = v; queued = if taken then task ∷ s.queued else s.queued })
