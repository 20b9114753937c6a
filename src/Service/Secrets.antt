-- ===== src/Service/Secrets.antt =====
-- The secrets of services/core/pkg/service/workspace_service.go.
pub mod RoundTrip
use aetherium.Base.{
  Option, none, some, List, [], if◌then◌else◌, Result, ok, err, Text, text, text_eq, Action, ◌>>=◌,
  ◌>>◌, pure,
}
use aetherium.Storage.{WorkspaceSecret}
use aetherium.Storage.Db.{Db, DbError}
use aetherium.Storage.Secrets as SecretTable
use aetherium.Service.{Client, Site, string_ptr, on_db, on_host}

pub record SecretRequest : Type 0 where
  pub name : Text
  pub value : Text
  pub secret_type : Text
  pub description : Text

abbrev pub or_default : Text → Text → Text
or_default s d = if text_eq s [] then d else s

module _ {W : Type 0} (c : Client W) where
  -- encryptSecret: the ciphertext and the nonce.
  unfoldable pub encrypt_secret : Text → W → Option (Text × Text) × W
  encrypt_secret plaintext v =
      let (nonce, v1) = c.random_nonce v in
      (elim nonce [ none ↦ none | some n ↦ some (c.seal n plaintext, n) ], v1)

  unfoldable pub decrypt_secret : (ciphertext nonce : Text) → Option Text
  decrypt_secret ciphertext nonce = c.unseal nonce ciphertext

  unfoldable pub stored_secret :
      (id workspace_id : Text) → SecretRequest → Text → Text × Text → WorkspaceSecret
  stored_secret id workspace_id req scope (ciphertext, nonce) = record {
    id = id;
    workspace_id = some workspace_id;
    name = req.name;
    description = string_ptr req.description;
    secret_type = or_default req.secret_type (text "api_key");
    encrypted_value = ciphertext;
    encryption_key_id = text "default";
    nonce = nonce;
    scope = scope;
  }

  unfoldable pub store_secret :
      Text → SecretRequest → Text → Option (Text × Text) → Action (Site W) (Result Text Text)
  unfolding stored_secret
  store_secret workspace_id req scope none = pure (err (text "failed to encrypt secret"))
  store_secret workspace_id req scope (some sealed) = do
    id ← on_host c.new_id
    problem ← on_db (SecretTable.create (stored_secret id workspace_id req scope sealed))
    elim problem [ some e ↦ pure (err (text "failed to store secret")) | none ↦ pure (ok id) ]

  -- addSecret.
  unfoldable pub add_secret_in : Text → SecretRequest → Text → Action (Site W) (Result Text Text)
  unfolding encrypt_secret store_secret
  add_secret_in workspace_id req scope =
      on_host (encrypt_secret req.value) >>= store_secret workspace_id req scope

  unfoldable pub add_secret : Text → SecretRequest → Text → Action (Site W) (Result Text Text)
  unfolding add_secret_in
  add_secret workspace_id req scope =
      add_secret_in workspace_id req (or_default scope (text "workspace"))

  abbrev pub decrypted : Result DbError WorkspaceSecret → Result Text Text
  decrypted (err e) = err (text "secret not found")
  decrypted (ok s) = elim (decrypt_secret s.encrypted_value s.nonce) [
    | none ↦ err (text "failed to decrypt secret")
    | some value ↦ ok value
  ]

  unfoldable pub get_decrypted_secret : Text → Db → Result Text Text × Db
  unfolding decrypt_secret
  get_decrypted_secret id db = let (found, db1) = SecretTable.get id db in (decrypted found, db1)

  unfoldable pub get_decrypted_secret_by_name : Text → Text → Db → Result Text Text × Db
  unfolding decrypt_secret
  get_decrypted_secret_by_name workspace_id name db =
      let (found, db1) = SecretTable.get_by_name (some workspace_id) name db in
      (decrypted found, db1)
