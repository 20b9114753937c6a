-- ===== src/Service/Secrets/RoundTrip.antt =====
-- A secret that is stored and read again.
use aetherium.Base.{
  ◌≡◌, refl, ap, ◌∙◌, Bool, true, false, ◌&&◌, ◌||◌, Option, none, some, [], if◌then◌else◌, Result,
  ok, err, Text, text, text_eq, lookup, insert, lookup-insert_self, Action, pure,
}
use aetherium.Storage.{WorkspaceSecret}
use aetherium.Storage.Db.{
  Db, DbError, row, row_not_found, has_row, any_row, duplicate_row, missing_reference,
}
use aetherium.Storage.Answers.{execute-calm, query-calm, result_of}
use aetherium.Storage.Secrets as SecretTable
use aetherium.Storage.Secrets.{same_owner}
use aetherium.Storage.Workspaces.{refers}
use aetherium.Service.{Client, Site}
use aetherium.Service.Secrets.{
  SecretRequest, encrypt_secret, decrypt_secret, stored_secret, store_secret, add_secret_in,
  decrypted, get_decrypted_secret,
}

-- The table has no secret of that id, nor one of that name for the workspace.
abbrev pub taken : WorkspaceSecret → Db → Bool
taken s db =
    has_row s.id db.secrets
    || any_row (λ x. same_owner x.workspace_id s.workspace_id && text_eq x.name s.name) db.secrets

create-free :
    (s : WorkspaceSecret) (db : Db)
    → db.faults ≡ []
    → taken s db ≡ false
    → refers s.workspace_id db.workspaces ≡ true
    → SecretTable.create s db ≡ (none, record db { secrets = insert s.id s db.secrets })
unfolding SecretTable.create SecretTable.insert_secret
create-free s db calm free there =
    let stored = record db { secrets = insert s.id s db.secrets } in
    execute-calm (SecretTable.insert_secret s) db calm
    ∙ ap
        (λ t.
          result_of
            (if t
              then err duplicate_row
              else if refers s.workspace_id db.workspaces
              then ok stored
              else err missing_reference)
            db)
        free
    ∙ ap (λ t. result_of (if t then ok stored else err missing_reference) db) there

get-row :
    (id : Text) (s : WorkspaceSecret) (db : Db)
    → db.faults ≡ []
    → lookup id db.secrets ≡ some s
    → SecretTable.get id db ≡ (ok s, db)
unfolding SecretTable.get row
get-row id s db calm found =
    query-calm (λ d. row id d.secrets) db calm
    ∙ ap (λ o. (elim o [ none ↦ err row_not_found | some v ↦ ok v ], db)) found

-- The end of addSecret, with the outcome of the insertion.
abbrev inserted : {W : Type 0} → Text → Site W → Option DbError × Db → Result Text Text × Site W
inserted {W} id s r =
    (elim r.0 as (λ x. Action (Site W) (Result Text Text)) [
      | none ↦ pure (ok id)
      | some e ↦ pure (err (text "failed to store secret"))
    ])
      (record s { db = r.1 })

store_secret-inserted :
    {W : Type 0} (c : Client W) (workspace_id : Text) (req : SecretRequest) (scope : Text)
    (sealed : Text × Text) (s : Site W)
    → store_secret c workspace_id req scope (some sealed) s
      ≡ inserted
          (c.new_id s.host).0
          (record s { host = (c.new_id s.host).1 })
          (SecretTable.create
            (stored_secret c (c.new_id s.host).0 workspace_id req scope sealed)
            s.db)
unfolding store_secret
store_secret-inserted c workspace_id req scope sealed s = refl

-- A secret that is added to a workspace decrypts to the value that was given, if the database answers,
-- the random bytes are there, the new id and the name are free, the workspace has a row, and the cipher
-- opens what it has sealed under the same nonce.
pub get_decrypted_secret-add_secret_in :
    {W : Type 0} (c : Client W)
    → ((nonce plaintext : Text) → c.unseal nonce (c.seal nonce plaintext) ≡ some plaintext)
    → (s : Site W) (workspace_id : Text) (req : SecretRequest) (scope nonce : Text) (v : W)
    → s.db.faults ≡ []
    → c.random_nonce s.host ≡ (some nonce, v)
    → taken
        (stored_secret c (c.new_id v).0 workspace_id req scope (c.seal nonce req.value, nonce))
        s.db
      ≡ false
    → has_row workspace_id s.db.workspaces ≡ true
    → ((add_secret_in c workspace_id req scope s).0 ≡ ok (c.new_id v).0)
      × ((get_decrypted_secret c (c.new_id v).0 (add_secret_in c workspace_id req scope s).1.db).0
          ≡ ok req.value)
unfolding add_secret_in encrypt_secret get_decrypted_secret stored_secret refers decrypt_secret
get_decrypted_secret-add_secret_in c law s workspace_id req scope nonce v calm random free there =
    let id = (c.new_id v).0 in
    let secret = stored_secret c id workspace_id req scope (c.seal nonce req.value, nonce) in
    let db = record s.db { secrets = insert id secret s.db.secrets } in
    let run =
      ap
        (λ r.
          store_secret c workspace_id req scope
            (elim r.0 [ none ↦ none | some n ↦ some (c.seal n req.value, n) ])
            (record s { host = r.1 }))
        random
      ∙ store_secret-inserted c workspace_id req scope (c.seal nonce req.value, nonce)
          (record s { host = v })
      ∙ ap (inserted id (record s { host = (c.new_id v).1 }))
          (create-free secret s.db calm free there) in
    (
      ap (λ r. r.0) run,
      ap (λ r. (get_decrypted_secret c id r.1.db).0) run
          ∙ ap (λ r. decrypted c r.0)
              (get-row id secret db calm (lookup-insert_self id secret s.db.secrets))
          ∙ ap
              (λ o. elim o as (λ x. Result Text Text) [
                | none ↦ err (text "failed to decrypt secret")
                | some x ↦ ok x
              ])
              (law nonce req.value),
    )
