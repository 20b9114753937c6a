-- ===== src/Service/Workspaces/Kept.antt =====
-- What the secrets and the steps of a new workspace leave as it was: the table of the workspaces.
use aetherium.Base.{
  ◌≡◌, ◌||◌, ◌&&◌, Option, none, some, List, [], ◌∷◌, Result, ok, err, Text, text, text_eq, Map,
  Action, pure, Preserves, Preserves-option,
}
use aetherium.Storage.{Workspace, WorkspaceSecret, PrepStep}
use aetherium.Storage.Db.{Db, DbError, has_row, any_row}
use aetherium.Storage.Answers.{Calm, Stays, Stays-if, execute-Preserves}
use aetherium.Storage.PrepSteps as PrepStepTable
use aetherium.Storage.Secrets as SecretTable
use aetherium.Storage.Secrets.{same_owner}
use aetherium.Storage.Workspaces.{refers}
use aetherium.Service.{Client, Site}
use aetherium.Service.Secrets.{
  SecretRequest, encrypt_secret, stored_secret, store_secret, add_secret_in,
}
use aetherium.Service.Workspaces.{PrepStepRequest, next_secret, store_secrets, new_steps}

-- The database answers, and has these workspaces.
abbrev pub Rows : Map Workspace → Db → Type 0
Rows m = Calm (λ d. d.workspaces ≡ m)

module _ (m : Map Workspace) where
  abbrev Same : Db → Type 0
  Same d = d.workspaces ≡ m

  insert_secret-Stays :
      (x : WorkspaceSecret) (db : Db) → Rows m db → Stays Same (SecretTable.insert_secret x db)
  unfolding SecretTable.insert_secret
  insert_secret-Stays x db r =
      Stays-if Same
        (has_row x.id db.secrets
          || any_row (λ y. same_owner y.workspace_id x.workspace_id && text_eq y.name x.name)
              db.secrets)
        _ _ tt (Stays-if Same (refers x.workspace_id db.workspaces) _ _ r tt)

  create_secret-Rows : (x : WorkspaceSecret) → Preserves (Rows m) (SecretTable.create x)
  unfolding SecretTable.create
  create_secret-Rows x =
      execute-Preserves Same (SecretTable.insert_secret x) (insert_secret-Stays x)

  insert_step-Stays :
      (x : PrepStep) (db : Db) → Rows m db → Stays Same (PrepStepTable.insert_step x db)
  unfolding PrepStepTable.insert_step
  insert_step-Stays x db r =
      Stays-if Same (has_row x.id db.prep_steps) _ _ tt
        (Stays-if Same (has_row x.workspace_id db.workspaces) _ _ r tt)

  create_step-Rows : (x : PrepStep) → Preserves (Rows m) (PrepStepTable.create x)
  unfolding PrepStepTable.create
  create_step-Rows x = execute-Preserves Same (PrepStepTable.insert_step _) (insert_step-Stays _)

  Rows-proceed :
      (o : Option DbError) (x : Option DbError × Db) (db : Db)
      → Rows m x.1
      → Rows m db
      → Rows m (elim o as (λ o. Option DbError × Db) [ none ↦ x | some e ↦ (some e, db) ]).1
  Rows-proceed none x db r s = r
  Rows-proceed (some e) x db r s = s

  pub create_batch-Rows : (xs : List PrepStep) → Preserves (Rows m) (PrepStepTable.create_batch xs)
  unfolding PrepStepTable.create_batch
  create_batch-Rows [] db r = r
  create_batch-Rows (x ∷ xs) db r =
      let (failure, db1) = PrepStepTable.create x db in
      let r1 = create_step-Rows x db r in
      Rows-proceed failure (PrepStepTable.create_batch xs db1) db1 (create_batch-Rows xs db1 r1) r1

module _ {W : Type 0} (c : Client W) (m : Map Workspace) where
  abbrev pub On : Site W → Type 0
  On s = Rows m s.db

  store_secret-On :
      (workspace_id : Text) (req : SecretRequest) (scope : Text) (sealed : Option (Text × Text))
      → Preserves On (store_secret c workspace_id req scope sealed)
  unfolding store_secret
  store_secret-On workspace_id req scope none s r = r
  store_secret-On workspace_id req scope (some sealed) s r =
      let (id, v) = c.new_id s.host in
      Preserves-option On
        (SecretTable.create (stored_secret c id workspace_id req scope sealed) s.db).0
        (pure (ok id)) (λ e. pure (err (text "failed to store secret"))) (λ s r. r) (λ e s r. r) _
        (create_secret-Rows m (stored_secret c id workspace_id req scope sealed) s.db r)

  next_secret-On :
      (others : Action (Site W) (Option Text)) (stored : Result Text Text)
      → Preserves On others
      → Preserves On (next_secret c others stored)
  unfolding next_secret
  next_secret-On others (err e) k s r = r
  next_secret-On others (ok id) k s r = k s r

  pub store_secrets-On :
      (workspace_id : Text) (reqs : List SecretRequest)
      → Preserves On (store_secrets c workspace_id reqs)
  unfolding store_secrets add_secret_in
  store_secrets-On workspace_id [] s r = r
  store_secrets-On workspace_id (req ∷ rest) s r =
      let (sealed, v) = encrypt_secret c req.value s.host in
      let (stored, s1) =
        store_secret c workspace_id req (text "workspace") sealed (record s { host = v }) in
      next_secret-On (store_secrets c workspace_id rest) stored (store_secrets-On workspace_id rest)
        s1 (store_secret-On workspace_id req (text "workspace") sealed (record s { host = v }) r)

  pub new_steps-On :
      (workspace_id : Text) (reqs : List PrepStepRequest)
      → Preserves On (new_steps c workspace_id reqs)
  unfolding new_steps
  new_steps-On workspace_id [] s r = r
  new_steps-On workspace_id (req ∷ rest) s r =
      new_steps-On workspace_id rest (record s { host = (c.new_id s.host).1 }) r
