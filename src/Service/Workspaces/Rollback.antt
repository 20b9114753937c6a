-- ===== src/Service/Workspaces/Rollback.antt =====
-- A creation that fails takes the workspace back.
use aetherium.Base.{
  ◌≡◌, refl, sym, ap, subst, ◌∙◌, arith, Bool, true, false, ◌||◌, ◌&&◌, Option, none, some, [],
  if◌then◌else◌, Result, ok, err, Text, text, text_eq, text_eq_iff, Map, lookup, insert,
  lookup-insert, lookup-insert_self, ◌*◌, Action, ◌>>=◌, is_err,
}
use aetherium.Storage.{Workspace}
use aetherium.Storage.Db.{
  Db, DbError, has_row, any_row, duplicate_row, missing_reference, lookup-without_keys,
  drop_workspaces,
}
use aetherium.Storage.Answers.{execute-calm, result_of}
use aetherium.Storage.PrepSteps as PrepStepTable
use aetherium.Storage.Workspaces as WorkspaceTable
use aetherium.Storage.Workspaces.{refers}
use aetherium.Queue.{asynq_options, minute}
use aetherium.Storage.Cascade.{delete_row-found}
use aetherium.Service.{Client, Site, enqueue}
use aetherium.Service.Workspaces.{
  CreateWorkspaceRequest, new_workspace, undo, store_secrets, new_steps, after_enqueue,
  creation_task, enqueue_creation, after_steps, after_secrets, after_insert, insert_new, insert_in,
  create_workspace, workspace_options,
}
use aetherium.Service.Workspaces.Kept.{Rows, create_batch-Rows, store_secrets-On, new_steps-On}

-- After a failure the workspaces are as they were in `m`.
abbrev pub Undone : {A W : Type 0} → Map Workspace → Result Text A × Site W → Type 0
Undone m (r, s) = is_err r ≡ true → (k : Text) → lookup k s.db.workspaces ≡ lookup k m

-- From the database with the new workspace.
module _ {W : Type 0} (c : Client W) (m : Map Workspace) (id : Text) (w : Workspace)
    (fresh : lookup id m ≡ none) where
  abbrev Undoes : Action (Site W) (Result Text (Text × Text)) → Type 0
  Undoes f = (s : Site W) → Rows (insert id w m) s.db → Undone m (f s)

  lookup-deleted :
      (k : Text) → (if text_eq k id then none else lookup k (insert id w m)) ≡ lookup k m
  lookup-deleted k =
      ground (arith, lookup-insert id k w m, text_eq_iff k id, text_eq_iff id k, fresh)

  undo-Undoes : (message : Text) → Undoes (undo c id message)
  unfolding undo drop_workspaces has_row
  undo-Undoes message s (calm, rows) failed k =
      let there =
        ap (has_row id) rows
        ∙ ap (λ o. elim o as (λ x. Bool) [ none ↦ false | some v ↦ true ])
            (lookup-insert_self id w m) in
      ap (λ r. lookup k r.1.workspaces) (delete_row-found s.db calm id there)
      ∙ lookup-without_keys (λ k. text_eq k id) k s.db.workspaces
      ∙ ap (λ rows. if text_eq k id then none else lookup k rows) rows
      ∙ lookup-deleted k

  after_enqueue-Undoes : (task_id : Text) (taken : Bool) → Undoes (after_enqueue c task_id id taken)
  unfolding after_enqueue
  after_enqueue-Undoes task_id true s r failed k = ground (arith, failed)
  after_enqueue-Undoes task_id false s r failed k =
      undo-Undoes (text "failed to enqueue workspace creation task") s r failed k

  enqueue_creation-Undoes : (req : CreateWorkspaceRequest) → Undoes (enqueue_creation c id req)
  unfolding enqueue_creation enqueue
  enqueue_creation-Undoes req s r =
      let (task_id, v) = c.new_id s.host in
      let (taken, v1) =
        c.take_task (creation_task c task_id id req)
          (asynq_options (some (workspace_options (30 * minute)))) v in
      after_enqueue-Undoes task_id taken _ r

  after_steps-Undoes :
      (req : CreateWorkspaceRequest) (stored : Option DbError)
      → Undoes (after_steps c id req stored)
  unfolding after_steps
  after_steps-Undoes req none s r = enqueue_creation-Undoes req s r
  after_steps-Undoes req (some e) s r = undo-Undoes (text "failed to store prep steps") s r

  after_secrets-Undoes :
      (req : CreateWorkspaceRequest) (stored : Option Text) → Undoes (after_secrets c id req stored)
  unfolding after_secrets
  after_secrets-Undoes req (some e) s r = undo-Undoes (text "failed to store secret") s r
  after_secrets-Undoes req none s r =
      let (steps, s1) = new_steps c id req.prep_steps s in
      let (stored, db) = PrepStepTable.create_batch steps s1.db in
      after_steps-Undoes req stored (record s1 { db = db })
        (create_batch-Rows (insert id w m) steps s1.db
          (new_steps-On c (insert id w m) id req.prep_steps s r))

  store_all-Undoes :
      (req : CreateWorkspaceRequest)
      → Undoes (store_secrets c id req.secrets >>= after_secrets c id req)
  store_all-Undoes req s r =
      let (stored, s1) = store_secrets c id req.secrets s in
      after_secrets-Undoes req stored s1 (store_secrets-On c (insert id w m) id req.secrets s r)

-- The insertion makes the row, whose id was free, or leaves the database as it was.
abbrev Inserted : Workspace → Db → Option DbError × Db → Type 0
Inserted w db (none, db1) =
    Rows (insert w.id w db.workspaces) db1 × (lookup w.id db.workspaces ≡ none)
Inserted w db (some e, db1) = db1.workspaces ≡ db.workspaces

module _ (x : Workspace) (db : Db) (calm : db.faults ≡ []) where
  insert_cases :
      (o : Option Workspace) (named referred : Bool)
      → lookup x.id db.workspaces ≡ o
      → Inserted x db (
          result_of
            (if elim o as (λ o. Bool) [ none ↦ false | some v ↦ true ] || named
              then err duplicate_row
              else if referred
              then ok (record db { workspaces = insert x.id x db.workspaces })
              else err missing_reference)
            db)
  insert_cases none false true p = ((calm, refl), p)
  insert_cases none false false p = refl
  insert_cases none true referred p = refl
  insert_cases (some v) named referred p = refl

  insert_workspace-Inserted : Inserted x db (result_of (WorkspaceTable.insert_workspace x db) db)
  unfolding WorkspaceTable.insert_workspace has_row
  insert_workspace-Inserted =
      insert_cases (lookup x.id db.workspaces) (any_row (λ y. text_eq y.name x.name) db.workspaces)
        (refers x.vm_id db.vms && refers x.environment_id db.environments) refl

create-Inserted :
    (id : Text) (environment_id : Option Text) (req : CreateWorkspaceRequest) (db : Db)
    → db.faults ≡ []
    → Inserted
        (new_workspace id environment_id req)
        db
        (WorkspaceTable.create (new_workspace id environment_id req) db)
unfolding WorkspaceTable.create new_workspace
create-Inserted id environment_id req db calm =
    let x = new_workspace id environment_id req in
    subst (Inserted x db) (sym (execute-calm (WorkspaceTable.insert_workspace x) db calm))
      (insert_workspace-Inserted x db calm)

module _ {W : Type 0} (c : Client W) where
  after_insert-Undone :
      (x : Workspace) (req : CreateWorkspaceRequest) (s : Site W) (r : Option DbError × Db)
      → Inserted x s.db r
      → Undone s.db.workspaces (after_insert c x.id req r.0 (record s { db = r.1 }))
  unfolding after_insert
  after_insert-Undone x req s (none, db) (rows, fresh) failed k =
      store_all-Undoes c s.db.workspaces x.id x fresh req (record s { db = db }) rows failed k
  after_insert-Undone x req s (some e, db) kept failed k = ap (lookup k) kept

  insert_new-Undone :
      (id : Text) (environment_id : Option Text) (req : CreateWorkspaceRequest) (s : Site W)
      → s.db.faults ≡ []
      → Undone s.db.workspaces (insert_new c id environment_id req s)
  unfolding insert_new new_workspace
  insert_new-Undone id environment_id req s calm =
      let x = new_workspace id environment_id req in
      after_insert-Undone x req s (WorkspaceTable.create x s.db)
        (create-Inserted id environment_id req s.db calm)

  insert_in-Undone :
      (id : Text) (environment_id : Option Text) (req : CreateWorkspaceRequest) (s : Site W)
      → s.db.faults ≡ []
      → Undone s.db.workspaces (insert_in c id req environment_id s)
  unfolding insert_in
  insert_in-Undone id none req s calm failed k = refl
  insert_in-Undone id (some e) req s calm failed k =
      insert_new-Undone id (some e) req s calm failed k

  insert_if-Undone :
      (t : Bool) (id : Text) (req : CreateWorkspaceRequest) (s : Site W)
      → s.db.faults ≡ []
      → Undone s.db.workspaces (
          (if t
              then insert_new c id none req
              else insert_in c id req (c.parse_id req.environment_id))
            s)
  insert_if-Undone true id req s calm = insert_new-Undone id none req s calm
  insert_if-Undone false id req s calm =
      insert_in-Undone id (c.parse_id req.environment_id) req s calm

  -- If the database answers and the creation fails, then every workspace is as it was before, and there
  -- is none that was not there before.
  pub create_workspace-Undone :
      (req : CreateWorkspaceRequest) (s : Site W)
      → s.db.faults ≡ []
      → is_err (create_workspace c req s).0 ≡ true
      → (k : Text) → lookup k (create_workspace c req s).1.db.workspaces ≡ lookup k s.db.workspaces
  unfolding create_workspace
  create_workspace-Undone req s calm =
      insert_if-Undone (text_eq req.environment_id []) (c.new_id s.host).0 req
        (record s { host = (c.new_id s.host).1 }) calm
