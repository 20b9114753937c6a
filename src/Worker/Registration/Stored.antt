-- ===== src/Worker/Registration/Stored.antt =====
-- The row of a worker that registers.
use aetherium.Base.{
  ◌≡◌, refl, ap, ◌∙◌, Bool, true, false, Option, none, some, [], if◌then◌else◌, Result, ok, err,
  Text, text, Map, lookup, insert, lookup-insert_self,
}
use aetherium.Storage.{WorkerRow}
use aetherium.Storage.Db.{Db, DbError, row_not_found, duplicate_row, change, has_row}
use aetherium.Storage.Answers.{execute-calm, result_of, and_then}
use aetherium.Storage.Workers
use aetherium.Worker.Registration.{store_worker}

-- The row that is stored over the one that is there: it keeps the time of the first start.
abbrev pub stored_over : WorkerRow → Option WorkerRow → WorkerRow
stored_over row none = row
stored_over row (some old) = record row { started_at = old.started_at }

abbrev stored_in : WorkerRow → Db → Option WorkerRow → Db
stored_in row db o = record db { workers = insert row.id (stored_over row o) db.workers }

-- Registration after the attempt to create the row.
abbrev created : WorkerRow → Option DbError × Db → Option Text × Db
created row r = elim r.0 as (λ x. Option Text × Db) [
  | none ↦ (none, r.1)
  | some e ↦
      let (problem, db) = Workers.update row r.1 in
      elim problem as (λ x. Option Text × Db) [
        | none ↦ (none, db)
        | some e2 ↦ (some (text "failed to register worker in database"), db)
      ]
]

abbrev updated : Option DbError × Db → Option Text × Db
updated r = elim r.0 as (λ x. Option Text × Db) [
  | none ↦ (none, r.1)
  | some e2 ↦ (some (text "failed to register worker in database"), r.1)
]

abbrev change_of : WorkerRow → Db → Option WorkerRow → Result DbError (Map WorkerRow)
change_of row db o = elim o as (λ x. Result DbError (Map WorkerRow)) [
  | none ↦ err row_not_found
  | some old ↦ ok (insert row.id (stored_over row (some old)) db.workers)
]

module _ (row : WorkerRow) (db : Db) (calm : db.faults ≡ []) where
  create-result :
      (o : Option WorkerRow)
      → lookup row.id db.workers ≡ o
      → Workers.create row db
        ≡ result_of
            (if elim o as (λ x. Bool) [ none ↦ false | some v ↦ true ]
              then err duplicate_row
              else ok (stored_in row db none))
            db
  unfolding Workers.create Workers.insert_worker has_row
  create-result o found =
      execute-calm (Workers.insert_worker row) db calm
      ∙ ap
          (λ o.
            result_of
              (if elim o as (λ x. Bool) [ none ↦ false | some v ↦ true ]
                then err duplicate_row
                else ok (stored_in row db none))
              db)
          found

  update-result :
      (old : WorkerRow)
      → lookup row.id db.workers ≡ some old
      → Workers.update row db ≡ (none, stored_in row db (some old))
  unfolding Workers.update Workers.changed change
  update-result old found =
      execute-calm (Workers.changed row.id (λ old. record row { started_at = old.started_at })) db
        calm
      ∙ ap
          (λ o.
            result_of (and_then (change_of row db o) (λ rows. ok (record db { workers = rows })))
              db)
          found

  store_cases :
      (o : Option WorkerRow)
      → lookup row.id db.workers ≡ o
      → store_worker row db ≡ (none, stored_in row db o)
  unfolding store_worker
  store_cases none found = ap (created row) (create-result none found)
  store_cases (some old) found =
      ap (created row) (create-result (some old) found) ∙ ap updated (update-result old found)

-- If the database answers, the registration of a worker succeeds, whether it has a row or not, and its
-- row is the one that was registered, with the time of the first start.
pub store_worker-stored :
    (row : WorkerRow) (db : Db)
    → db.faults ≡ []
    → ((store_worker row db).0 ≡ none)
      × (lookup row.id (store_worker row db).1.workers
          ≡ some (stored_over row (lookup row.id db.workers)))
store_worker-stored row db calm =
    let stored = store_cases row db calm (lookup row.id db.workers) refl in
    (
      ap (λ r. r.0) stored,
      ap (λ r. lookup row.id r.1.workers) stored ∙ lookup-insert_self row.id _ db.workers,
    )
