-- ===== src/Worker/Prep/Ends.antt =====
-- Every preparation step that is run ends as completed or as failed.
use aetherium.Base.{
  ℕ, ◌-◌, ◌≡◌, refl, sym, ap, subst, ◌∙◌, arith, Bool, true, ◌||◌, inl, inr, Bool-cases, Option,
  none, some, List, [], ◌∷◌, if◌then◌else◌, Result, ok, err, Text, text, text_eq, Map, lookup,
  insert, lookup-insert, lookup-insert_self, for_each,
}
use aetherium.Storage.{PrepStep, PrepStepResult}
use aetherium.Storage.Db.{Db, DbError, row_not_found, change}
use aetherium.Storage.Answers.{execute-calm, result_of, and_then}
use aetherium.Storage.PrepSteps as PrepStepTable
use aetherium.Worker.{Backend, World}
use aetherium.Worker.Prep.{
  StepOutcome, execute_git_clone, execute_script, execute_env_var, execute_step, recorded, run_step,
}

abbrev has_ended : PrepStep → Bool
has_ended p = text_eq p.status (text "completed") || text_eq p.status (text "failed")

-- The step has a row, and one that says that it has ended.
abbrev pub Present : Text → Map PrepStep → Type 0
Present id m = (p : PrepStep) × (lookup id m ≡ some p)

abbrev pub Ended : Text → Map PrepStep → Type 0
Ended id m = (p : PrepStep) × (lookup id m ≡ some p) × (has_ended p ≡ true)

abbrev change_of :
    Text → (PrepStep → PrepStep) → Map PrepStep → Option PrepStep → Result DbError (Map PrepStep)
change_of id f m o = elim o [ none ↦ err row_not_found | some p ↦ ok (insert id (f p) m) ]

update_status-found :
    (now : ℕ) (id status : Text) (r : Option PrepStepResult) (db : Db) (p : PrepStep)
    → db.faults ≡ []
    → lookup id db.prep_steps ≡ some p
    → PrepStepTable.update_status now id status r db ≡ (
      none,
      record db { prep_steps = insert id (PrepStepTable.with_status now status r p) db.prep_steps },
    )
unfolding PrepStepTable.update_status change
update_status-found now id status r db p calm found =
    let f = PrepStepTable.with_status now status r in
    execute-calm
      (λ d. and_then (change id f d.prep_steps) (λ rows. ok (record d { prep_steps = rows }))) db
      calm
    ∙ ap
        (λ o.
          result_of
            (and_then (change_of id f db.prep_steps o)
              (λ rows. ok (record db { prep_steps = rows })))
            db)
        found

-- What a row of the table is after two insertions.
lookup-insert_twice :
    (id i : Text) (q q1 : PrepStep) (m : Map PrepStep)
    → lookup i (insert id q (insert id q1 m)) ≡ (if text_eq id i then some q else lookup i m)
lookup-insert_twice id i q q1 m =
    ground (arith, lookup-insert id i q (insert id q1 m), lookup-insert id i q1 m)

Present-insert_twice :
    (id i : Text) (q q1 : PrepStep) (m : Map PrepStep)
    → Present i m
    → Present i (insert id q (insert id q1 m))
Present-insert_twice id i q q1 m (p, found) = elim (Bool-cases (text_eq id i)) [
  | inl same ↦ (q, ground (arith, lookup-insert_twice id i q q1 m, same))
  | inr other ↦ (p, ground (arith, lookup-insert_twice id i q q1 m, other, found))
]

Ended-insert_twice :
    (id i : Text) (q q1 : PrepStep) (m : Map PrepStep)
    → has_ended q ≡ true
    → Ended i m
    → Ended i (insert id q (insert id q1 m))
Ended-insert_twice id i q q1 m ends (p, found, ended) = elim (Bool-cases (text_eq id i)) [
  | inl same ↦ (q, ground (arith, lookup-insert_twice id i q q1 m, same), ends)
  | inr other ↦ (p, ground (arith, lookup-insert_twice id i q q1 m, other, found), ended)
]

-- Every step of the list has a row, and one that says that it has ended.
abbrev pub AllPresent : List PrepStep → Map PrepStep → Type 0
AllPresent [] m = Unit {0}
AllPresent (x ∷ xs) m = Present x.id m × AllPresent xs m

abbrev pub AllEnded : List PrepStep → Map PrepStep → Type 0
AllEnded [] m = Unit {0}
AllEnded (x ∷ xs) m = Ended x.id m × AllEnded xs m

AllPresent-insert_twice :
    (id : Text) (q q1 : PrepStep) (m : Map PrepStep) (xs : List PrepStep)
    → AllPresent xs m
    → AllPresent xs (insert id q (insert id q1 m))
AllPresent-insert_twice id q q1 m [] all = tt
AllPresent-insert_twice id q q1 m (x ∷ xs) (there, all) =
    (Present-insert_twice id x.id q q1 m there, AllPresent-insert_twice id q q1 m xs all)

module _ {W : Type 0} (b : Backend W) where
  -- A step's own work leaves the database as it is.
  execute_step-db :
      (vm_id : Text) (step : PrepStep) (s : World W) → (execute_step b vm_id step s).1.db ≡ s.db
  unfolding execute_step execute_git_clone execute_script execute_env_var
  execute_step-db vm_id step s = ground arith

  recorded-ends :
      (now duration : ℕ) (done : StepOutcome) (p : PrepStep)
      → has_ended (
          PrepStepTable.with_status now
            (recorded b duration done).0
            (some (recorded b duration done).1)
            p)
        ≡ true
  unfolding recorded PrepStepTable.with_status text_eq
  recorded-ends now duration (r, none) p = refl
  recorded-ends now duration (r, some e) p = refl

  -- The table after a step: its row has changed twice, and says in the end that the step has ended.
  abbrev After : Text → Map PrepStep → Db → Type 0
  After id m db =
      (db.faults ≡ [])
      × ((q q1 : PrepStep) × (has_ended q ≡ true) × (db.prep_steps ≡ insert id q (insert id q1 m)))

  run_step-After :
      (vm_id : Text) (step : PrepStep) (s : World W) (p : PrepStep)
      → s.db.faults ≡ []
      → lookup step.id s.db.prep_steps ≡ some p
      → After step.id s.db.prep_steps (run_step b vm_id step s).1.db
  unfolding run_step
  run_step-After vm_id step s p calm found =
      let now = b.now s.host in
      let q1 = PrepStepTable.with_status now (text "running") none p in
      let db1 = record s.db { prep_steps = insert step.id q1 s.db.prep_steps } in
      let s1 = record s {
        db = (PrepStepTable.update_status now step.id (text "running") none s.db).1;
      } in
      let (done, s2) = execute_step b vm_id step s1 in
      let now2 = b.now s2.host in
      let (status, result) = recorded b (now2 - now) done in
      let run =
        ap (λ d. (PrepStepTable.update_status now2 step.id status (some result) d).1)
          (execute_step-db vm_id step s1
            ∙ ap (λ r. r.1)
                (update_status-found now step.id (text "running") none s.db p calm found))
        ∙ ap (λ r. r.1)
            (update_status-found now2 step.id status (some result) db1 q1 calm
              (lookup-insert_self step.id q1 s.db.prep_steps)) in
      subst (After step.id s.db.prep_steps) (sym run) (
        calm,
        (
          PrepStepTable.with_status now2 status (some result) q1,
          q1,
          recorded-ends now2 (now2 - now) done q1,
          refl,
        ),
      )

  -- After the step the database answers, the steps of the list have rows still, what had ended has, and
  -- the step itself has ended.
  run_step-AllPresent :
      (vm_id : Text) (step : PrepStep) (s : World W) (xs : List PrepStep)
      → s.db.faults ≡ []
      → Present step.id s.db.prep_steps
      → AllPresent xs s.db.prep_steps
      → ((run_step b vm_id step s).1.db.faults ≡ [])
        × AllPresent xs (run_step b vm_id step s).1.db.prep_steps
        × Ended step.id (run_step b vm_id step s).1.db.prep_steps
  run_step-AllPresent vm_id step s xs calm (p, found) all =
      let (calm1, (q, q1, ends, table)) = run_step-After vm_id step s p calm found in
      (
        calm1,
        subst (AllPresent xs) (sym table)
            (AllPresent-insert_twice step.id q q1 s.db.prep_steps xs all),
        subst (Ended step.id) (sym table)
            (q, lookup-insert_self step.id q (insert step.id q1 s.db.prep_steps), ends),
      )

  run_step-Ended :
      (vm_id : Text) (step : PrepStep) (s : World W) (i : Text)
      → s.db.faults ≡ []
      → Present step.id s.db.prep_steps
      → Ended i s.db.prep_steps
      → Ended i (run_step b vm_id step s).1.db.prep_steps
  run_step-Ended vm_id step s i calm (p, found) ended =
      let (calm1, (q, q1, ends, table)) = run_step-After vm_id step s p calm found in
      subst (Ended i) (sym table) (Ended-insert_twice step.id i q q1 s.db.prep_steps ends ended)

  for_each-Ended :
      (vm_id : Text) (xs : List PrepStep) (s : World W) (i : Text)
      → s.db.faults ≡ []
      → AllPresent xs s.db.prep_steps
      → Ended i s.db.prep_steps
      → Ended i (for_each (run_step b vm_id) xs s).1.db.prep_steps
  unfolding for_each
  for_each-Ended vm_id [] s i calm all ended = ended
  for_each-Ended vm_id (x ∷ xs) s i calm (there, all) ended =
      let (calm1, all1, own) = run_step-AllPresent vm_id x s xs calm there all in
      for_each-Ended vm_id xs (run_step b vm_id x s).1 i calm1 all1
        (run_step-Ended vm_id x s i calm there ended)

-- If the database answers and every step of the list has a row, then the run of the list leaves each of
-- them completed or failed: a step that fails does not keep the later ones from being run.
pub run_step-AllEnded :
    {W : Type 0} (b : Backend W) (vm_id : Text) (xs : List PrepStep) (s : World W)
    → s.db.faults ≡ []
    → AllPresent xs s.db.prep_steps
    → AllEnded xs (for_each (run_step b vm_id) xs s).1.db.prep_steps
unfolding for_each
run_step-AllEnded b vm_id [] s calm all = tt
run_step-AllEnded b vm_id (x ∷ xs) s calm (there, all) =
    let (calm1, all1, own) = run_step-AllPresent b vm_id x s xs calm there all in
    (
      for_each-Ended b vm_id xs (run_step b vm_id x s).1 x.id calm1 all1 own,
      run_step-AllEnded b vm_id xs (run_step b vm_id x s).1 calm1 all1,
    )
