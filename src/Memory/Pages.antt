-- ===== src/Memory/Pages.antt =====
-- What the calls of MemoryStore show of each other, and its pages
-- (services/core/pkg/storage/memory/memory.go).
use aetherium.Base.{
  ℕ, zero, suc, ◌≤◌, ◌<◌, ◌≡◌, refl, sym, ap, ◌∙◌, arith, Bool, true, false, ◌&&◌, ltb, Option,
  none, some, List, [], ◌∷◌, ◌++◌, if◌then◌else◌, if_ind, take, drop, take-drop, length-take_le,
  length, Text, text_eq, text_eq_iff, lookup, insert, delete, lookup-insert, lookup-delete,
  lookup-insert_self, Bool-cases, inl, inr,
}
use aetherium.Memory.{Task}
use aetherium.Memory.Store.{
  MemoryStore, StoreError, TaskFilters, admits, admits_option, if_free, create_task, get_task,
  delete_task, list_tasks, page, select, task_matches, values,
}

module _ {V : Type 0} where
  -- Each of the rows has the property.
  abbrev pub All : (V → Type 0) → List V → Type 0
  All P [] = Unit
  All P (x ∷ xs) = P x × All P xs

  All-take : (P : V → Type 0) (n : ℕ) (xs : List V) → All P xs → All P (take n xs)
  All-take P zero xs h = tt
  All-take P (suc n) [] h = tt
  All-take P (suc n) (x ∷ xs) h = (h.0, All-take P n xs h.1)

  All-drop : (P : V → Type 0) (n : ℕ) (xs : List V) → All P xs → All P (drop n xs)
  All-drop P zero xs h = h
  All-drop P (suc n) [] h = tt
  All-drop P (suc n) (x ∷ xs) h = All-drop P n xs h.1

  module _ (P : V → Type 0) (test : V → Bool) (sound : (x : V) → test x ≡ true → P x) where
    kept :
        (x : V) (ys : List V)
        → All P ys
        → (b : Bool) → test x ≡ b
        → All P (if b then x ∷ ys else ys)
    kept x ys h true e = (sound x e, h)
    kept x ys h false e = h

    select-All : (xs : List V) → All P (select test xs)
    unfolding select
    select-All [] = tt
    select-All (x ∷ xs) = kept x (select test xs) (select-All xs) (test x) refl

  page-All :
      (P : V → Type 0) (limit offset : ℕ) (xs : List V) → All P xs → All P (page limit offset xs)
  unfolding page
  page-All P limit offset xs h =
      let rest : List V = if ltb 0 offset && ltb offset (length xs) then drop offset xs else xs in
      let some_left =
        if_ind (All P) (ltb 0 offset && ltb offset (length xs)) (drop offset xs) xs
          (λ _. All-drop P offset xs h) (λ _. h) in
      if_ind (All P) (ltb 0 limit && ltb limit (length rest)) (take limit rest) rest
        (λ _. All-take P limit rest some_left) (λ _. some_left)

  page-length : (limit offset : ℕ) (xs : List V) → 0 < limit → length (page limit offset xs) ≤ limit
  unfolding page
  page-length limit offset xs h =
      let rest : List V = if ltb 0 offset && ltb offset (length xs) then drop offset xs else xs in
      if_ind (λ (l : List V). length l ≤ limit) (ltb 0 limit && ltb limit (length rest))
        (take limit rest) rest (λ _. length-take_le limit rest) (λ e. ground arith)

  page_beyond :
      (limit offset : ℕ) (xs : List V) → length xs ≤ offset → page limit offset xs ≡ page limit 0 xs
  unfolding page
  page_beyond limit offset xs h = ground arith

  take_size :
      (n : ℕ) (xs ys : List V) → length xs ≡ length ys → length (take n xs) ≡ length (take n ys)
  take_size zero xs ys h = refl
  take_size (suc n) [] [] h = refl
  take_size (suc n) [] (y ∷ ys) h = absurd (omega arith)
  take_size (suc n) (x ∷ xs) [] h = absurd (omega arith)
  take_size (suc n) (x ∷ xs) (y ∷ ys) h = ap suc (take_size n xs ys (omega arith))

  page_size :
      (limit : ℕ) (xs ys : List V)
      → length xs ≡ length ys
      → length (page limit 0 xs) ≡ length (page limit 0 ys)
  unfolding page
  page_size limit xs ys h = ground (arith, take_size limit xs ys h)

  page_parts : (n : ℕ) (xs : List V) → 0 < n → n < length xs → page n 0 xs ++ page 0 n xs ≡ xs
  unfolding page
  page_parts n xs h k = ground (arith, take-drop n xs)

abbrev pub matching : (List Task → List Task) → TaskFilters → MemoryStore → List Task
matching order f s = select (task_matches f) (order (values s.tasks))

abbrev pub at : ℕ → ℕ → TaskFilters → TaskFilters
at limit offset f = record f { limit = limit; offset = offset }

-- What the filters ask of a task: each one that is set is the value that the task has.
pub record Passes (f : TaskFilters) (t : Task) : Type 0 where
  pub in_project : (p : Text) → f.project_id ≡ some p → t.project_id ≡ p
  pub under_parent : (p : Text) → f.parent_task_id ≡ some p → t.parent_task_id ≡ some p
  pub has_status : (x : Text) → f.status ≡ some x → t.status ≡ x
  pub for_agent : (a : Text) → f.agent_type ≡ some a → t.agent_type ≡ a

admits_sound : (o : Option Text) (value x : Text) → admits o value ≡ true → o ≡ some x → value ≡ x
admits_sound none value x a e = cc
admits_sound (some y) value x a e = let same = (text_eq_iff value y).0 a in cc

admits_option_sound :
    (o value : Option Text) (x : Text) → admits_option o value ≡ true → o ≡ some x → value ≡ some x
admits_option_sound none value x a e = cc
admits_option_sound (some y) none x a e = cc
admits_option_sound (some y) (some v) x a e = let same = (text_eq_iff v y).0 a in cc

task_matches-Passes : (f : TaskFilters) (t : Task) → task_matches f t ≡ true → Passes f t
unfolding task_matches
task_matches-Passes f t m = record {
  in_project = λ p e. admits_sound f.project_id t.project_id p (ground arith) e;
  under_parent = λ p e. admits_option_sound f.parent_task_id t.parent_task_id p (ground arith) e;
  has_status = λ p e. admits_sound f.status t.status p (ground arith) e;
  for_agent = λ p e. admits_sound f.agent_type t.agent_type p (ground arith) e;
}

-- Every task that ListTasks lists for filters has the project, the parent task, the status and the agent
-- type that they name, as far as they are set, and there are no more than the limit, where one is set.
pub list_tasks_bounds :
    (order : List Task → List Task) (f : TaskFilters) (s : MemoryStore)
    → All (Passes f) (list_tasks order (some f) s)
      × (0 < f.limit → length (list_tasks order (some f) s) ≤ f.limit)
unfolding list_tasks
list_tasks_bounds order f s = (
  page-All (Passes f) f.limit f.offset (matching order f s)
      (select-All (Passes f) (task_matches f) (task_matches-Passes f) (order (values s.tasks))),
  page-length f.limit f.offset (matching order f s),
)

-- Where more than n tasks match and the map is visited in the same order both times, the first n, and
-- the tasks from offset n on, are all that match.
pub list_tasks_parts :
    (order : List Task → List Task) (f : TaskFilters) (s : MemoryStore) (n : ℕ)
    → 0 < n
    → n < length (list_tasks order (some (at 0 0 f)) s)
    → list_tasks order (some (at n 0 f)) s ++ list_tasks order (some (at 0 n f)) s
      ≡ list_tasks order (some (at 0 0 f)) s
unfolding list_tasks page task_matches
list_tasks_parts order f s n h k = page_parts n (matching order f s) h k

-- An offset at or beyond the number of tasks that match is ignored: in whatever orders the map is
-- visited by two calls, as long as both visit all the tasks that match, the call with that offset lists
-- as many tasks as the one that asks for the first page, instead of none.
pub list_tasks_beyond :
    (order order' : List Task → List Task) (f : TaskFilters) (s : MemoryStore) (offset : ℕ)
    → length (list_tasks order' (some (at 0 0 f)) s) ≡ length (list_tasks order (some (at 0 0 f)) s)
    → length (list_tasks order (some (at 0 0 f)) s) ≤ offset
    → length (list_tasks order' (some (at f.limit offset f)) s)
      ≡ length (list_tasks order (some (at f.limit 0 f)) s)
unfolding list_tasks page task_matches
list_tasks_beyond order order' f s offset same h =
    ap length (page_beyond f.limit offset (matching order' f s) (omega (arith, same)))
    ∙ page_size f.limit (matching order' f s) (matching order f s) same

module _ (created updated : ℕ) (t : Task) (s : MemoryStore) where
  abbrev stamped : Task
  stamped = record t { created_at = created; updated_at = updated }

  abbrev with_task : MemoryStore
  with_task = record s { tasks = insert t.id stamped s.tasks }

  create_task_free : lookup t.id s.tasks ≡ none → (create_task created updated t s).1 ≡ with_task
  unfolding create_task
  create_task_free free =
      ap
        (λ o.
          (if_free {A = Option StoreError × MemoryStore} o (none, with_task)
            (some StoreError.already_exists, s)).1)
        free

  create_task_taken : (create_task created updated t with_task).1 ≡ with_task
  unfolding create_task
  create_task_taken =
      ap
        (λ o.
          (if_free {A = Option StoreError × MemoryStore} o
            (none, record s { tasks = insert t.id stamped (insert t.id stamped s.tasks) })
            (some StoreError.already_exists, with_task)).1)
        (lookup-insert_self t.id stamped s.tasks)

  delete_task_there :
      (delete_task t.id with_task).1.tasks ≡ delete t.id (insert t.id stamped s.tasks)
  unfolding delete_task
  delete_task_there =
      ap
        (λ o.
          (if_free {A = Option StoreError × MemoryStore} o (some StoreError.not_found, with_task)
            (none, record s { tasks = delete t.id (insert t.id stamped s.tasks) })).1.tasks)
        (lookup-insert_self t.id stamped s.tasks)

  unchanged :
      (u : Text)
      → lookup t.id s.tasks ≡ none
      → lookup u (delete t.id (insert t.id stamped s.tasks)) ≡ lookup u s.tasks
  unchanged u free = elim (Bool-cases (text_eq t.id u)) [
    | inl e ↦
        rw (lookup-delete t.id u (insert t.id stamped s.tasks), e)
          (sym free ∙ ap (λ k. lookup k s.tasks) ((text_eq_iff t.id u).0 e))
    | inr e ↦
        rw
          (
            lookup-delete t.id u (insert t.id stamped s.tasks),
            lookup-insert t.id u stamped s.tasks,
            e,
          )
          refl
  ]

-- A task whose id is free is there after CreateTask with the times of the call, and when it is deleted
-- every task of before is there again, and no other; a second CreateTask under the id fails and changes
-- nothing.
pub delete_task-create_task :
    (created updated : ℕ) (t : Task) (s : MemoryStore)
    → get_task t.id s ≡ none
    → (get_task t.id (create_task created updated t s).1
        ≡ some (record t { created_at = created; updated_at = updated }))
      × ((u : Text)
          → get_task u (delete_task t.id (create_task created updated t s).1).1 ≡ get_task u s)
      × ((create_task created updated t (create_task created updated t s).1).1
          ≡ (create_task created updated t s).1)
unfolding get_task
delete_task-create_task created updated t s free =
    let made = create_task_free created updated t s free in
    (
      ap (get_task t.id) made ∙ lookup-insert_self t.id (stamped created updated t s) s.tasks,
      λ u.
          ap (λ x. get_task u (delete_task t.id x).1) made
          ∙ ap (lookup u) (delete_task_there created updated t s)
          ∙ unchanged created updated t s u free,
      ap (λ x. (create_task created updated t x).1) made
          ∙ create_task_taken created updated t s
          ∙ sym made,
    )
