-- ===== src/Storage/Answers.antt =====
-- The statements of a database that answers, and what they leave as it was.
use aetherium.Base.{
  ◌≡◌, sym, ap, subst, Bool, true, false, not, Option, none, some, List, [], ◌∷◌, if◌then◌else◌,
  Result, ok, err, Preserves,
}
use aetherium.Storage.Db.{Db, DbError, next_answer, execute, query}

abbrev pub result_of : Result DbError Db → Db → Option DbError × Db
result_of r db = elim r [ err e ↦ (some e, db) | ok d ↦ (none, d) ]

abbrev answer : List Bool → Db → Bool × Db
answer faults db = elim faults [
  | [] ↦ (true, db)
  | fault ∷ rest ↦ (not fault, record db { faults = rest })
]

pub next_answer-calm : (db : Db) → db.faults ≡ [] → next_answer db ≡ (true, db)
unfolding next_answer
next_answer-calm db p = ap (λ fs. answer fs db) p

pub execute-calm :
    (st : Db → Result DbError Db) (db : Db) → db.faults ≡ [] → execute st db ≡ result_of (st db) db
unfolding execute
execute-calm st db p =
    ap
      (λ n.
        let (answered, db1) = n in
        if not answered
        then (some DbError.no_answer, db1)
        else elim (st db1) [ err e ↦ (some e, db1) | ok db2 ↦ (none, db2) ])
      (next_answer-calm db p)

pub query-calm :
    {A : Type 0} (st : Db → Result DbError A) (db : Db) → db.faults ≡ [] → query st db ≡ (st db, db)
unfolding query
query-calm st db p =
    ap
      (λ n.
        let (answered, db1) = n in
        if not answered then (err DbError.no_answer, db1) else (st db1, db1))
      (next_answer-calm db p)

-- The predicate, of a database that answers.
abbrev pub Calm : (Db → Type 0) → Db → Type 0
Calm Q db = (db.faults ≡ []) × Q db

abbrev pub Stays : (Db → Type 0) → Result DbError Db → Type 0
Stays Q r = elim r [ err e ↦ Unit {0} | ok d ↦ Calm Q d ]

pub Stays-if :
    (Q : Db → Type 0) (b : Bool) (x y : Result DbError Db)
    → Stays Q x
    → Stays Q y
    → Stays Q (if b then x else y)
Stays-if Q true x y s t = s
Stays-if Q false x y s t = t

abbrev pub and_then : {A : Type 0} → Result DbError A → (A → Result DbError Db) → Result DbError Db
and_then r f = elim r [ err e ↦ err e | ok a ↦ f a ]

pub Stays-and_then :
    {A : Type 0} (Q : Db → Type 0) (r : Result DbError A) (f : A → Result DbError Db)
    → ((a : A) → Stays Q (f a))
    → Stays Q (and_then r f)
Stays-and_then Q (err e) f k = tt
Stays-and_then Q (ok a) f k = k a

pub Stays-chain :
    (Q : Db → Type 0) (r : Result DbError Db) (f : Db → Result DbError Db)
    → Stays Q r
    → ((db : Db) → Calm Q db → Stays Q (f db))
    → Stays Q (and_then r f)
Stays-chain Q (err e) f s k = tt
Stays-chain Q (ok a) f s k = k a s

pub result_of-Calm :
    (Q : Db → Type 0) (r : Result DbError Db) (db : Db)
    → Calm Q db
    → Stays Q r
    → Calm Q (result_of r db).1
result_of-Calm Q (err e) db c s = c
result_of-Calm Q (ok d) db c s = s

module _ (Q : Db → Type 0) where
  pub execute-Preserves :
      (st : Db → Result DbError Db)
      → ((db : Db) → Calm Q db → Stays Q (st db))
      → Preserves (Calm Q) (execute st)
  execute-Preserves st k db c =
      subst (λ r. Calm Q r.1) (sym (execute-calm st db c.0))
        (result_of-Calm Q (st db) db c (k db c))

  pub query-Preserves : {A : Type 0} (st : Db → Result DbError A) → Preserves (Calm Q) (query st)
  query-Preserves st db c = subst (λ r. Calm Q r.1) (sym (query-calm st db c.0)) c
