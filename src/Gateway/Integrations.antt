-- ===== src/Gateway/Integrations.antt =====
-- Registry of services/gateway/pkg/integrations/registry.go. What an integration does is a parameter;
-- the map is visited in the order of its entries.
use aetherium.Base.{
  ◌≡◌, arith, Bool, true, false, Option, none, some, List, [], ◌∷◌, ◌++◌, Text, text_eq, Map,
  lookup, insert, delete, lookup-insert,
}

-- Integration of services/gateway/pkg/integrations/interface.go, as far as the registry calls it. An
-- error is its message.
pub record Integration (W : Type 0) : Type 0 where
  pub name : Text
  pub close : W → Option Text × W
  pub health : W → Option Text × W

abbrev pub Registry : Type 0 → Type 0
Registry W = Map (Integration W)

abbrev pub add_error : Text → Option Text → List Text → List Text
add_error name none errors = errors
add_error name (some e) errors = errors ++ name ∷ []

abbrev pub is_there : {V : Type 0} → Option V → Bool
is_there none = false
is_there (some v) = true

abbrev either : Bool → Bool → Bool
either true b = true
either false b = b

insert-there :
    {V : Type 0} (k j : Text) (v : V) (m : Map V)
    → is_there (lookup k (insert j v m)) ≡ either (text_eq j k) (is_there (lookup k m))
insert-there k j v m = ground (arith, lookup-insert j k v m)

module _ {W : Type 0} where
  abbrev pub new_registry : Registry W
  new_registry = []

  unfoldable pub register_if :
      Option (Integration W) → Integration W → Registry W → Bool × Registry W
  register_if (some old) i r = (false, r)
  register_if none i r = (true, insert i.name i r)

  -- Register, false where the name is taken.
  unfoldable pub register : Integration W → Registry W → Bool × Registry W
  unfolding register_if
  register i r = register_if (lookup i.name r) i r

  unfoldable pub get : Text → Registry W → Option (Integration W)
  get name r = lookup name r

  unfoldable pub list_names : Registry W → List Text
  list_names [] = []
  list_names ((name, i) ∷ r) = name ∷ list_names r

  unfoldable pub unregister_if : Option (Integration W) → Text → Registry W → Bool × Registry W
  unregister_if none name r = (false, r)
  unregister_if (some old) name r = (true, delete name r)

  unfoldable pub unregister : Text → Registry W → Bool × Registry W
  unfolding unregister_if
  unregister name r = unregister_if (lookup name r) name r

  -- The loop of Close, with the names in errs.
  unfoldable pub close_each : List Text → Registry W → W → List Text × W
  close_each errors [] w = (errors, w)
  close_each errors ((name, i) ∷ r) w =
      let (problem, w1) = i.close w in close_each (add_error name problem errors) r w1

  unfoldable pub close_all : Registry W → W → List Text × W
  unfolding close_each
  close_all r w = close_each [] r w

  -- The loop of HealthCheck, with results.
  unfoldable pub check_each : Map (Option Text) → Registry W → W → Map (Option Text) × W
  check_each results [] w = (results, w)
  check_each results ((name, i) ∷ r) w =
      let (problem, w1) = i.health w in check_each (insert name problem results) r w1

  unfoldable pub health_check : Registry W → W → Map (Option Text) × W
  unfolding check_each
  health_check r w = check_each [] r w

  cons-there :
      (k name : Text) (i : Integration W) (r : Registry W)
      → is_there (lookup k ((name, i) ∷ r)) ≡ either (text_eq name k) (is_there (lookup k r))
  unfolding lookup
  cons-there k name i r = ground arith

  check_each-there :
      (k : Text) (r : Registry W) (results : Map (Option Text)) (w : W)
      → is_there (lookup k (check_each results r w).0)
        ≡ either (is_there (lookup k results)) (is_there (lookup k r))
  unfolding check_each lookup
  check_each-there k [] results w = ground arith
  check_each-there k ((name, i) ∷ r) results w =
      let (problem, w1) = i.health w in
      let rest = check_each-there k r (insert name problem results) w1 in
      ground (arith, rest, insert-there k name problem results, cons-there k name i r)

  -- HealthCheck has a result for exactly the integrations that are registered.
  pub health_check-there :
      (k : Text) (r : Registry W) (w : W)
      → is_there (lookup k (health_check r w).0) ≡ is_there (get k r)
  unfolding health_check get lookup
  health_check-there k r w = check_each-there k r [] w
