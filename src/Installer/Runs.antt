-- ===== src/Installer/Runs.antt =====
-- What InstallTools runs and reports (services/core/pkg/tools/installer.go), against a list of scripts
-- that are run one after the other.
use aetherium.Base.{
  ◌≡◌, refl, ap, ◌∙◌, arith, Bool, true, false, ◌&&◌, ◌||◌, ◌==◌, List, [], ◌∷◌, ◌++◌, Result, ok,
  err, Text, text, Map, Action, ◌>>=◌,
}
use aetherium.Worker.{Command, ExecResult}
use aetherium.Installer.{
  bash, if_failed, install_each, install_tools, run_script, script_outcome, version_for,
}
use aetherium.Installer.Scripts.{
  get_bun_install_script, get_claude_code_install_script, get_ampcode_install_script,
  get_rust_install_script, get_install_script, named, normal_name, script_of,
}

abbrev pub add_script : Result Text Text → List Text → List Text
add_script (err e) scripts = scripts
add_script (ok s) scripts = s ∷ scripts

-- The scripts of the tools that are known, in their order.
unfoldable pub known_scripts : Map Text → List Text → List Text
known_scripts versions [] = []
known_scripts versions (t ∷ ts) =
    add_script (get_install_script t (version_for t versions)) (known_scripts versions ts)

abbrev pub is_ok : Result Text Text → Bool
is_ok (err e) = false
is_ok (ok s) = true

unfoldable pub all_known : Map Text → List Text → Bool
all_known versions [] = true
all_known versions (t ∷ ts) =
    is_ok (get_install_script t (version_for t versions)) && all_known versions ts

abbrev pub succeeded : Result Text ExecResult → Bool
succeeded (err e) = false
succeeded (ok r) = r.exit_code == 0

abbrev pub all_succeeded : List (Result Text ExecResult) → Bool
all_succeeded [] = true
all_succeeded (r ∷ rs) = succeeded r && all_succeeded rs

abbrev pub is_empty : List Text → Bool
is_empty [] = true
is_empty (t ∷ ts) = false

is_empty-snoc : (ts : List Text) (t : Text) → is_empty (ts ++ t ∷ []) ≡ false
is_empty-snoc [] t = refl
is_empty-snoc (x ∷ ts) t = refl

module _ {W : Type 0} (execute_command : Text → Command → W → Result Text ExecResult × W) where
  -- Each script is run, whatever came of those before.
  unfoldable pub run_all : Text → List Text → W → List (Result Text ExecResult) × W
  run_all vm_id [] w = ([], w)
  run_all vm_id (s ∷ scripts) w =
      let (result, w1) = execute_command vm_id (bash s) w in
      let (results, w2) = run_all vm_id scripts w1 in (result ∷ results, w2)

module _ {W : Type 0} (execute_command : Text → Command → W → Result Text ExecResult × W)
    (vm_id : Text) (versions : Map Text) where
  -- One round of the loop, with what getInstallScript answers.
  abbrev round : List Text → Text → List Text → Result Text Text → Action W (List Text)
  round failed t ts r = run_script execute_command vm_id r >>= λ p.
      install_each execute_command vm_id versions (if_failed p (failed ++ t ∷ []) failed) ts

  abbrev outcomes : List Text → W → List (Result Text ExecResult) × W
  outcomes scripts w = run_all execute_command vm_id scripts w

  round-runs :
      (failed : List Text) (t : Text) (ts scripts : List Text) (r : Result Text Text) (w : W)
      → ((failed : List Text) (w : W)
          → (install_each execute_command vm_id versions failed ts w).1 ≡ (outcomes scripts w).1)
      → (round failed t ts r w).1 ≡ (outcomes (add_script r scripts) w).1
  unfolding run_script run_all
  round-runs failed t ts scripts (err e) w rest = rest (failed ++ t ∷ []) w
  round-runs failed t ts scripts (ok s) w rest = rest _ (execute_command vm_id (bash s) w).1

  install_each-runs :
      (ts failed : List Text) (w : W)
      → (install_each execute_command vm_id versions failed ts w).1
        ≡ (outcomes (known_scripts versions ts) w).1
  unfolding install_each known_scripts run_all
  install_each-runs [] failed w = refl
  install_each-runs (t ∷ ts) failed w =
      round-runs failed t ts (known_scripts versions ts)
        (get_install_script t (version_for t versions)) w (install_each-runs ts)

  still_empty :
      (failed : List Text) (t : Text) (r : Result Text ExecResult)
      → is_empty (if_failed (script_outcome r) (failed ++ t ∷ []) failed)
        ≡ (is_empty failed && succeeded r)
  unfolding script_outcome
  still_empty failed t (err e) = ground (arith, is_empty-snoc failed t)
  still_empty failed t (ok r) = ground (arith, is_empty-snoc failed t)

  regroup : (a s k rest : Bool) → ((a && s) && (k && rest)) ≡ (a && (k && (s && rest)))
  regroup a s k rest = ground arith

  round-reports :
      (failed : List Text) (t : Text) (ts scripts : List Text) (known : Bool) (r : Result Text Text)
      (w : W)
      → ((failed : List Text) (w : W)
          → is_empty (install_each execute_command vm_id versions failed ts w).0
            ≡ (is_empty failed && (known && all_succeeded (outcomes scripts w).0)))
      → is_empty (round failed t ts r w).0 ≡ (
          is_empty failed
          && ((is_ok r && known) && all_succeeded (outcomes (add_script r scripts) w).0))
  unfolding run_script run_all
  round-reports failed t ts scripts known (err e) w rest =
      ground (arith, rest (failed ++ t ∷ []) w, is_empty-snoc failed t)
  round-reports failed t ts scripts known (ok s) w rest =
      let (result, w1) = execute_command vm_id (bash s) w in
      rest _ w1
      ∙ ap (λ e. e && (known && all_succeeded (outcomes scripts w1).0))
          (still_empty failed t result)
      ∙ regroup (is_empty failed) (succeeded result) known (all_succeeded (outcomes scripts w1).0)

  install_each-reports :
      (ts failed : List Text) (w : W)
      → is_empty (install_each execute_command vm_id versions failed ts w).0 ≡ (
          is_empty failed
          && (all_known versions ts && all_succeeded (outcomes (known_scripts versions ts) w).0))
  unfolding install_each known_scripts all_known run_all
  install_each-reports [] failed w = ground arith
  install_each-reports (t ∷ ts) failed w =
      round-reports failed t ts (known_scripts versions ts) (all_known versions ts)
        (get_install_script t (version_for t versions)) w (install_each-reports ts)

  -- InstallTools runs the scripts of all the tools that it knows, one after the other, whatever comes of
  -- those before; and it reports no error exactly when it knows all the tools and each script exits
  -- with 0.
  pub install_tools-run_all :
      (tools : List Text) (w : W)
      → ((install_tools execute_command vm_id tools versions w).1
          ≡ (run_all execute_command vm_id (known_scripts versions tools) w).1)
        × (is_empty (install_tools execute_command vm_id tools versions w).0 ≡ (
            all_known versions tools
            && all_succeeded (run_all execute_command vm_id (known_scripts versions tools) w).0))
  unfolding install_tools
  install_tools-run_all tools w = (install_each-runs tools [] w, install_each-reports tools [] w)

-- The tools that have a version of their own.
abbrev pub is_versioned : Text → Bool
is_versioned name =
    named name (text "nodejs") (text "node")
    || named name (text "go") (text "golang")
    || named name (text "python") (text "python3")

bun_same : (v o : Text) → get_bun_install_script v ≡ get_bun_install_script o
unfolding get_bun_install_script
bun_same v o = refl

claude_code_same :
    (v o : Text) → get_claude_code_install_script v ≡ get_claude_code_install_script o
unfolding get_claude_code_install_script
claude_code_same v o = refl

ampcode_same : (v o : Text) → get_ampcode_install_script v ≡ get_ampcode_install_script o
unfolding get_ampcode_install_script
ampcode_same v o = refl

rust_same : (v o : Text) → get_rust_install_script v ≡ get_rust_install_script o
unfolding get_rust_install_script
rust_same v o = refl

script_of_same : (name v o : Text) → is_versioned name ≡ false → script_of name v ≡ script_of name o
unfolding script_of
script_of_same name v o h =
    ground (arith, bun_same v o, claude_code_same v o, ampcode_same v o, rust_same v o)

-- For each tool but Node.js, Go and Python, the script is the same for all versions: the version that
-- is asked for is ignored, and the latest is installed.
pub get_install_script-is_versioned :
    (tool version other : Text)
    → is_versioned (normal_name tool) ≡ false
    → get_install_script tool version ≡ get_install_script tool other
unfolding get_install_script
get_install_script-is_versioned tool version other h =
    script_of_same (normal_name tool) version other h
