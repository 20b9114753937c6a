-- ===== src/Installer/Examples.antt =====
-- Runs of the installer on a machine that counts the scripts and fails on the first.
use aetherium.Base.{
  ℕ, ◌+◌, ◌≡◌, refl, false, ◌&&◌, ◌==◌, List, [], ◌∷◌, if◌then◌else◌, Result, ok, Text, text,
  text_eq, lookup,
}
use aetherium.Worker.{Command, ExecResult}
use aetherium.Installer.{install_tools}
use aetherium.Installer.Runs.{
  all_known, all_succeeded, get_install_script-is_versioned, install_tools-run_all, is_empty,
  is_versioned, known_scripts, run_all,
}
use aetherium.Installer.Scripts.{get_install_script, normal_name}

abbrev machine : Text → Command → ℕ → Result Text ExecResult × ℕ
machine vm_id cmd n =
    (ok (record { exit_code = if n == 0 then 1 else 0; stdout = []; stderr = [] }), n + 1)

abbrev tools : List Text
tools = text " Git" ∷ text "cobol" ∷ text "bun" ∷ []

-- Two scripts are run; the first tool failed, and the second is unknown.
tools-installed : install_tools machine (text "v") tools [] 0 ≡ (text " Git" ∷ text "cobol" ∷ [], 2)
unfolding install_tools lookup get_install_script normal_name text_eq
tools-installed = refl

install_tools-run_all_example :
    ((install_tools machine (text "v") tools [] 0).1
      ≡ (run_all machine (text "v") (known_scripts [] tools) 0).1)
    × (is_empty (install_tools machine (text "v") tools [] 0).0 ≡ (
        all_known [] tools
        && all_succeeded (run_all machine (text "v") (known_scripts [] tools) 0).0))
install_tools-run_all_example = install_tools-run_all machine (text "v") [] tools 0

bun-unversioned : is_versioned (normal_name (text "Bun ")) ≡ false
unfolding normal_name text_eq
bun-unversioned = refl

get_install_script-is_versioned_example :
    get_install_script (text "Bun ") (text "1.0.0")
    ≡ get_install_script (text "Bun ") (text "latest")
get_install_script-is_versioned_example =
    get_install_script-is_versioned (text "Bun ") (text "1.0.0") (text "latest") bun-unversioned
