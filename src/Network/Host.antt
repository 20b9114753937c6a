-- ===== src/Network/Host.antt =====
-- What services/core/pkg/network asks of the machine that it runs on: `os/exec`, `os`, `net` and
-- `text/template`. None of it is part of the repository, so it is a parameter over an abstract state
-- `W` of the machine. A command is its argument list, program first.
use aetherium.Base.{ℕ, Bool, Option, List, Text, Map}

-- The outcome of `os.Stat`.
pub data Stat : Type 0 where
  found missing stat_failed : Stat

-- The outcome of reading a file line by line.
pub data FileRead : Type 0 where
  no_file open_failed : FileRead
  lines : List Text → FileRead

-- VMWhitelistData of services/core/pkg/network/proxy.go.
pub record VmWhitelistData : Type 0 where
  pub name : Text
  pub ip : Text
  pub domains : List Text

-- The values that the template templates/squid.conf.tmpl is filled with.
pub record SquidData : Type 0 where
  pub bridge_ip : Text
  pub port : ℕ
  pub https_port : ℕ
  pub subnet_cidr : Text
  pub global_domains : List Text
  pub vm_whitelists : Map VmWhitelistData
  pub cache_dir : Text
  pub cache_size_mb : ℕ
  pub access_log : Text
  pub cache_log : Text

pub record Host (W : Type 0) : Type 0 where
  -- `exec.Command(...).Run()`: true if the command was run and exited with 0.
  pub run : List Text → W → Bool × W
  -- `exec.Command(...).Output()`, none on an error.
  pub output : List Text → W → Option Text × W
  -- `net.InterfaceByName`, none if there is none, and otherwise whether it is up.
  pub interface_up : Text → W → Option Bool
  -- `cmd.Start()`: the process id, none if it does not start.
  pub spawn : List Text → W → Option ℕ × W
  -- Signal 0 reaches the process.
  pub alive : ℕ → W → Bool
  -- `Process.Kill()`.
  pub kill : ℕ → W → W
  -- The process exits within five seconds.
  pub exits : ℕ → W → Bool × W
  -- `exec.LookPath` finds the program.
  pub on_path : Text → W → Bool
  pub stat : Text → W → Stat
  pub read_lines : Text → W → FileRead
  -- `template.ParseFiles`, `os.Create` and `tmpl.Execute` into the file created.
  pub load_template : Text → W → Bool
  pub create_file : Text → W → Bool × W
  pub execute_template : Text → SquidData → W → Bool × W
