-- ===== src/Worker/Shell.antt =====
-- The texts that are given to a shell: escapeShellArg and the commands around a prompt
-- (services/core/pkg/worker/workspace_handlers.go).
pub mod Quoting
use aetherium.Base.{
  ℕ, Bool, true, false, ◌||◌, ◌==◌, List, [], ◌∷◌, ◌++◌, if◌then◌else◌, Text, text, text_eq, Map,
}

unfoldable pub escape_shell_arg : Text → Text
escape_shell_arg [] = []
escape_shell_arg (c ∷ s) =
    let rest = escape_shell_arg s in if c == b'\'' then text "'\\''" ++ rest else c ∷ rest

abbrev pub quoted : Text → Text
quoted s = b'\'' ∷ (escape_shell_arg s ++ (b'\'' ∷ []))

-- The command that runs the assistant on a prompt in a directory.
unfoldable pub inner_cmd : Text → Text → Text → Text
inner_cmd assistant working_dir prompt =
    let claude =
      text "cd "
      ++ (working_dir ++ (text " && claude --dangerously-skip-permissions -p " ++ quoted prompt)) in
    if text_eq assistant (text "claude-code")
    then claude
    else if text_eq assistant (text "ampcode") || text_eq assistant (text "amp")
    then text "cd " ++ (working_dir ++ (text " && amp " ++ quoted prompt))
    else claude

-- The script around it, which runs it as the user aether.
unfoldable pub ai_cmd : Text → Text → Text
ai_cmd working_dir inner =
    text
      "\n# Create aether user if not exists\nid aether >/dev/null 2>&1 || useradd -m aether\n\n# Create working directory if it doesn't exist\nmkdir -p "
    ++ (working_dir
        ++ (text "\n\n# Give aether ownership of working directory\nchown -R aether:aether "
            ++ (working_dir
                ++ (text
                      " 2>/dev/null || true\n\n# Copy any secrets from root to aether's environment\nif [ -f /run/secrets/env ]; then\n    cp /run/secrets/env /home/aether/.secrets_env\n    chown aether:aether /home/aether/.secrets_env\nfi\n\n# Copy root's bashrc env vars to aether (for ANTHROPIC_API_KEY etc)\ngrep \"^export \" /root/.bashrc >> /home/aether/.bashrc 2>/dev/null || true\nchown aether:aether /home/aether/.bashrc\n\n# Run as aether user with environment sourced\nsu - aether -c '\n    # Source secrets if available\n    [ -f ~/.secrets_env ] && source ~/.secrets_env\n    # Source bashrc for env vars\n    source ~/.bashrc 2>/dev/null || true\n    # Run the actual command\n    "
                    ++ (escape_shell_arg inner ++ text "\n'\n")))))

-- `echo 'export K="V"' >> ~/.bashrc`.
unfoldable pub export_cmd : Text → Text → Text
export_cmd key value =
    text "echo 'export " ++ (key ++ (text "=\"" ++ (value ++ text "\"' >> ~/.bashrc")))

-- The lines of setEnvironmentVars, with the values escaped.
unfoldable pub export_cmds : Map Text → Text
unfolding export_cmd escape_shell_arg
export_cmds [] = []
export_cmds ((key, value) ∷ vars) =
    (export_cmd key (escape_shell_arg value) ++ text "\n") ++ export_cmds vars
