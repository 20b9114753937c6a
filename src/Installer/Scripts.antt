-- ===== src/Installer/Scripts.antt =====
-- The scripts and commands of services/core/pkg/tools/installer.go, by the name of a tool.
use aetherium.Base.{
  ℕ, ◌+◌, Bool, ◌&&◌, ◌||◌, ◌==◌, leb, [], ◌∷◌, ◌++◌, map, reverse, if◌then◌else◌, Result, ok, err,
  Text, text, text_eq,
}

-- strings.TrimSpace and strings.ToLower of ASCII text.
abbrev pub is_space : ℕ → Bool
is_space c = (leb 9 c && leb c 13) || c == 32

unfoldable pub trim_left : Text → Text
trim_left [] = []
trim_left (c ∷ s) = let rest = trim_left s in if is_space c then rest else c ∷ s

unfoldable pub trim_space : Text → Text
unfolding trim_left
trim_space s = reverse (trim_left (reverse (trim_left s)))

abbrev pub to_lower : ℕ → ℕ
to_lower c = if leb b'A' c && leb c b'Z' then c + 32 else c

-- The name that both tables are looked up by.
unfoldable pub normal_name : Text → Text
unfolding trim_space
normal_name tool = map to_lower (trim_space tool)

unfoldable pub version_or : Text → Text → Text
version_or default version =
    if text_eq version [] || text_eq version (text "latest") then default else version

unfoldable pub get_node_js_install_script : Text → Text
get_node_js_install_script version =
    let v = version_or (text "20") version in
    text
      "\nset -e\nexport DEBIAN_FRONTEND=noninteractive\n\n# Install Node.js via NodeSource\ncurl -fsSL https://deb.nodesource.com/setup_"
    ++ (v
        ++ (text
            ".x | bash -\napt-get install -y nodejs\n\n# Verify installation\nnode --version\nnpm --version\n"))

unfoldable pub get_bun_install_script : Text → Text
get_bun_install_script version =
    text
      "\nset -e\n\n# Ensure HOME is set (required for bun installer)\nexport HOME=${HOME:-/root}\n\n# Install unzip if not present\napt-get update && apt-get install -y unzip curl\n\n# Install Bun\ncurl -fsSL https://bun.sh/install | bash\n\n# Add to PATH\nexport BUN_INSTALL=\"$HOME/.bun\"\nexport PATH=\"$BUN_INSTALL/bin:$PATH\"\n\n# Make it permanent\necho 'export BUN_INSTALL=\"$HOME/.bun\"' >> ~/.bashrc\necho 'export PATH=\"$BUN_INSTALL/bin:$PATH\"' >> ~/.bashrc\n\n# Verify installation\n~/.bun/bin/bun --version\n"

unfoldable pub get_claude_code_install_script : Text → Text
get_claude_code_install_script version =
    text
      "\nset -e\n\n# Ensure npm is available (Claude Code is installed via npm)\nif ! command -v npm &> /dev/null; then\n    echo \"Error: npm is required to install claude-code\"\n    exit 1\nfi\n\n# Install Claude Code CLI globally (official package from Anthropic)\nnpm install -g @anthropic-ai/claude-code\n\n# Verify installation\nclaude --version\n\necho \"Claude Code installed successfully\"\n"

unfoldable pub get_ampcode_install_script : Text → Text
get_ampcode_install_script version =
    text
      "\nset -e\n\n# Ensure npm is available (Ampcode is installed via npm)\nif ! command -v npm &> /dev/null; then\n    echo \"Error: npm is required to install ampcode\"\n    exit 1\nfi\n\n# Install Ampcode CLI globally\nnpm install -g @anthropic-ai/amp\n\n# Verify installation\namp --version\n\necho \"Ampcode installed successfully\"\n"

unfoldable pub get_go_install_script : Text → Text
get_go_install_script version =
    let v = version_or (text "1.23.0") version in
    text "\nset -e\n\n# Download and install Go\ncd /tmp\nwget https://go.dev/dl/go"
    ++ (v
        ++ (text ".linux-amd64.tar.gz\nrm -rf /usr/local/go\ntar -C /usr/local -xzf go"
            ++ (v
                ++ (text ".linux-amd64.tar.gz\nrm go"
                    ++ (v
                        ++ (text
                            ".linux-amd64.tar.gz\n\n# Add to PATH\nexport PATH=$PATH:/usr/local/go/bin\necho 'export PATH=$PATH:/usr/local/go/bin' >> ~/.bashrc\n\n# Verify installation\n/usr/local/go/bin/go version\n"))))))

unfoldable pub get_python_install_script : Text → Text
get_python_install_script version =
    let v = version_or (text "3.11") version in
    text
      "\nset -e\nexport DEBIAN_FRONTEND=noninteractive\n\n# Install Python\napt-get update\napt-get install -y python"
    ++ (v
        ++ (text " python"
            ++ (v
                ++ (text "-pip python"
                    ++ (v
                        ++ (text "-venv\n\n# Create symbolic links\nln -sf /usr/bin/python"
                            ++ (v
                                ++ (text " /usr/local/bin/python\nln -sf /usr/bin/python"
                                    ++ (v
                                        ++ (text " /usr/local/bin/python3\nln -sf /usr/bin/pip"
                                            ++ (v
                                                ++ (text
                                                    " /usr/local/bin/pip\n\n# Verify installation\npython3 --version\npip3 --version\n"))))))))))))

unfoldable pub get_rust_install_script : Text → Text
get_rust_install_script version =
    text
      "\nset -e\n\n# Install Rust via rustup\ncurl --proto '=https' --tlsv1.2 -sSf https://sh.rustup.rs | sh -s -- -y\n\n# Source cargo environment\nsource \"$HOME/.cargo/env\"\n\n# Add to PATH permanently\necho 'source \"$HOME/.cargo/env\"' >> ~/.bashrc\n\n# Verify installation\n~/.cargo/bin/cargo --version\n~/.cargo/bin/rustc --version\n"

unfoldable pub get_git_install_script : Text
get_git_install_script =
    text
      "\nset -e\nexport DEBIAN_FRONTEND=noninteractive\n\n# Install git\napt-get update\napt-get install -y git\n\n# Verify installation\ngit --version\n"

unfoldable pub get_docker_install_script : Text
get_docker_install_script =
    text
      "\nset -e\nexport DEBIAN_FRONTEND=noninteractive\n\n# Install Docker\napt-get update\napt-get install -y ca-certificates curl gnupg\ninstall -m 0755 -d /etc/apt/keyrings\ncurl -fsSL https://download.docker.com/linux/ubuntu/gpg | gpg --dearmor -o /etc/apt/keyrings/docker.gpg\nchmod a+r /etc/apt/keyrings/docker.gpg\n\necho \\\n  \"deb [arch=$(dpkg --print-architecture) signed-by=/etc/apt/keyrings/docker.gpg] https://download.docker.com/linux/ubuntu \\\n  $(. /etc/os-release && echo \"$VERSION_CODENAME\") stable\" | \\\n  tee /etc/apt/sources.list.d/docker.list > /dev/null\n\napt-get update\napt-get install -y docker-ce docker-ce-cli containerd.io docker-buildx-plugin docker-compose-plugin\n\n# Verify installation\ndocker --version\n"

-- The names of one tool.
abbrev pub named : Text → Text → Text → Bool
named tool name alias = text_eq tool name || text_eq tool alias

-- The switch of getInstallScript, on a normal name.
unfoldable pub script_of : Text → Text → Result Text Text
script_of tool version =
    if named tool (text "nodejs") (text "node")
    then ok (get_node_js_install_script version)
    else if text_eq tool (text "bun")
    then ok (get_bun_install_script version)
    else if named tool (text "claude-code") (text "claudecode")
    then ok (get_claude_code_install_script version)
    else if named tool (text "ampcode") (text "amp")
    then ok (get_ampcode_install_script version)
    else if named tool (text "go") (text "golang")
    then ok (get_go_install_script version)
    else if named tool (text "python") (text "python3")
    then ok (get_python_install_script version)
    else if named tool (text "rust") (text "cargo")
    then ok (get_rust_install_script version)
    else if text_eq tool (text "git")
    then ok get_git_install_script
    else if text_eq tool (text "docker")
    then ok get_docker_install_script
    else err (text "unknown tool: " ++ tool)

unfoldable pub get_install_script : Text → Text → Result Text Text
unfolding normal_name script_of
get_install_script tool version = script_of (normal_name tool) version

-- The switch of getVerifyCommand, on a normal name.
unfoldable pub verify_of : Text → Text
verify_of tool =
    if named tool (text "nodejs") (text "node")
    then text "which node && node --version"
    else if text_eq tool (text "bun")
    then text "which bun && bun --version"
    else if named tool (text "claude-code") (text "claudecode")
    then text "which claude && claude --version"
    else if named tool (text "ampcode") (text "amp")
    then text "which amp && amp --version"
    else if named tool (text "go") (text "golang")
    then text "which go && go version"
    else if named tool (text "python") (text "python3")
    then text "which python3 && python3 --version"
    else if named tool (text "rust") (text "cargo")
    then text "which cargo && cargo --version"
    else if text_eq tool (text "git")
    then text "which git && git --version"
    else if text_eq tool (text "docker")
    then text "which docker && docker --version"
    else text "which " ++ tool

unfoldable pub get_verify_command : Text → Text
unfolding normal_name verify_of
get_verify_command tool = verify_of (normal_name tool)
