-- ===== src/Scripts/Format.antt =====
-- scripts/script/format.go. The shell is a function from a directory and a command to its success; the
-- directory is empty where the command runs in the project's root.
use sshole.Base.{
  ◌≡◌, Bool, true, false, Option, none, some, List, [], ◌∷◌, Str, ◌==◌, nat_eq, str_eq,
  if◌then◌else◌, arith,
}
use sshole.Base.Text.{codes}

abbrev pub Shell : Type 0
Shell = Str → List Str → Bool

-- installToolIfNeeded up to `go install`: the tool is there and its version can be asked for.
unfoldable pub tool_available : Shell → Str → Bool
tool_available shell tool =
    if shell [] (codes "which" ∷ tool ∷ [])
    then (if tool == codes "goimports-reviser"
        then shell [] (tool ∷ codes "-version" ∷ [])
        else if tool == codes "golangci-lint"
        then shell [] (tool ∷ codes "--version" ∷ [])
        else false)
    else false

unfoldable pub install_tool_if_needed : Shell → Str → Str → Bool
install_tool_if_needed shell tool path =
    if tool_available shell tool
    then true
    else shell [] (codes "go" ∷ codes "install" ∷ codes "-v" ∷ path ∷ [])

-- What format does, in its order; it exits at the first failure.
pub data FormatAction : Type 0 where
  change_directory : FormatAction
  run_command : Str → List Str → FormatAction
  install_tool : Str → Str → FormatAction

unfoldable pub format_actions : List FormatAction
format_actions =
    change_directory
    ∷ run_command (codes ".") (codes "go" ∷ codes "mod" ∷ codes "tidy" ∷ [])
    ∷ run_command (codes "./scripts/script") (codes "go" ∷ codes "mod" ∷ codes "tidy" ∷ [])
    ∷ install_tool (codes "goimports-reviser")
        (codes "github.com/incu6us/goimports-reviser/v3@latest")
    ∷ run_command [] (
        codes "goimports-reviser"
        ∷ codes "-excludes"
        ∷ codes ".git/,vendor/"
        ∷ codes "-company-prefixes"
        ∷ codes "aliyun/serverless"
        ∷ codes "-rm-unused"
        ∷ codes "-set-alias"
        ∷ codes "-format"
        ∷ codes "./..."
        ∷ [])
    ∷ install_tool (codes "golangci-lint")
        (codes "github.com/golangci/golangci-lint/v2/cmd/golangci-lint@v2.1.6")
    ∷ run_command [] (codes "golangci-lint" ∷ codes "run" ∷ [])
    ∷ run_command []
        (codes "git" ∷ codes "diff-index" ∷ codes "--quiet" ∷ codes "HEAD" ∷ codes "--" ∷ [])
    ∷ []

abbrev pub succeeds : Bool → Shell → FormatAction → Bool
succeeds chdir shell change_directory = chdir
succeeds chdir shell (run_command dir command) = shell dir command
succeeds chdir shell (install_tool tool path) = install_tool_if_needed shell tool path

-- The first action that fails, which makes the process exit with 1.
unfoldable pub failed_action : Bool → Shell → List FormatAction → Option FormatAction
failed_action chdir shell [] = none
failed_action chdir shell (a ∷ as') =
    let later = failed_action chdir shell as' in if succeeds chdir shell a then later else some a

unfoldable pub format : Bool → Shell → Option FormatAction
unfolding format_actions
format chdir shell = failed_action chdir shell format_actions

-- Where format completes, nothing is uncommitted after the tools have run.
pub format_clean :
    (chdir : Bool) (shell : Shell)
    → format chdir shell ≡ none
    → shell [] (codes "git" ∷ codes "diff-index" ∷ codes "--quiet" ∷ codes "HEAD" ∷ codes "--" ∷ [])
      ≡ true
unfolding format failed_action
format_clean chdir shell e = ground arith
