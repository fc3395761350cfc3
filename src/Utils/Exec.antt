-- ===== src/Utils/Exec.antt =====
-- pkg/utils/exec.go. What the system answers is an argument: the working directory, the environment,
-- whether the process starts, the lines that it writes and how it ends. A panic is `panicked`.
use sshole.Base.{
  ℕ, ◌≡◌, refl, ◌⊎◌, inl, inr, Bool, true, ◌&&◌, ◌||◌, Option, none, some, List, [], ◌∷◌, ◌++◌, Str,
  ◌==◌, nat_eq, str_eq, if◌then◌else◌, not, is_none, arith,
}
use sshole.Base.Text.{codes}
use sshole.Base.Dict.{Dict}
use sshole.Hub.State.{Outcome, returned, panicked}

-- `strings.Split(s, " ")`: the first part and the others.
unfoldable pub split_spaces : Str → Str × List Str
split_spaces [] = ([], [])
split_spaces (c ∷ s) =
    let (part, parts) = split_spaces s in
    if c == b' ' then ([], part ∷ parts) else (c ∷ part, parts)

-- The program and its arguments.
abbrev pub Command : Type 0
Command = Str × List Str

abbrev of_parts : Str → Str × List Str → Command
of_parts line (part, []) = (line, [])
of_parts line (part, p ∷ ps) = (part, p ∷ ps)

unfoldable pub command : List Str → Outcome Command
unfolding split_spaces
command [] = panicked
command (line ∷ []) = returned (of_parts line (split_spaces line))
command (name ∷ arg ∷ args) = returned (name, arg ∷ args)

pub record ExecuteParams : Type 0 where
  pub cmd : Option Command
  -- `Dir` and `Env` of the command.
  pub cmd_dir : Str
  pub cmd_env : Option (List Str)
  pub dir : Str
  pub allow_failed : Bool
  pub envs : Dict Str Str

-- How `cmd.Wait` ends: without an error, with an exit code, or with another error.
pub data WaitResult : Type 0 where
  wait_ok wait_failed : WaitResult
  exit_error : ℕ → WaitResult

-- An exit code; `none` is -1, which is also that of a process that a signal ended.
abbrev pub exit_code : WaitResult → Option ℕ
exit_code wait_ok = some 0
exit_code wait_failed = none
exit_code (exit_error n) = some n

pub record ExecuteResult : Type 0 where
  pub output : Str
  pub code : Option ℕ
  -- Where the process ran, and its environment.
  pub ran_in : Str
  pub ran_with : List Str

unfoldable pub directory : ExecuteParams → Option Str → Option Str
directory params cwd =
    let d = if params.dir == [] then params.cmd_dir else params.dir in
    if d == [] then cwd else some d

pairs : Dict Str Str → List Str
pairs [] = []
pairs ((k, v) ∷ rest) = (k ++ (codes "=" ++ v)) ∷ pairs rest

unfoldable pub environment : ExecuteParams → List Str → List Str
unfolding pairs
environment params environ =
    (elim params.cmd_env [ none ↦ environ | some e ↦ e ])
    ++ (pairs params.envs ++ codes "TZ=Asia/Shanghai" ∷ [])

-- Each line with its newline.
unfoldable pub collected : List Str → Str
collected [] = []
collected (line ∷ rest) = line ++ (codes "\n" ++ collected rest)

abbrev pub is_failure : Option ℕ → Bool
is_failure none = true
is_failure (some n) = not (n == 0)

-- What the system answers.
pub record Run : Type 0 where
  pub cwd : Option Str
  pub environ : List Str
  pub starts : Bool
  pub lines : List Str
  pub end : WaitResult

-- From the start of the process on, in the directory `d`.
abbrev run_in : Str → ExecuteParams → Run → Outcome ExecuteResult
run_in d params run =
    if not run.starts || (is_failure (exit_code run.end) && not params.allow_failed)
    then panicked
    else returned (record {
      output = collected run.lines;
      code = exit_code run.end;
      ran_in = d;
      ran_with = environment params run.environ;
    })

unfoldable pub execute : ExecuteParams → Run → Outcome ExecuteResult
execute params run =
    if is_none params.cmd
    then panicked
    else elim (directory params run.cwd) [ none ↦ panicked | some d ↦ run_in d params run ]

-- The parts, each but the first after a space.
abbrev pub joined : Command → Str
joined (part, []) = part
joined (part, p ∷ ps) = part ++ (b' ' ∷ joined (p, ps))

joined-split_spaces : (s : Str) → joined (split_spaces s) ≡ s
unfolding split_spaces
joined-split_spaces [] = refl
joined-split_spaces (c ∷ s) = elim (pair_cases (split_spaces s)) [
  | inl (part, e) ↦ ground (arith, joined-split_spaces s)
  | inr (part, p, ps, e) ↦ ground (arith, joined-split_spaces s)
]
  where
    pair_cases :
        (x : Str × List Str)
        → ((part : Str) × (x ≡ (part, [])))
          ⊎ ((part p : Str) × (ps : List Str) × (x ≡ (part, p ∷ ps)))
    pair_cases (part, []) = inl (part, refl)
    pair_cases (part, p ∷ ps) = inr (part, p, ps, refl)

-- Where Execute returns, the process ended with exit code 0 or a failure was allowed, and the output
-- is what was collected.
pub execute_lem :
    (params : ExecuteParams) (run : Run) (result : ExecuteResult)
    → execute params run ≡ returned result
    → ((result.code ≡ some 0) ⊎ (params.allow_failed ≡ true))
      × (result.output ≡ collected run.lines)
unfolding execute
execute_lem params run result e = ground arith
