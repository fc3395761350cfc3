-- ===== src/Scripts/E2e/Run.antt =====
-- E2e of scripts/script/pkg/e2e/e2e.go: the mapping and the key, then the cases in order. A panic in one
-- case ends the process. formatCallerPath there is the code of callerMarshalFunc.
use sshole.Base.{
  ℕ, ◌≡◌, refl, Bool, true, false, ◌&&◌, Option, none, some, List, [], ◌∷◌, ◌++◌, Str, ◌==◌, nat_eq,
  str_eq, if◌then◌else◌, All, ℕ_discrete, str_discrete,
}
use sshole.Base.Text.{codes, has_prefix}
use sshole.Base.Dict.{Dict}
use sshole.Common.Caller.{caller_marshal_func}
use sshole.Scripts.E2e.{
  e2e_mapping, Keypair, keypair_panicked, ensure_keypair, CaseParams, case_params, Command, CaseRun,
  CaseEnd, case_completed, run_basic_test, run_auth_test, Cases, run_basic, run_auth, run_both,
  unknown_case, select_cases, auth_containers, basic_containers,
}

unfoldable pub format_caller_path : Str → ℕ → Str
format_caller_path file line = caller_marshal_func file line

-- The paths that init derives from the project's root, which does not end in a slash.
pub record Paths : Type 0 where
  pub mapping_path : Str
  pub key_path : Str
  pub public_key_path : Str

unfoldable pub e2e_paths : Str → Paths
e2e_paths root = record {
  mapping_path = root ++ codes "/data/e2e/port_mapping_e2e.json";
  key_path = root ++ codes "/data/e2e/sshole_e2e_id_ed25519";
  public_key_path = root ++ codes "/data/e2e/sshole_e2e_id_ed25519.pub";
}

-- ensureE2EMapping: what is written to the file, where no call fails. The text is encoding/json's.
unfoldable pub ensure_mapping : (Dict Str ℕ → Option Str) → Bool → Bool → Option Str
ensure_mapping to_text dir_made written = elim (to_text e2e_mapping) [
  | none ↦ none
  | some text ↦ if dir_made && written then some text else none
]

-- What the system answers: for the directory, the mapping, the key, and each case.
pub record E2eRun : Type 0 where
  pub to_text : Dict Str ℕ → Option Str
  pub dir_made : Bool
  pub mapping_written : Bool
  pub key_exists : Bool
  pub key_generated : Bool
  pub fallback_written : Bool
  pub basic : CaseRun
  pub auth : CaseRun

pub data E2eEnd : Type 0 where
  setup_panicked unknown_panicked : E2eEnd
  -- The cases that ran, in order.
  cases_ran : List CaseEnd → E2eEnd

-- Both cases: the second runs where the first has completed.
abbrev then_auth : E2eRun → CaseParams → CaseEnd → List CaseEnd
then_auth run p (case_completed ran) = case_completed ran ∷ run_auth_test run.auth p ∷ []
then_auth run p stopped = stopped ∷ []

abbrev run_cases : E2eRun → CaseParams → Cases → E2eEnd
run_cases run p run_both = cases_ran (then_auth run p (run_basic_test run.basic p))
run_cases run p run_basic = cases_ran (run_basic_test run.basic p ∷ [])
run_cases run p run_auth = cases_ran (run_auth_test run.auth p ∷ [])
run_cases run p unknown_case = unknown_panicked

abbrev key_there : Keypair → Bool
key_there keypair_panicked = false
key_there _ = true

-- The two steps before the cases succeed.
abbrev is_set_up : E2eRun → Bool
is_set_up run = elim (ensure_mapping run.to_text run.dir_made run.mapping_written) [
  | none ↦ false
  | some text ↦
      key_there (ensure_keypair run.dir_made run.key_exists run.key_generated run.fallback_written)
]

unfoldable pub e2e : Str → E2eRun → Str → E2eEnd
e2e root run name =
    if is_set_up run
    then (let paths = e2e_paths root in
        run_cases run (case_params paths.mapping_path paths.public_key_path) (select_cases name))
    else setup_panicked

-- The values of the option `-e` of a command that starts a container; `-v` takes a value as well.
unfoldable pub environment_of : Command → List Str
environment_of [] = []
environment_of (a ∷ []) = []
environment_of (a ∷ b ∷ rest) =
    let skipped = environment_of rest in
    let others = environment_of (b ∷ rest) in
    if a == codes "-e" then b ∷ skipped else if a == codes "-v" then skipped else others

abbrev pub is_sshole : Str → Bool
is_sshole variable = has_prefix variable (codes "SSHOLE_")

-- No container of the end-to-end tests gets a variable whose name begins with "SSHOLE_", as the names of
-- all the variables that the three programs read do.
pub containers_without_settings :
    (p : CaseParams)
    → All (λ c. All (λ v. is_sshole v ≡ false) (environment_of c)) (basic_containers p)
      × All (λ c. All (λ v. is_sshole v ≡ false) (environment_of c)) (auth_containers p)
unfolding basic_containers auth_containers environment_of ℕ_discrete str_discrete
containers_without_settings p = (
  ((refl, tt), ((refl, tt), ((refl, (refl, (refl, tt))), tt))),
  ((refl, (refl, tt)), ((refl, (refl, tt)), ((refl, (refl, (refl, tt))), tt))),
)
