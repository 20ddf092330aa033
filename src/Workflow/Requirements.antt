-- ===== src/Workflow/Requirements.antt =====
-- internal/workflow/requirements.go, and the requirements of types.go. `Machine` answers for the
-- process: its PATH, the commands it runs, the regular expression of a version and its environment.
pub mod Reports
pub mod Versions
use Prim.Native.Char.{code}
use Prim.Native.String as Text
use hyve.Prelude.{
  String, Bool, true, false, not, Option, none, some, List, [], ◌∷◌, ◌++◌, ◌==◌, if◌then◌else◌, ltb,
}
use hyve.Prelude.Text.{◌<>◌, strip_prefix, split_on}
use hyve.Prelude.Maps.{Map, get_or_empty}

pub record ToolRequirement : Type 0 where
  pub name : String
  pub version : String
  pub description : String

pub record SecretRequirement : Type 0 where
  pub name : String
  pub provider : String
  pub required : Bool
  pub description : String

pub record WorkflowRequirements : Type 0 where
  pub tools : List ToolRequirement
  pub secrets : List SecretRequirement

-- `combined_output` is `none` if the command fails; `find_version` is the first group of the
-- pattern's first match.
pub record Machine : Type 0 where
  pub look_path : String → Option String
  pub combined_output : String → String → Option String
  pub find_version : String → Option String
  pub getenv : String → String

-- One entry of the list of errors; `version_mismatch` has the version that was found.
pub data RequirementError : Type 0 where
  tool_not_found : ToolRequirement → RequirementError
  unknown_version : ToolRequirement → RequirementError
  version_mismatch : ToolRequirement → String → RequirementError
  secret_not_found : SecretRequirement → RequirementError

-- Go's `s < t`; UTF-8 keeps the order of the characters.
unfoldable pub string_lt : String → String → Bool
string_lt s Text.[] = false
string_lt Text.[] (Text.◌∷◌ d t) = true
string_lt (Text.◌∷◌ c s) (Text.◌∷◌ d t) =
    let rest = string_lt s t in
    if ltb (code c) (code d) then true else if ltb (code d) (code c) then false else rest

-- strings.TrimPrefix(version, "v")
unfoldable pub trim_v : String → String
unfolding strip_prefix
trim_v version = elim (strip_prefix "v" version) [ none ↦ version | some rest ↦ rest ]

-- The loop over the parts, and the comparison of the lengths after it.
unfoldable pub parts_satisfy : List String → List String → Bool
parts_satisfy actual [] = true
parts_satisfy [] (required ∷ requireds) = false
parts_satisfy (actual ∷ actuals) (required ∷ requireds) =
    let rest = parts_satisfy actuals requireds in
    if string_lt required actual then true else if string_lt actual required then false else rest

-- strings.Split(version, ".")
unfoldable pub dotted : String → List String
unfolding split_on
dotted version = let (part, parts) = split_on b'.' version in part ∷ parts

unfoldable pub version_satisfies : String → String → Bool
unfolding parts_satisfy trim_v dotted
version_satisfies actual required =
    parts_satisfy (dotted (trim_v actual)) (dotted (trim_v required))

unfoldable pub suggestion : String → List String
suggestion provider =
    if provider == "civo"
    then "civo apikey" ∷ []
    else if provider == "aws"
    then "aws configure" ∷ []
    else if provider == "gcp"
    then "gcloud auth application-default login" ∷ []
    else if provider == "azure"
    then "az login" ∷ []
    else []

-- strings.Join
unfoldable pub join : String → List String → String
join sep [] = ""
join sep (s ∷ []) = s
join sep (s ∷ t ∷ ss) = s <> (sep <> join sep (t ∷ ss))

unfoldable pub described : String → String → String
described msg description = if description == "" then msg else msg <> (" (" <> (description <> ")"))

-- The text of an error.
unfoldable pub message : RequirementError → String
unfolding described suggestion join
message (tool_not_found tool) =
    described ("Required tool '" <> (tool.name <> "' not found in PATH")) tool.description
message (unknown_version tool) =
    "failed to get version for '" <> (tool.name <> "': could not determine version")
message (version_mismatch tool actual) =
    "tool '"
    <> (tool.name <> ("' version mismatch: found " <> (actual <> (", requires " <> tool.version))))
message (secret_not_found secret) =
    described ("Required secret '" <> (secret.name <> "' not found")) secret.description
    <> ("\n    Set via: "
        <> join " OR "
            (suggestion secret.provider ++ (("export " <> (secret.name <> "=your-secret")) ∷ [])))

-- The error if there are entries.
unfoldable pub fail_if_any {ℓ} : {A : Type ℓ} → List A → Option (List A)
fail_if_any [] = none
fail_if_any (e ∷ es) = some (e ∷ es)

-- An error, if there is one, appended to those of the iterations after it.
unfoldable pub append_error :
    Option RequirementError → List RequirementError → List RequirementError
append_error none later = later
append_error (some e) later = e ∷ later

module _ (machine : Machine) where
  unfoldable pub extract_version : String → String
  extract_version output = elim (machine.find_version output) [ none ↦ "" | some v ↦ v ]

  unfoldable pub first_version : String → List String → Option String
  unfolding extract_version
  first_version path [] = none
  first_version path (flag ∷ flags) =
      let rest = first_version path flags in
      elim (machine.combined_output path flag) [
        | none ↦ rest
        | some output ↦ if extract_version output == "" then rest else some (extract_version output)
      ]

  unfoldable pub get_tool_version : String → Option String
  unfolding first_version
  get_tool_version path = first_version path ("--version" ∷ "-v" ∷ "version" ∷ [])

  -- The branch that checks the version of a tool that is there.
  unfoldable pub check_version : ToolRequirement → String → Option RequirementError
  unfolding get_tool_version version_satisfies
  check_version tool path = elim (get_tool_version path) [
    | none ↦ some (unknown_version tool)
    | some actual ↦
        if version_satisfies actual tool.version then none else some (version_mismatch tool actual)
  ]

  unfoldable pub validate_tool : ToolRequirement → Option RequirementError
  unfolding check_version
  validate_tool tool = elim (machine.look_path tool.name) [
    | none ↦ some (tool_not_found tool)
    | some path ↦ if tool.version == "" then none else check_version tool path
  ]

  unfoldable pub validate_secret : SecretRequirement → Map String → Option RequirementError
  unfolding get_or_empty
  validate_secret secret extra_env =
      if not (get_or_empty secret.name extra_env == "")
      then none
      else if not (machine.getenv secret.name == "")
      then none
      else if secret.required
      then some (secret_not_found secret)
      else none

  unfoldable pub tool_errors : List ToolRequirement → List RequirementError
  unfolding validate_tool append_error
  tool_errors [] = []
  tool_errors (tool ∷ tools) = append_error (validate_tool tool) (tool_errors tools)

  unfoldable pub secret_errors : Map String → List SecretRequirement → List RequirementError
  unfolding validate_secret append_error
  secret_errors extra_env [] = []
  secret_errors extra_env (secret ∷ secrets) =
      append_error (validate_secret secret extra_env) (secret_errors extra_env secrets)

  unfoldable pub validate_requirements :
      Option WorkflowRequirements → Map String → Bool → Option (List RequirementError)
  unfolding tool_errors secret_errors fail_if_any
  validate_requirements none extra_env validate_tools = none
  validate_requirements (some requirements) extra_env validate_tools = fail_if_any (
      (if validate_tools then tool_errors requirements.tools else [])
      ++ secret_errors extra_env requirements.secrets)
