-- ===== src/Workflow/Requirements/Reports.antt =====
-- What ValidateRequirements of internal/workflow/requirements.go reports.
use mathlib.Core.Option.{Option, map as option_map}
use hyve.Prelude.{
  String, Bool, true, false, not, none, some, List, [], ◌∷◌, ◌++◌, ◌&&◌, ◌||◌, ◌==◌, ◌≡◌, refl, ap,
  ◌∙◌, arith, map, keep, Bool-cases, inl, inr, if◌then◌else◌,
}
use hyve.Prelude.Maps.{Map, get_or_empty}
use hyve.Workflow.Requirements.Versions.{is_at_least, parts_satisfy-is_at_least}
use hyve.Workflow.Requirements.{
  Machine, ToolRequirement, SecretRequirement, WorkflowRequirements, RequirementError,
  tool_not_found, unknown_version, version_mismatch, secret_not_found, version_satisfies,
  get_tool_version, first_version, extract_version, trim_v, dotted, check_version, validate_tool,
  validate_secret, append_error, tool_errors, secret_errors, validate_requirements, fail_if_any,
}

-- The tool or secret that an error is about.
abbrev pub subject : RequirementError → String
subject (tool_not_found tool) = tool.name
subject (unknown_version tool) = tool.name
subject (version_mismatch tool actual) = tool.name
subject (secret_not_found secret) = secret.name

-- A text that is there and not empty.
abbrev pub non_empty : Option String → Option String
non_empty none = none
non_empty (some text) = if text == "" then none else some text

abbrev pub or_else : Option String → Option String → Option String
or_else none second = second
or_else (some text) second = some text

module _ (machine : Machine) where
  -- The version in the output of one call, if it succeeds.
  abbrev pub told : Option String → Option String
  told none = none
  told (some output) = non_empty (machine.find_version output)

  -- The version of the program: the first that its three calls tell.
  pub told_version : String → Option String
  told_version path = or_else (told (machine.combined_output path "--version")) (
      or_else (told (machine.combined_output path "-v"))
        (told (machine.combined_output path "version")))

  abbrev pub is_new_enough : ToolRequirement → Option String → Bool
  is_new_enough tool none = false
  is_new_enough tool (some actual) =
      is_at_least (dotted (trim_v actual)) (dotted (trim_v tool.version))

  -- The tool is on the PATH and, if a version is asked for, tells one that is at least as high, its
  -- parts compared as texts.
  abbrev pub is_available : ToolRequirement → Option String → Bool
  is_available tool none = false
  is_available tool (some path) = tool.version == "" || is_new_enough tool (told_version path)

  -- The secret is optional, or one of the two environments has a value for it.
  abbrev pub is_provided : Map String → SecretRequirement → Bool
  is_provided extra_env secret =
      not secret.required
      || (not (get_or_empty secret.name extra_env == "") || not (machine.getenv secret.name == ""))

  -- The names of what is asked for and not there, in order, tools first.
  abbrev pub missing : WorkflowRequirements → Map String → Bool → List String
  missing requirements extra_env validate_tools =
      map (λ tool. tool.name)
        (keep (λ tool. validate_tools && not (is_available tool (machine.look_path tool.name)))
          requirements.tools)
      ++ map (λ secret. secret.name)
          (keep (λ secret. not (is_provided extra_env secret)) requirements.secrets)

  -- What one check adds to the report.
  abbrev reported : Bool → String → List String → List String
  reported true name later = later
  reported false name later = name ∷ later

  or_else-none : (v : Option String) → or_else v none ≡ v
  or_else-none none = refl
  or_else-none (some v) = refl

  check_told :
      (tool : ToolRequirement) (later : List RequirementError) (version : Option String)
      → map subject (
          append_error
            (elim version [
              | none ↦ some (unknown_version tool)
              | some actual ↦
                  if version_satisfies actual tool.version
                  then none
                  else some (version_mismatch tool actual)
            ])
            later)
        ≡ reported (is_new_enough tool version) tool.name (map subject later)
  unfolding append_error version_satisfies
  check_told tool later none = refl
  check_told tool later (some actual) =
      ground
        (arith, parts_satisfy-is_at_least (dotted (trim_v actual)) (dotted (trim_v tool.version)))

  extracted :
      (found rest : Option String)
      → (let version = elim found as (λ x. String) [ none ↦ "" | some v ↦ v ] in
          if version == "" then rest else some version)
        ≡ or_else (non_empty found) rest
  extracted none rest = refl
  extracted (some version) rest = ground arith

  first_told :
      (answer rest : Option String)
      → (elim answer as (λ x. Option String) [
        | none ↦ rest
        | some output ↦
            if extract_version machine output == ""
            then rest
            else some (extract_version machine output)
      ])
        ≡ or_else (told answer) rest
  unfolding extract_version
  first_told none rest = refl
  first_told (some output) rest = extracted (machine.find_version output) rest

  first_version-told :
      (path flag : String) (flags : List String)
      → first_version machine path (flag ∷ flags)
        ≡ or_else (told (machine.combined_output path flag)) (first_version machine path flags)
  unfolding first_version extract_version
  first_version-told path flag flags =
      first_told (machine.combined_output path flag) (first_version machine path flags)

  last_told :
      (path : String)
      → first_version machine path ("version" ∷ []) ≡ told (machine.combined_output path "version")
  unfolding first_version
  last_told path = first_version-told path "version" [] ∙ or_else-none _

  get_tool_version-told : (path : String) → get_tool_version machine path ≡ told_version path
  unfolding get_tool_version told_version
  get_tool_version-told path =
      rw (first_version-told path "--version" _, first_version-told path "-v" _)
        (ap
          (λ v.
            or_else (told (machine.combined_output path "--version"))
              (or_else (told (machine.combined_output path "-v")) v))
          (last_told path))

  check_version-subject :
      (tool : ToolRequirement) (path : String) (later : List RequirementError)
      → map subject (append_error (check_version machine tool path) later)
        ≡ reported (is_new_enough tool (told_version path)) tool.name (map subject later)
  unfolding append_error check_version
  check_version-subject tool path later =
      check_told tool later (get_tool_version machine path)
      ∙ ap (λ v. reported (is_new_enough tool v) tool.name (map subject later))
          (get_tool_version-told path)

  located-subject :
      (tool : ToolRequirement) (later : List RequirementError) (found : Option String)
      → map subject (
          append_error
            (elim found as (λ x. Option RequirementError) [
              | none ↦ some (tool_not_found tool)
              | some path ↦ if tool.version == "" then none else check_version machine tool path
            ])
            later)
        ≡ reported (is_available tool found) tool.name (map subject later)
  unfolding append_error
  located-subject tool later none = refl
  located-subject tool later (some path) = elim (Bool-cases (tool.version == "")) [
    | inl e ↦ rw e refl
    | inr e ↦ rw e (check_version-subject tool path later)
  ]

  validate_tool-subject :
      (tool : ToolRequirement) (later : List RequirementError)
      → map subject (append_error (validate_tool machine tool) later)
        ≡ reported (is_available tool (machine.look_path tool.name)) tool.name (map subject later)
  unfolding validate_tool
  validate_tool-subject tool later = located-subject tool later (machine.look_path tool.name)

  tool_errors-subject :
      (tools : List ToolRequirement)
      → map subject (tool_errors machine tools)
        ≡ map
            (λ tool. tool.name)
            (keep (λ tool. not (is_available tool (machine.look_path tool.name))) tools)
  unfolding tool_errors
  tool_errors-subject [] = refl
  tool_errors-subject (tool ∷ tools) =
      validate_tool-subject tool (tool_errors machine tools)
      ∙ elim (Bool-cases (is_available tool (machine.look_path tool.name))) [
        | inl h ↦ rw h (tool_errors-subject tools)
        | inr h ↦ rw h (ap (λ rest. tool.name ∷ rest) (tool_errors-subject tools))
      ]

  secret_errors-subject :
      (extra_env : Map String) (secrets : List SecretRequirement)
      → map subject (secret_errors machine extra_env secrets)
        ≡ map (λ secret. secret.name) (keep (λ secret. not (is_provided extra_env secret)) secrets)
  unfolding secret_errors append_error validate_secret
  secret_errors-subject extra_env [] = refl
  secret_errors-subject extra_env (secret ∷ secrets) =
      ground (arith, secret_errors-subject extra_env secrets)

  map-append :
      (es fs : List RequirementError) → map subject (es ++ fs) ≡ map subject es ++ map subject fs
  map-append [] fs = refl
  map-append (e ∷ es) fs = ap (λ rest. subject e ∷ rest) (map-append es fs)

  map-fail_if_any :
      (es : List RequirementError)
      → option_map (map subject) (fail_if_any es) ≡ fail_if_any (map subject es)
  unfolding fail_if_any
  map-fail_if_any [] = refl
  map-fail_if_any (e ∷ es) = refl

  selected_tools :
      (tools : List ToolRequirement) (validate_tools : Bool)
      → map subject (if validate_tools then tool_errors machine tools else [])
        ≡ map
            (λ tool. tool.name)
            (keep
              (λ tool. validate_tools && not (is_available tool (machine.look_path tool.name)))
              tools)
  selected_tools tools true = tool_errors-subject tools
  selected_tools [] false = refl
  selected_tools (tool ∷ tools) false = selected_tools tools false

  -- The errors of ValidateRequirements are about exactly the tools, if tools are checked, and the
  -- secrets that are missing, tools first and in order; there is no error if nothing is missing. A
  -- tool is missing if it is not on the PATH or if a version is asked for and none of its three
  -- calls tells one or the first told is lower, the parts being compared as texts.
  pub validate_requirements-missing :
      (requirements : WorkflowRequirements) (extra_env : Map String) (validate_tools : Bool)
      → option_map
          (map subject)
          (validate_requirements machine (some requirements) extra_env validate_tools)
        ≡ fail_if_any (missing requirements extra_env validate_tools)
  unfolding validate_requirements
  validate_requirements-missing requirements extra_env validate_tools =
      map-fail_if_any _
      ∙ ap fail_if_any (
          map-append _ (secret_errors machine extra_env requirements.secrets)
          ∙ rw
              (
                selected_tools requirements.tools validate_tools,
                secret_errors-subject extra_env requirements.secrets,
              )
              refl)
