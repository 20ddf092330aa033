-- ===== src/Controller/Conditions.antt =====
-- The conditions of a ClusterDefinition: clusterConditions, phaseReason, setCondition and
-- setConditions of internal/controller/reconciler.go, less the write of the status.
pub mod View
pub mod Bounds
use Prim.Native.Char.{Char, code}
use Prim.Native.String
use hyve.Prelude.{
  ℕ, String, Bool, true, false, Option, none, some, List, [], ◌∷◌, ◌==◌, if◌then◌else◌, nat_eq, ◌≡◌,
  refl,
}
use hyve.Prelude.Text.{◌<>◌, split_on, shift_letter, to_lower}
use hyve.V1alpha1.{Condition, ClusterDefinitionStatus}

abbrev pub condition_type_ready : String
condition_type_ready = "Ready"

abbrev pub condition_type_error : String
condition_type_error = "Error"

-- A part with its first letter in upper case.
capitalise : String → String
unfolding shift_letter
capitalise String.[] = ""
capitalise (String.◌∷◌ ch s) =
    String.◌∷◌ (shift_letter "abcdefghijklmnopqrstuvwxyz" "ABCDEFGHIJKLMNOPQRSTUVWXYZ" ch) s

-- strings.ReplaceAll(phase, "_", " ")
spaced : String → String
spaced String.[] = ""
spaced (String.◌∷◌ ch s) =
    let further = spaced s in
    if nat_eq (code ch) b'_' then " " <> further else String.◌∷◌ ch further

join_parts : List String → String
unfolding capitalise
join_parts [] = ""
join_parts (part ∷ parts) = capitalise part <> join_parts parts

-- A driver's status as the reason of a condition.
unfoldable pub phase_reason : String → String
unfolding to_lower split_on join_parts
phase_reason phase = let (part, parts) = split_on b'_' (to_lower phase) in join_parts (part ∷ parts)

-- A condition as clusterConditions builds it; setConditions sets the time.
abbrev pub condition : String → Bool → String → String → Condition
condition kind is_true reason message = record {
  kind = kind;
  is_true = is_true;
  reason = reason;
  message = message;
  last_transition_time = 0;
}

-- The Ready/Error pair of a pass: the phase, and the text of its error.
unfoldable pub cluster_conditions : String → Option String → List Condition
unfolding phase_reason to_lower spaced
cluster_conditions phase (some message) =
    condition condition_type_ready false "ReconcileFailed" message
    ∷ condition condition_type_error true "ReconcileFailed" message
    ∷ []
cluster_conditions phase none =
    let no_error = condition condition_type_error false "Reconciled" "no error" in
    if phase == "ACTIVE"
    then condition condition_type_ready true "Active" "cluster is active" ∷ no_error ∷ []
    else if phase == ""
    then condition condition_type_ready false "Unknown" "cluster state not reported yet"
      ∷ no_error
      ∷ []
    else condition condition_type_ready false (phase_reason phase)
        ("cluster is " <> to_lower (spaced phase))
      ∷ no_error
      ∷ []

abbrev pub same_status : Bool → Bool → Bool
same_status true b = b
same_status false true = false
same_status false false = true

-- The condition with the time of the entry that it replaces, if the status stays the same.
unfoldable pub stamp : ℕ → Option Condition → Condition → Condition
stamp now none cond = record cond { last_transition_time = now }
stamp now (some existing) cond = record cond {
  last_transition_time =
      if same_status existing.is_true cond.is_true then existing.last_transition_time else now;
}

-- The loop body of setConditions: the first entry of the type is replaced.
unfoldable pub put_condition : ℕ → Condition → List Condition → List Condition
unfolding stamp
put_condition now cond [] = stamp now none cond ∷ []
put_condition now cond (existing ∷ conditions) =
    let further = put_condition now cond conditions in
    if existing.kind == cond.kind
    then stamp now (some existing) cond ∷ conditions
    else existing ∷ further

unfoldable pub put_conditions : ℕ → List Condition → List Condition → List Condition
put_conditions now [] conditions = conditions
put_conditions now (cond ∷ conds) conditions =
    put_conditions now conds (put_condition now cond conditions)

-- The status that setConditions writes.
unfoldable pub with_conditions :
    ℕ → ℕ → List Condition → ClusterDefinitionStatus → ClusterDefinitionStatus
with_conditions now generation conds status = record status {
  conditions = put_conditions now conds status.conditions;
  observed_generation = generation;
}

-- What recordDeleteOutput hands to setCondition.
unfoldable pub delete_failed : String → Condition
delete_failed message = condition condition_type_error true "DeleteFailed" message
