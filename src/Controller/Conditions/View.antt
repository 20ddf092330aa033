-- ===== src/Controller/Conditions/View.antt =====
-- The conditions of internal/controller/reconciler.go as a map from a type to its condition.
use mathlib.Core.Path.{fun_ext}
use hyve.Prelude.{
  ℕ, String, Bool, false, Option, none, some, List, [], ◌∷◌, ◌==◌, if◌then◌else◌, ◌≡◌, refl, arith,
  ap, ◌∙◌, not, ◌&&◌, ◌||◌, is_some, ne_of_differ, Bool-cases, inl, inr, ◌≢◌, str_eq_self, eq_iff,
}
use hyve.V1alpha1.{Condition}
use hyve.Controller.Conditions.{
  stamp, put_condition, put_conditions, cluster_conditions, condition_type_ready,
  condition_type_error,
}

-- The condition of a type: the first, as the code and its readers find it.
unfoldable pub find_condition : String → List Condition → Option Condition
find_condition kind [] = none
find_condition kind (c ∷ conditions) =
    if c.kind == kind then some c else find_condition kind conditions

-- What a client sees of the list.
abbrev pub View : Type 0
View = String → Option Condition

-- The two conditions are both true or both false.
abbrev agree : Condition → Condition → Bool
agree c d = (c.is_true && d.is_true) || (not c.is_true && not d.is_true)

-- Since when a type has the status of the condition: since the time of the condition seen before if
-- that one has the same status, and else since now.
abbrev pub since : ℕ → Option Condition → Condition → ℕ
since now none cond = now
since now (some before) cond = if agree before cond then before.last_transition_time else now

-- A view changed at the type of the condition.
abbrev pub set_view : ℕ → Condition → View → View
set_view now cond view kind =
    if cond.kind == kind
    then some (record cond { last_transition_time = since now (view cond.kind) cond })
    else view kind

abbrev pub set_views : ℕ → List Condition → View → View
set_views now [] view = view
set_views now (cond ∷ conds) view = set_views now conds (set_view now cond view)

pub find_condition-put_condition :
    (now : ℕ) (cond : Condition) (kind : String) (conditions : List Condition)
    → find_condition kind (put_condition now cond conditions)
      ≡ set_view now cond (λ k. find_condition k conditions) kind
unfolding find_condition put_condition stamp
find_condition-put_condition now cond kind [] = ground arith
find_condition-put_condition now cond kind (c ∷ conditions) = ground (
  arith,
  find_condition-put_condition now cond kind conditions,
  eq_iff c.kind cond.kind,
  eq_iff c.kind kind,
  eq_iff cond.kind kind,
)

-- setConditions implements an update of the view at each type, in turn.
pub find_condition-put_conditions :
    (now : ℕ) (conds conditions : List Condition)
    → (λ kind. find_condition kind (put_conditions now conds conditions))
      ≡ set_views now conds (λ kind. find_condition kind conditions)
unfolding put_conditions
find_condition-put_conditions now [] conditions = refl
find_condition-put_conditions now (cond ∷ conds) conditions =
    find_condition-put_conditions now conds (put_condition now cond conditions)
    ∙ ap (set_views now conds)
        (fun_ext (λ kind. find_condition-put_condition now cond kind conditions))

abbrev is_true : Option Condition → Bool
is_true none = false
is_true (some c) = c.is_true

unfoldable pub is_condition_true : String → List Condition → Bool
unfolding find_condition
is_condition_true kind conditions = is_true (find_condition kind conditions)

-- A pair of different types, put one after the other.
is_condition_true-pair :
    (now : ℕ) (first second : Condition) (conditions : List Condition)
    → first.kind ≢ second.kind
    → (is_condition_true first.kind (put_conditions now (first ∷ second ∷ []) conditions)
        ≡ first.is_true)
      × (is_condition_true second.kind (put_conditions now (first ∷ second ∷ []) conditions)
          ≡ second.is_true)
unfolding is_condition_true put_conditions stamp
is_condition_true-pair now first second conditions h =
    rw
      (
        find_condition-put_condition now second first.kind (put_condition now first conditions),
        find_condition-put_condition now second second.kind (put_condition now first conditions),
        find_condition-put_condition now first first.kind conditions,
      )
      (ground (
        arith,
        h,
        eq_iff first.kind second.kind,
        eq_iff second.kind first.kind,
        str_eq_self first.kind,
        str_eq_self second.kind,
      ))

-- Whatever the list held, a pass leaves a true Ready for an ACTIVE cluster without an error, and a
-- true Error for an error.
pub is_condition_true-cluster_conditions :
    (now : ℕ) (phase : String) (failure : Option String) (conditions : List Condition)
    → (is_condition_true condition_type_ready
          (put_conditions now (cluster_conditions phase failure) conditions)
        ≡ (not (is_some failure) && phase == "ACTIVE"))
      × (is_condition_true condition_type_error
            (put_conditions now (cluster_conditions phase failure) conditions)
          ≡ is_some failure)
unfolding is_condition_true cluster_conditions stamp
is_condition_true-cluster_conditions now phase (some message) conditions =
    is_condition_true-pair now _ _ conditions (ne_of_differ refl)
is_condition_true-cluster_conditions now phase none conditions =
    elim (Bool-cases (phase == "ACTIVE")) [
      | inl e ↦ rw e (is_condition_true-pair now _ _ conditions (ne_of_differ refl))
      | inr e ↦ elim (Bool-cases (phase == "")) [
        | inl f ↦ rw (e, f) (is_condition_true-pair now _ _ conditions (ne_of_differ refl))
        | inr f ↦ rw (e, f) (is_condition_true-pair now _ _ conditions (ne_of_differ refl))
      ]
    ]
