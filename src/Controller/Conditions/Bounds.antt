-- ===== src/Controller/Conditions/Bounds.antt =====
-- The lists of conditions that internal/controller/reconciler.go can leave in a status.
use hyve.Prelude.{
  ℕ, String, Bool, true, false, not, ◌&&◌, ◌||◌, Option, none, some, List, [], ◌∷◌, ◌==◌, ◌≡◌, refl,
  arith, eq_iff, length, ◌≤◌, Bool-cases, inl, inr,
}
use hyve.V1alpha1.{Condition}
use hyve.Controller.Conditions.{
  stamp, put_condition, put_conditions, cluster_conditions, delete_failed, condition_type_ready,
  condition_type_error,
}

-- The conditions that a status can have, through any passes and failed deletions in any order.
pub data Written : List Condition → Type 0 where
  start : Written []
  pass :
      (now : ℕ) (phase : String) (failure : Option String) {conditions : List Condition}
      → Written conditions
      → Written (put_conditions now (cluster_conditions phase failure) conditions)
  failed_delete :
      (now : ℕ) (message : String) {conditions : List Condition}
      → Written conditions
      → Written (put_conditions now (delete_failed message ∷ []) conditions)

is_known : String → Bool
is_known kind = kind == condition_type_ready || kind == condition_type_error

-- At most one condition of each of the two types.
pub is_pair : List Condition → Bool
unfolding is_known
is_pair [] = true
is_pair (a ∷ []) = is_known a.kind
is_pair (a ∷ b ∷ []) = is_known a.kind && is_known b.kind && not (a.kind == b.kind)
is_pair _ = false

is_pair-put_condition :
    (now : ℕ) (cond : Condition) (conditions : List Condition)
    → is_known cond.kind ≡ true
    → is_pair conditions ≡ true
    → is_pair (put_condition now cond conditions) ≡ true
unfolding is_pair put_condition stamp
is_pair-put_condition now cond [] k h = k
is_pair-put_condition now cond (a ∷ []) k h = ground (arith, k, h, eq_iff a.kind cond.kind)
is_pair-put_condition now cond (a ∷ b ∷ []) k h = ground (
  arith,
  k,
  h,
  eq_iff a.kind cond.kind,
  eq_iff b.kind cond.kind,
  eq_iff a.kind b.kind,
  eq_iff a.kind condition_type_ready,
  eq_iff a.kind condition_type_error,
  eq_iff b.kind condition_type_ready,
  eq_iff b.kind condition_type_error,
  eq_iff cond.kind condition_type_ready,
  eq_iff cond.kind condition_type_error,
)
is_pair-put_condition now cond (a ∷ b ∷ c ∷ conditions) k h = cc

is_pair-cluster_conditions :
    (now : ℕ) (phase : String) (failure : Option String) (conditions : List Condition)
    → is_pair conditions ≡ true
    → is_pair (put_conditions now (cluster_conditions phase failure) conditions) ≡ true
unfolding put_conditions cluster_conditions is_known
is_pair-cluster_conditions now phase (some message) conditions h =
    is_pair-put_condition now _ _ refl (is_pair-put_condition now _ _ refl h)
is_pair-cluster_conditions now phase none conditions h = elim (Bool-cases (phase == "ACTIVE")) [
  | inl e ↦ rw e (is_pair-put_condition now _ _ refl (is_pair-put_condition now _ _ refl h))
  | inr e ↦ elim (Bool-cases (phase == "")) [
    | inl f ↦ rw (e, f) (is_pair-put_condition now _ _ refl (is_pair-put_condition now _ _ refl h))
    | inr f ↦ rw (e, f) (is_pair-put_condition now _ _ refl (is_pair-put_condition now _ _ refl h))
  ]
]

Written-is_pair : {conditions : List Condition} → Written conditions → is_pair conditions ≡ true
unfolding is_pair put_conditions is_known delete_failed
Written-is_pair start = refl
Written-is_pair (pass now phase failure r) =
    is_pair-cluster_conditions now phase failure _ (Written-is_pair r)
Written-is_pair (failed_delete now message r) =
    is_pair-put_condition now _ _ refl (Written-is_pair r)

length-le-is_pair :
    (conditions : List Condition) → is_pair conditions ≡ true → length conditions ≤ 2
unfolding is_pair
length-le-is_pair [] h = omega arith
length-le-is_pair (a ∷ []) h = omega arith
length-le-is_pair (a ∷ b ∷ []) h = omega arith
length-le-is_pair (a ∷ b ∷ c ∷ conditions) h = cc

-- The list never grows past one condition for each of the two types.
pub Written-le : {conditions : List Condition} → Written conditions → length conditions ≤ 2
Written-le r = length-le-is_pair _ (Written-is_pair r)
