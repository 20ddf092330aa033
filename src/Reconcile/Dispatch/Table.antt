-- ===== src/Reconcile/Dispatch/Table.antt =====
-- Which action the switch on the status chooses.
use native.Mathlib.Omega.{arith}
use hyve.Prelude.{String, Bool, true, false, not, ◌≡◌, ◌==◌, ◌||◌}
use hyve.Reconcile.Dispatch.{
  Action, tear_down, remove_yaml, bring_up, maintain, wait, reject, next_action, in_progress,
}

abbrev is_known : String → Bool
is_known phase = phase == "NOT_FOUND" || phase == "ACTIVE" || phase == "FAILED" || in_progress phase

abbrev pub is_reject : Action → Bool
is_reject reject = true
is_reject tear_down = false
is_reject remove_yaml = false
is_reject bring_up = false
is_reject maintain = false
is_reject wait = false

-- Whatever spec.delete says, a status is an error exactly if it is none of the six that a driver
-- may report.
pub is_reject-next_action :
    (removing : Bool) (phase : String)
    → is_reject (next_action removing phase) ≡ not (is_known phase)
unfolding next_action
is_reject-next_action removing phase = ground arith
