-- ===== src/Controller/Assumed.antt =====
-- What internal/controller/reconciler.go relies on in the packages it imports: that
-- retry.RetryOnConflict only repeats the function it is given, and that a finalizer is
-- there once controllerutil added it, and gone once it removed it.
use hyve.Prelude.{ℕ, zero, suc, String, true, false, Option, none, some, ◌≡◌}
use hyve.Prelude.State.{◌>>=◌, pure}
use hyve.V1alpha1.{ClusterDefinition}
use hyve.Controller.Api.{ApiError, not_found, conflict, rejected, Log, M, Api}

-- What a conflict is answered with, any other answer is the last.
unfoldable pub unless_conflict : M (Option ApiError) → Option ApiError → M (Option ApiError)
unless_conflict again (some conflict) = again
unless_conflict again (some not_found) = pure (some not_found)
unless_conflict again (some (rejected message)) = pure (some (rejected message))
unless_conflict again none = pure none

-- At most n times more, as long as the answer is a conflict.
unfoldable pub attempts : ℕ → M (Option ApiError) → M (Option ApiError)
attempts zero f = f
attempts (suc n) f = f >>= λ failure. unless_conflict (attempts n f) failure

-- The number of attempts may depend on all that was done before.
pub record Retries (api : Api) : Type 0 where
  pub tries :
      (f : M (Option ApiError)) (w : Log) → (n : ℕ) × (api.retry_on_conflict f w ≡ attempts n f w)

pub record Finalizers (api : Api) : Type 0 where
  pub contains-add :
      (cr : ClusterDefinition) (name : String)
      → api.contains_finalizer (api.add_finalizer cr name) name ≡ true
  pub contains-remove :
      (cr : ClusterDefinition) (name : String)
      → api.contains_finalizer (api.remove_finalizer cr name) name ≡ false

module _ (P : Log → Type 0) where
  unless_conflict-keeps :
      (again : M (Option ApiError)) (failure : Option ApiError) (w : Log)
      → P w
      → P (again w).1
      → P (unless_conflict again failure w).1
  unfolding unless_conflict
  unless_conflict-keeps again (some conflict) w h k = k
  unless_conflict-keeps again (some not_found) w h k = h
  unless_conflict-keeps again (some (rejected message)) w h k = h
  unless_conflict-keeps again none w h k = h

  module _ (f : M (Option ApiError)) (step : (w : Log) → P w → P (f w).1) where
    attempts-keeps : (n : ℕ) (w : Log) → P w → P (attempts n f w).1
    unfolding attempts
    attempts-keeps zero w h = step w h
    attempts-keeps (suc n) w h =
        unless_conflict-keeps _ _ _ (step w h) (attempts-keeps n _ (step w h))

    -- What an attempt leaves true of the log, the retries leave true.
    pub retry_on_conflict-keeps :
        (api : Api) → Retries api → (w : Log) → P w → P (api.retry_on_conflict f w).1
    retry_on_conflict-keeps api retries w h =
        let (n, e) = retries.tries f w in rw e (attempts-keeps n w h)
