-- ===== src/Reconcile/Hooks.antt =====
-- `runWorkflows` and `runRemoteWorkflowHook` of internal/reconcile/manager.go.
use hyve.Prelude.{String, Bool, true, false, not, List, [], ◌∷◌, if◌then◌else◌, Result, ok, err}
use hyve.Prelude.Maps.{Map}
use hyve.Types.{WorkflowRef}
use hyve.Types.Refs.{is_remote}
use hyve.Lock.{LockFile}
use hyve.Workflowref.{PathKind, file, dir, parse_source, apply_path_override, classify_path}
use hyve.Reconcile.World.{M, Env, ◌>>=◌, ◌>>◌, pure, ask, act, hook}
use hyve.Reconcile.Host.{Host}
use hyve.Reconcile.Refs.{env_value, injected_vars}

abbrev is_file : {E : Type 0} → Result E PathKind → Bool
is_file (ok file) = true
is_file (ok dir) = false
is_file (err e) = false

-- A hook's source must be one file.
unfoldable pub is_single_file : WorkflowRef → Bool
is_single_file ref = elim (parse_source ref.source) [
  | err e ↦ false
  | ok ps ↦ is_file (classify_path ((apply_path_override ps ref.path).0).path)
]

module _ (host : Host) (lf : LockFile) where
  -- The body of the loop for one reference; a failure is only logged.
  unfoldable pub run_hook : String → String → WorkflowRef → M (Unit {0})
  unfolding is_remote is_single_file
  run_hook name token ref =
      if not (is_remote ref)
      then act (hook name ref)
      else if is_single_file ref
      then (ask (host.fetch_workflow ref lf token) >>= λ fetched.
          if fetched then act (hook name ref) else pure tt)
      else pure tt

  unfoldable pub run_hooks : String → String → List WorkflowRef → M (Unit {0})
  unfolding run_hook
  run_hooks name token [] = pure tt
  run_hooks name token (ref ∷ refs) = run_hook name token ref >> run_hooks name token refs

  -- The variables that the hooks hand on.
  unfoldable pub run_workflows : List WorkflowRef → String → Env → M (Map String)
  unfolding env_value injected_vars
  run_workflows [] name env = pure []
  run_workflows (ref ∷ refs) name env = ask host.has_workflows >>= λ ready.
      if ready
      then (run_hooks name (env_value env "GITHUB_TOKEN") (ref ∷ refs)
          >> ask (host.hook_output_vars (injected_vars env [])))
      else pure []
