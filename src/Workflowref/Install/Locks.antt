-- ===== src/Workflowref/Install/Locks.antt =====
-- What `Install` of internal/workflowref/orchestration.go reports is locked.
use hyve.Prelude.{
  String, Bool, true, ◌||◌, Option, none, some, is_some, List, [], ◌∷◌, ◌++◌, ◌≡◌, refl, arith,
  Result, ok, err, all, Bool-cases, inl, inr,
}
use hyve.Prelude.Maps.{lookup-insert, lookup-insert_self}
use hyve.Types.{WorkflowRef}
use hyve.Lock.{LockFile, LockedWorkflow, lock_key, get_locked_workflow, set_locked_workflow}
use hyve.Workflowref.Install.{
  ResolvedWorkflowFile, RefResult, Run, start, same_content, entry_of, note_file, lock_file,
  install_file, install_files, note_failure, install_ref, install_refs, conclude_install, install,
}

-- A failure, or a file with an entry in the lock file.
is_locked : LockFile → RefResult → Bool
is_locked lf r =
    is_some r.error || is_some (get_locked_workflow lf r.canonical_source r.raw_version)

-- Of all that was reported so far.
pub is_backed : Run → Bool
unfolding is_locked
is_backed run = all (is_locked run.lf) run.results

all-append :
    {A : Type 0} (p : A → Bool) (xs : List A) (x : A)
    → all p xs ≡ true
    → p x ≡ true
    → all p (xs ++ (x ∷ [])) ≡ true
all-append p [] x h k = ground (arith, k)
all-append p (y ∷ xs) x h k = ground (arith, h, k, all-append p xs x)

all-weaken :
    {A : Type 0} (p q : A → Bool)
    → ((x : A) → p x ≡ true → q x ≡ true)
    → (xs : List A) → all p xs ≡ true
    → all q xs ≡ true
all-weaken p q h [] k = refl
all-weaken p q h (x ∷ xs) k = ground (arith, k, h x, all-weaken p q h xs)

is_locked-set_locked_workflow :
    (lf : LockFile) (source version : String) (w : LockedWorkflow) (r : RefResult)
    → is_locked lf r ≡ true
    → is_locked (set_locked_workflow lf source version w) r ≡ true
unfolding is_locked get_locked_workflow set_locked_workflow
is_locked-set_locked_workflow lf source version w r h = ground (
  arith,
  h,
  lookup-insert (lock_key source version) (lock_key r.canonical_source r.raw_version) w
      lf.workflows,
)

is_some-get-set :
    (lf : LockFile) (source version : String) (w : LockedWorkflow)
    → is_some (get_locked_workflow (set_locked_workflow lf source version w) source version) ≡ true
unfolding get_locked_workflow set_locked_workflow
is_some-get-set lf source version w =
    rw (lookup-insert_self (lock_key source version) w lf.workflows) refl

is_some-same_content :
    (f : ResolvedWorkflowFile) (found : Option LockedWorkflow)
    → same_content f found ≡ true
    → is_some found ≡ true
unfolding same_content
is_some-same_content f none h = cc
is_some-same_content f (some w) h = refl

is_backed-install_file :
    (f : ResolvedWorkflowFile) (run : Run)
    → is_backed run ≡ true
    → is_backed (install_file f run) ≡ true
unfolding is_backed install_file note_file lock_file is_locked
is_backed-install_file f run h =
    elim (Bool-cases
      (same_content f (get_locked_workflow run.lf f.canonical_source f.raw_version))) [
        | inl e ↦ rw e (all-append _ run.results _ h (is_some-same_content f _ e))
        | inr e ↦ rw e (
            all-append _ run.results _
              (all-weaken _ _ (λ r. is_locked-set_locked_workflow run.lf _ _ (entry_of f) r)
                run.results h)
              (is_some-get-set run.lf _ _ (entry_of f)))
      ]

is_backed-install_files :
    (files : List ResolvedWorkflowFile) (run : Run)
    → is_backed run ≡ true
    → is_backed (install_files files run) ≡ true
unfolding install_files
is_backed-install_files [] run h = h
is_backed-install_files (f ∷ files) run h =
    is_backed-install_files files _ (is_backed-install_file f run h)

is_backed-note_failure :
    (ref : WorkflowRef) (message : String) (run : Run)
    → is_backed run ≡ true
    → is_backed (note_failure ref message run) ≡ true
unfolding is_backed note_failure is_locked
is_backed-note_failure ref message run h = all-append _ run.results _ h refl

is_backed-install_ref :
    (ref : WorkflowRef) (answer : Result String (List ResolvedWorkflowFile)) (run : Run)
    → is_backed run ≡ true
    → is_backed (install_ref ref answer run) ≡ true
unfolding install_ref
is_backed-install_ref ref (ok files) run h = is_backed-install_files files run h
is_backed-install_ref ref (err message) run h = is_backed-note_failure ref message run h

module _ (resolve : String → String → LockFile → String → Result String (List ResolvedWorkflowFile))
    (save_lock_file : LockFile → Bool) where
  is_backed-install_refs :
      (token : String) (refs : List WorkflowRef) (run : Run)
      → is_backed run ≡ true
      → is_backed (install_refs resolve save_lock_file token refs run) ≡ true
  unfolding install_refs
  is_backed-install_refs token [] run h = h
  is_backed-install_refs token (ref ∷ refs) run h =
      is_backed-install_refs token refs _ (is_backed-install_ref ref _ run h)

  is_backed-conclude_install :
      (run : Run)
      → is_backed run ≡ true
      → is_backed (conclude_install resolve save_lock_file run).0 ≡ true
  unfolding conclude_install is_backed
  is_backed-conclude_install run h = elim (Bool-cases run.changed) [
    | inl e ↦ elim (Bool-cases (save_lock_file run.lf)) [
      | inl f ↦ rw (e, f) h
      | inr f ↦ rw (e, f) h
    ]
    | inr e ↦ rw e h
  ]

  -- Whatever Resolve answers, each result without an error that Install reports has an entry in
  -- the lock file it ends with.
  pub is_backed-install :
      (lf : LockFile) (refs : List WorkflowRef) (token : String)
      → is_backed (install resolve save_lock_file (some lf) refs token).0 ≡ true
  unfolding install is_backed
  is_backed-install lf refs token =
      is_backed-conclude_install _ (is_backed-install_refs token refs (start lf) refl)
