-- ===== src/Reconcile/Traces/Lifecycle.antt =====
-- The effects of authenticating, creating, deleting, scaling and maintaining a cluster.
use native.Mathlib.Omega.{arith}
use hyve.Prelude.{
  not, String, Bool, true, false, Bool-cases, inl, inr, ◌||◌, Option, none, some, ◌≡◌, all,
}
use hyve.Prelude.Maps.{Map}
use hyve.Types.{ClusterDefinition}
use hyve.Lock.{LockFile}
use hyve.Reconcile.World.{
  Env, History, Executor, Operation, create, delete, scale, Outcome, OperationResult, succeeded,
  failed, M,
}
use hyve.Reconcile.Host.{Host}
use hyve.Reconcile.Cluster.{
  is_success, execute, authenticate, save_definition, record_output, remove_cluster_file,
  finish_create, create_cluster, delete_cluster, scale_on_drift, scale_cluster, reconcile_contents,
  maintain_cluster, conclude_create, conclude_delete, conclude_scale, ensure_agent,
}
use hyve.Reconcile.Traces.{Policy, permits, permits_operation}
use hyve.Reconcile.Traces.Contents.{run_workflows-permits, reconcile_resources-permits}

module _ (p : Policy) (host : Host) (lf : LockFile) where
  abbrev pub Keeps : {A : Type 0} → M A → History → Type 0
  Keeps m h = all (permits p) h ≡ true → all (permits p) (m h).1 ≡ true

  pub execute-permits :
      (exec : Executor) (op : Operation) (env : Env) (h : History)
      → permits_operation p op ≡ true
      → Keeps (execute host lf exec op env) h
  unfolding execute
  execute-permits exec op env h q k = grind (arith, q, k)

  authenticate-permits :
      (exec : Executor) (env : Env) (h : History) → Keeps (authenticate host lf exec env) h
  unfolding authenticate
  authenticate-permits exec env h k = grind arith

  pub remove_cluster_file-permits :
      (name : String) (h : History) → p.removes ≡ true → Keeps (remove_cluster_file host lf name) h
  unfolding remove_cluster_file
  remove_cluster_file-permits name h q k = grind (arith, q)

  module _ (c : p.contents ≡ true) where
    finish_create-permits :
        (cluster : ClusterDefinition) (exec : Executor) (secrets_env : Map String) (h : History)
        → Keeps (finish_create host lf cluster exec secrets_env) h
    unfolding finish_create save_definition
    finish_create-permits cluster exec secrets_env h k = run_workflows-permits p host lf c _ _ _ _ (
        reconcile_resources-permits p host lf _ false c _ _ _ (
          run_workflows-permits p host lf c _ _ _ _
            (authenticate-permits exec _ _ (grind (arith, k, c)))))

    record_output-permits :
        (op : Operation) (r : Option OperationResult) (h : History)
        → Keeps (record_output host lf op r) h
    unfolding record_output
    record_output-permits op none h k = k
    record_output-permits op (some r) h k = grind (arith, k, c)

    conclude_create-permits :
        (cluster : ClusterDefinition) (exec : Executor) (secrets_env : Map String) (o : Outcome)
        (h : History)
        → Keeps (conclude_create host lf cluster exec secrets_env o) h
    unfolding conclude_create
    conclude_create-permits cluster exec secrets_env (failed r message) h k =
        record_output-permits create r h k
    conclude_create-permits cluster exec secrets_env (succeeded r) h k =
        finish_create-permits _ exec secrets_env _ (record_output-permits create (some r) h k)

    pub create_cluster-permits :
        (cluster : ClusterDefinition) (exec : Executor) (env : Env) (secrets_env : Map String)
        (h : History)
        → p.creates ≡ true
        → Keeps (create_cluster host lf cluster exec env secrets_env) h
    unfolding create_cluster
    create_cluster-permits cluster exec env secrets_env h q k =
        conclude_create-permits cluster exec secrets_env _ _
          (execute-permits exec create _ _ q (run_workflows-permits p host lf c _ _ env _ k))

    conclude_delete-permits :
        (cluster : ClusterDefinition) (env : Env) (o : Outcome) (h : History)
        → (not (is_success o) || p.removes) ≡ true
        → Keeps (conclude_delete host lf cluster env o) h
    unfolding conclude_delete
    conclude_delete-permits cluster env (failed r message) h q k =
        record_output-permits delete r h k
    conclude_delete-permits cluster env (succeeded r) h q k =
        remove_cluster_file-permits _ _ q
          (run_workflows-permits p host lf c _ _ env _ (record_output-permits delete (some r) h k))

    pub delete_cluster-permits :
        (cluster : ClusterDefinition) (exec : Executor) (env : Env) (h : History)
        → p.deletes ≡ true
        → ((env' : Env) (h' : History)
            → (not (is_success (execute host lf exec delete env' h').0) || p.removes) ≡ true)
        → Keeps (delete_cluster host lf cluster exec env) h
    unfolding delete_cluster
    delete_cluster-permits cluster exec env h d q k =
        conclude_delete-permits cluster _ _ _ (q _ _) (
          execute-permits exec delete _ _ d
            (run_workflows-permits p host lf c _ _ _ _ (authenticate-permits exec env _ k)))

    conclude_scale-permits :
        (cluster : ClusterDefinition) (o : Outcome) (h : History)
        → Keeps (conclude_scale host lf cluster o) h
    unfolding conclude_scale
    conclude_scale-permits cluster (failed r message) h k = k
    conclude_scale-permits cluster (succeeded r) h k = grind (arith, k, c)

    scale_cluster-permits :
        (cluster : ClusterDefinition) (exec : Executor) (env : Env) (h : History)
        → p.scales ≡ true
        → Keeps (scale_cluster host lf cluster exec env) h
    unfolding scale_cluster
    scale_cluster-permits cluster exec env h q k =
        conclude_scale-permits cluster _ _
          (execute-permits exec scale env _ q (run_workflows-permits p host lf c _ _ env h k))

  module _ (dry_run : Bool) (c : (dry_run || p.contents) ≡ true) where
    scale_on_drift-permits :
        (cluster : ClusterDefinition) (exec : Executor) (env : Env) (h : History)
        → (dry_run || p.scales) ≡ true
        → Keeps (scale_on_drift host lf dry_run cluster exec env) h
    unfolding scale_on_drift
    scale_on_drift-permits cluster exec env h q k = elim (Bool-cases dry_run) [
      | inl e ↦ ground (arith, e, k)
      | inr e ↦ ground (
        arith,
        e,
        k,
        scale_cluster-permits (ground (arith, e, c)) cluster exec env h (ground (arith, e, q)) k,
      )
    ]

    ensure_agent-permits :
        (cluster : ClusterDefinition) (env : Env) (h : History)
        → Keeps (ensure_agent host lf dry_run cluster env) h
    unfolding ensure_agent
    ensure_agent-permits cluster env h k = elim (Bool-cases dry_run) [
      | inl e ↦ ground (arith, e, k)
      | inr e ↦ grind (arith, e, k, c)
    ]

    pub reconcile_contents-permits :
        (cluster : ClusterDefinition) (env : Env) (h : History)
        → Keeps (reconcile_contents host lf dry_run cluster env) h
    unfolding reconcile_contents
    reconcile_contents-permits cluster env h k =
        reconcile_resources-permits p host lf env dry_run c _ _ _
          (ensure_agent-permits cluster env h k)

    pub maintain_cluster-permits :
        (cluster : ClusterDefinition) (exec : Executor) (env : Env) (h : History)
        → (dry_run || p.scales) ≡ true
        → Keeps (maintain_cluster host lf dry_run cluster exec env) h
    unfolding maintain_cluster
    maintain_cluster-permits cluster exec env h q k =
        reconcile_contents-permits _ _ _
          (scale_on_drift-permits cluster exec _ _ q (authenticate-permits exec env h k))
