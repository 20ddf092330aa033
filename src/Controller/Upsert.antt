-- ===== src/Controller/Upsert.antt =====
-- upsertModuleCR, upsertWorkflowRefStatusCR and upsertResourceRefStatusCR of
-- internal/controller/reconciler.go. A failure of the client is only logged.
pub mod Keeps
pub mod Again
use hyve.Prelude.{
  String, Bool, true, false, ◌&&◌, Option, none, some, ◌==◌, if◌then◌else◌, Result, ok, err,
}
use hyve.Prelude.State.{◌>>=◌, ◌>>◌, pure, call, ask}
use hyve.V1alpha1.Records.{Object, Module, WorkflowRefStatus, ResourceRefStatus}
use hyve.Lock.Names.{cr_name}
use hyve.Controller.Api.{
  ApiError, not_found, conflict, rejected, Verb, Action, Log, M, Client, Api, WorkflowRefResult,
  ResourceRefResult, wrote_module, wrote_workflow, wrote_resource,
}
use hyve.Controller.Conditions.{same_status}

-- What the three upserts differ in: the client, the entry of the log, when an existing object is
-- left alone, and the status that is written, which may carry the time.
pub record Mirror (Spec Status : Type 0) : Type 0 where
  pub client : Client (Object Spec Status)
  pub wrote : Verb → Object Spec Status → Action
  pub is_unchanged : Status → Bool
  pub desired_status : Log → Status

module _ {Spec Status : Type 0} (m : Mirror Spec Status) where
  -- Status().Update with the desired status on the server's object, if the write before succeeded.
  unfoldable pub write_status : Result ApiError (Object Spec Status) → M (Unit {0})
  write_status (err e) = pure tt
  write_status (ok echoed) = ask m.desired_status >>= λ status.
      call (m.client.on_update_status (record echoed { status = status }))
        (λ _. m.wrote Verb.update_status (record echoed { status = status }))
      >>= λ _. pure tt

  unfoldable pub create_or_update :
      Object Spec Status → Result ApiError (Object Spec Status) → M (Unit {0})
  create_or_update want (err not_found) =
      call (m.client.on_create want) (λ _. m.wrote Verb.create want) >>= λ created.
      write_status created
  create_or_update want (err conflict) = pure tt
  create_or_update want (err (rejected message)) = pure tt
  create_or_update want (ok existing) =
      if m.is_unchanged existing.status
      then pure tt
      else (call (m.client.on_update (record existing { spec = want.spec }))
            (λ _. m.wrote Verb.update (record existing { spec = want.spec }))
          >>= λ updated. write_status updated)

  unfoldable pub upsert : Object Spec Status → M (Unit {0})
  upsert want = ask (m.client.get want.name) >>= λ existing. create_or_update want existing

unfoldable pub workflow_ref_status : WorkflowRefResult → WorkflowRefStatus
workflow_ref_status res = record {
  name = cr_name res.name res.canonical_source;
  spec = record { name = res.name; source = res.canonical_source };
  status = elim res.error [
    | some message ↦ record {
      resolved = false;
      raw_version = res.raw_version;
      resolved_version = "";
      sha256 = "";
      resolved_at = 0;
      error = message;
    }
    | none ↦ record {
      resolved = true;
      raw_version = res.raw_version;
      resolved_version = res.resolved_version;
      sha256 = res.sha256;
      resolved_at = 0;
      error = "";
    }
  ];
}

unfoldable pub resource_ref_status : ResourceRefResult → ResourceRefStatus
resource_ref_status res = record {
  name = cr_name res.name res.canonical_source;
  spec = record { name = res.name; source = res.canonical_source };
  status = elim res.error [
    | some message ↦ record {
      resolved = false;
      raw_version = res.raw_version;
      sha256 = "";
      resolved_at = 0;
      error = message;
    }
    | none ↦ record {
      resolved = true;
      raw_version = res.raw_version;
      sha256 = res.sha256;
      resolved_at = 0;
      error = "";
    }
  ];
}

module _ (api : Api) where
  unfoldable pub upsert_module_cr : Module → M (Unit {0})
  upsert_module_cr want =
      upsert
        (record {
          client = api.modules;
          wrote = wrote_module;
          is_unchanged = λ existing. false;
          desired_status = λ w. want.status;
        })
        want

  unfoldable pub upsert_workflow_ref_status_cr : WorkflowRefResult → M (Unit {0})
  upsert_workflow_ref_status_cr res =
      let want = workflow_ref_status res in
      upsert
        (record {
          client = api.workflow_ref_statuses;
          wrote = wrote_workflow;
          is_unchanged = λ existing.
              same_status existing.resolved want.status.resolved
              && existing.raw_version == want.status.raw_version
              && existing.resolved_version == want.status.resolved_version
              && existing.sha256 == want.status.sha256
              && existing.error == want.status.error;
          desired_status = λ w. record want.status { resolved_at = api.now w };
        })
        want

  unfoldable pub upsert_resource_ref_status_cr : ResourceRefResult → M (Unit {0})
  upsert_resource_ref_status_cr res =
      let want = resource_ref_status res in
      upsert
        (record {
          client = api.resource_ref_statuses;
          wrote = wrote_resource;
          is_unchanged = λ existing.
              same_status existing.resolved want.status.resolved
              && existing.raw_version == want.status.raw_version
              && existing.sha256 == want.status.sha256
              && existing.error == want.status.error;
          desired_status = λ w. record want.status { resolved_at = api.now w };
        })
        want
