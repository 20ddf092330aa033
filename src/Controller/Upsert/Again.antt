-- ===== src/Controller/Upsert/Again.antt =====
-- Upserts of internal/controller/reconciler.go that find what an earlier one wrote.
use hyve.Prelude.{
  String, true, ◌&&◌, ◌==◌, ◌≡◌, refl, arith, ◌⊎◌, inl, inr, Bool-cases, str_eq_self, ok, err, ◌∷◌,
  ap, sym, ◌∙◌,
}
use hyve.V1alpha1.Records.{Object, WorkflowRefStatusStatus}
use hyve.Controller.Api.{
  not_found, Verb, Action, Log, Client, Api, WorkflowRefResult, wrote_workflow,
}
use hyve.Controller.Conditions.{same_status}
use hyve.Controller.Upsert.{
  Mirror, write_status, create_or_update, upsert, workflow_ref_status,
  upsert_workflow_ref_status_cr,
}

-- An API server that accepts the writes, answers with objects of the name it is asked for, and
-- reads back the status it was last given.
pub record ReadsBack {Spec Status : Type 0} (client : Client (Object Spec Status))
    (wrote : Verb → Object Spec Status → Action) : Type 0 where
  pub answers :
      (name : String) (w : Log)
      → (client.get name w ≡ err not_found)
        ⊎ ((found : Object Spec Status) × (client.get name w ≡ ok found) × (found.name ≡ name))
  pub creates :
      (obj : Object Spec Status) (w : Log)
      → (echoed : Object Spec Status) × (client.on_create obj w ≡ ok echoed)
        × (echoed.name ≡ obj.name)
  pub updates :
      (obj : Object Spec Status) (w : Log)
      → (echoed : Object Spec Status) × (client.on_update obj w ≡ ok echoed)
        × (echoed.name ≡ obj.name)
  pub keeps_status :
      (obj : Object Spec Status) (w : Log)
      → client.get obj.name (wrote Verb.update_status obj ∷ w) ≡ ok obj

module _ {Spec Status : Type 0} (m : Mirror Spec Status) (server : ReadsBack m.client m.wrote)
    (settles : (w : Log) → m.is_unchanged (m.desired_status w) ≡ true) where
  -- After a status was written for the name, an upsert writes nothing.
  upsert-write_status :
      (want echoed : Object Spec Status) (w : Log)
      → echoed.name ≡ want.name
      → (upsert m want (write_status m (ok echoed) w).1).1 ≡ (write_status m (ok echoed) w).1
  unfolding upsert create_or_update write_status
  upsert-write_status want echoed w e =
      rw (← e, server.keeps_status (record echoed { status = m.desired_status w }) w, settles w)
        refl

  -- An upsert writes nothing, or ends with a status for the name.
  upsert-cases :
      (want : Object Spec Status) (w : Log)
      → ((upsert m want w).1 ≡ w)
        ⊎ ((echoed : Object Spec Status) × (w' : Log) × (echoed.name ≡ want.name)
            × ((upsert m want w).1 ≡ (write_status m (ok echoed) w').1))
  unfolding upsert create_or_update
  upsert-cases want w = elim (server.answers want.name w) [
    | inl e ↦
        let (echoed, c, n) = server.creates want w in
        inr (echoed, m.wrote Verb.create want ∷ w, n, rw (e, c) refl)
    | inr (existing, e, n) ↦ elim (Bool-cases (m.is_unchanged existing.status)) [
      | inl u ↦ inl (rw (e, u) refl)
      | inr u ↦
          let (echoed, c, n') = server.updates (record existing { spec = want.spec }) w in
          inr (
            echoed,
            m.wrote Verb.update (record existing { spec = want.spec }) ∷ w,
            n' ∙ n,
            rw (e, u, c) refl,
          )
    ]
  ]

  upsert-again :
      (want : Object Spec Status) (w : Log)
      → (upsert m want (upsert m want w).1).1 ≡ (upsert m want w).1
  upsert-again want w = elim (upsert-cases want w) [
    | inl e ↦ ap (λ w'. (upsert m want w').1) e
    | inr (echoed, w', n, e) ↦
        ap (λ w''. (upsert m want w'').1) e ∙ upsert-write_status want echoed w' n ∙ sym e
  ]

-- The comparison of upsertWorkflowRefStatusCR, of a status with itself.
is_same_self :
    (s : WorkflowRefStatusStatus)
    → (same_status s.resolved s.resolved
        && s.raw_version == s.raw_version
        && s.resolved_version == s.resolved_version
        && s.sha256 == s.sha256
        && s.error == s.error)
      ≡ true
is_same_self s =
    rw
      (
        str_eq_self s.raw_version,
        str_eq_self s.resolved_version,
        str_eq_self s.sha256,
        str_eq_self s.error,
      )
      (ground arith)

-- With such a server, recording an unchanged result of a workflow reference again writes nothing.
pub upsert_workflow_ref_status_cr-again :
    (api : Api) (res : WorkflowRefResult) (w : Log)
    → ReadsBack api.workflow_ref_statuses wrote_workflow
    → (upsert_workflow_ref_status_cr api res (upsert_workflow_ref_status_cr api res w).1).1
      ≡ (upsert_workflow_ref_status_cr api res w).1
unfolding upsert_workflow_ref_status_cr
upsert_workflow_ref_status_cr-again api res w server =
    upsert-again _ server (λ w'. is_same_self (workflow_ref_status res).status)
      (workflow_ref_status res) w
