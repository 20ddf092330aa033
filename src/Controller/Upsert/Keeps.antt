-- ===== src/Controller/Upsert/Keeps.antt =====
-- What upserts of internal/controller/reconciler.go leave true of the log.
use hyve.Prelude.{◌∷◌, Result, ok, err, Bool-cases, inl, inr}
use hyve.V1alpha1.Records.{Object}
use hyve.Controller.Api.{ApiError, not_found, conflict, rejected, Verb, Log}
use hyve.Controller.Upsert.{Mirror, write_status, create_or_update, upsert}

module _ {Spec Status : Type 0} (m : Mirror Spec Status) (P : Log → Type 0)
    (wrote : (v : Verb) (obj : Object Spec Status) (w : Log) → P w → P (m.wrote v obj ∷ w)) where
  write_status-keeps :
      (r : Result ApiError (Object Spec Status)) (w : Log) → P w → P (write_status m r w).1
  unfolding write_status
  write_status-keeps (err e) w h = h
  write_status-keeps (ok echoed) w h = wrote _ _ w h

  create_or_update-keeps :
      (want : Object Spec Status) (r : Result ApiError (Object Spec Status)) (w : Log)
      → P w
      → P (create_or_update m want r w).1
  unfolding create_or_update
  create_or_update-keeps want (err not_found) w h = write_status-keeps _ _ (wrote _ _ w h)
  create_or_update-keeps want (err conflict) w h = h
  create_or_update-keeps want (err (rejected message)) w h = h
  create_or_update-keeps want (ok existing) w h =
      elim (Bool-cases (m.is_unchanged existing.status)) [
        | inl e ↦ rw e h
        | inr e ↦ rw e (write_status-keeps _ _ (wrote _ _ w h))
      ]

  pub upsert-keeps : (want : Object Spec Status) (w : Log) → P w → P (upsert m want w).1
  unfolding upsert
  upsert-keeps want w h = create_or_update-keeps want _ w h
