-- ===== src/Engine/Failed.antt =====
-- An execution that `markAsFailed` ends can no longer be claimed.
use forge_gate.Base.{
  any, update_row, ℕ, String, true, false, not, ◌&&◌, List, [], ◌∷◌, map, ◌≡◌, refl, ap, ◌∙◌, ◌=ₛ◌,
  Bool-cases, inl, inr,
}
use forge_gate.Engine.{claimable, is_completed, fail_at}
use forge_gate.Engine.Database.{
  ExecutionStatus, pending, running, retrying, completed, failed, Execution, Prisma, Tables,
}
use forge_gate.Engine.Run.{mark_as_failed}

-- A row that is failed, unless it is completed, can no longer be claimed.
failed_row :
    (id : String) (now : ℕ) (e : Execution)
    → claimable id (update_row (λ x. x.id =ₛ id && not (is_completed x.status)) (fail_at now) e)
      ≡ false
failed_row id now e = elim (Bool-cases (e.id =ₛ id)) [
  | inl mine ↦ closed e.status refl mine
  | inr other ↦ rw other (rw other refl)
]
  where
    closed :
        (s : ExecutionStatus)
        → e.status ≡ s
        → (e.id =ₛ id) ≡ true
        → claimable id (update_row (λ x. x.id =ₛ id && not (is_completed x.status)) (fail_at now) e)
          ≡ false
    closed completed is mine = rw is (rw mine (rw mine refl))
    closed pending is mine = rw is (rw mine (rw mine refl))
    closed running is mine = rw is (rw mine (rw mine refl))
    closed retrying is mine = rw is (rw mine (rw mine refl))
    closed failed is mine = rw is (rw mine (rw mine refl))

failed_rows :
    (id : String) (now : ℕ) (es : List Execution)
    → any
        (claimable id)
        (map (update_row (λ x. x.id =ₛ id && not (is_completed x.status)) (fail_at now)) es)
      ≡ false
failed_rows id now [] = refl
failed_rows id now (e ∷ es) = rw (failed_row id now e) (failed_rows id now es)

module _ (p : Prisma) (t : Tables p) where
  pub mark_as_failed-claimable :
      (id reason : String) (now : ℕ) (db : p.Db)
      → any (claimable id) (t.executions (mark_as_failed p id reason now db)) ≡ false
  unfolding mark_as_failed
  mark_as_failed-claimable id reason now db =
      ap (any (claimable id)) ((t.create_log_lem _ _).0 ∙ (t.update_executions_lem _ _ _).1)
      ∙ failed_rows id now (t.executions db)
