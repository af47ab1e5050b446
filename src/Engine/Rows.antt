-- ===== src/Engine/Rows.antt =====
-- The rows of the tables under updates.
use forge_gate.Base.{
  any, count_of, update_row, ℕ, ◌≤◌, ◌<◌, String, Bool, true, false, ◌&&◌, List, [], ◌∷◌, map, ◌≡◌,
  refl, sym, ◌∙◌, ◌⊎◌, inl, inr, arith, Bool-cases,
}
use forge_gate.Js.Json.{Json}
use forge_gate.Step.Retry.{Thrown}
use forge_gate.Engine.{
  Attempt, skipped, succeeded, attempt_threw, claimable, in_run, behind, can_claim, is_in_run,
}
use forge_gate.Engine.Database.{
  ExecutionStatus, pending, running, retrying, completed, failed, Execution,
}

-- What a run of the execution `id` may make of a row: nothing, or, if the row is this execution's
-- and not finished, a row of the same execution and tenant at the same or a later step, with a
-- higher version.
abbrev pub IsAllowed : String → Execution → Execution → Type 0
IsAllowed id x y =
    (x ≡ y)
    ⊎ ((claimable id x ≡ true)
        × (y.id ≡ x.id)
        × (y.tenant_id ≡ x.tenant_id)
        × (x.current_step ≤ y.current_step)
        × (x.version < y.version))

-- Row by row.
abbrev pub Follows : String → List Execution → List Execution → Type 0
Follows id [] [] = Unit
Follows id (x ∷ xs) (y ∷ ys) = IsAllowed id x y × Follows id xs ys
Follows id _ _ = ⊥

pub IsAllowed-trans :
    (id : String) (x y z : Execution) → IsAllowed id x y → IsAllowed id y z → IsAllowed id x z
IsAllowed-trans id x y z (inl e) k = rw e k
IsAllowed-trans id x y z (inr h) (inl e) = rw (sym e) (inr h)
IsAllowed-trans id x y z (inr (mine, a, b, c, d)) (inr (mine', a', b', c', d')) =
    inr (mine, a' ∙ a, b' ∙ b, omega arith, omega arith)

pub Follows-refl : (id : String) (xs : List Execution) → Follows id xs xs
Follows-refl id [] = tt
Follows-refl id (x ∷ xs) = (inl refl, Follows-refl id xs)

pub Follows-trans :
    (id : String) (xs ys zs : List Execution)
    → Follows id xs ys
    → Follows id ys zs
    → Follows id xs zs
Follows-trans id [] [] zs h k = k
Follows-trans id [] (y ∷ ys) zs h k = absurd h
Follows-trans id (x ∷ xs) [] zs h k = absurd h
Follows-trans id (x ∷ xs) (y ∷ ys) [] h k = absurd k
Follows-trans id (x ∷ xs) (y ∷ ys) (z ∷ zs) (h, hs) (k, ks) =
    (IsAllowed-trans id x y z h k, Follows-trans id xs ys zs hs ks)

pub Follows-of_eq : (id : String) (xs ys : List Execution) → ys ≡ xs → Follows id xs ys
Follows-of_eq id xs ys e = rw e (Follows-refl id xs)

pub map-Follows :
    (id : String) (q : Execution → Bool) (f : Execution → Execution) (xs : List Execution)
    → ((e : Execution) → q e ≡ true → IsAllowed id e (f e))
    → Follows id xs (map (update_row q f) xs)
map-Follows id q f [] ok = tt
map-Follows id q f (x ∷ xs) ok = elim (Bool-cases (q x)) [
  | inl h ↦ rw h (ok x h, map-Follows id q f xs ok)
  | inr h ↦ rw h (inl refl, map-Follows id q f xs ok)
]

pub open_of_in_run :
    (b : Bool) (s : ExecutionStatus) → b && is_in_run s ≡ true → b && can_claim s ≡ true
open_of_in_run true pending h = refl
open_of_in_run true running h = refl
open_of_in_run true retrying h = refl
open_of_in_run true completed h = h
open_of_in_run true failed h = h
open_of_in_run false s h = h

pub Attempt-cases :
    (a : Attempt)
    → (a ≡ skipped)
      ⊎ ((r : Json) × (a ≡ succeeded r))
      ⊎ ((thrown : Thrown) × (a ≡ attempt_threw thrown))
Attempt-cases skipped = inl refl
Attempt-cases (succeeded r) = inr (inl (r, refl))
Attempt-cases (attempt_threw thrown) = inr (inr (thrown, refl))

pub behind_lem :
    (id : String) (order : ℕ) (e : Execution)
    → behind id order e ≡ true
    → (in_run id e ≡ true) × (e.current_step < order)
behind_lem id order e h = ground arith

module _ {ℓ} {A : Type ℓ} where
  pub map_none :
      (q : A → Bool) (f : A → A) (xs : List A)
      → any q xs ≡ false
      → (map (update_row q f) xs ≡ xs) × (count_of q xs ≡ 0)
  map_none q f [] h = (refl, refl)
  map_none q f (x ∷ xs) h = elim (Bool-cases (q x)) [
    | inl hit ↦ absurd (ground arith)
    | inr miss ↦ let (same, zero) = map_none q f xs (ground arith) in rw miss (rw same refl, zero)
  ]

  pub any-map :
      (r q : A → Bool) (f : A → A) (xs : List A)
      → ((x : A) → r x ≡ true → q x ≡ false)
      → any r xs ≡ true
      → any r (map (update_row q f) xs) ≡ true
  any-map r q f [] apart h = h
  any-map r q f (x ∷ xs) apart h = elim (Bool-cases (r x)) [
    | inl here ↦ rw (apart x here) (rw here refl)
    | inr absent ↦ let there = any-map r q f xs apart (ground arith) in ground arith
  ]
