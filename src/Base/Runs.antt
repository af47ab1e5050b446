-- ===== src/Base/Runs.antt =====
-- Runs over a list of calls, and when one machine's run refines that of another.
use mathlib.Core.Path.{◌≡◌, refl}
use mathlib.Core.List.{List, [], ◌∷◌}
use forge_gate.Base.Lists.{All}

module _ {ℓ κ μ} {Call : Type ℓ} {State : Type κ} {Out : Type μ} where
  -- The results of the calls in turn, and the state that they leave.
  unfoldable pub run_calls : (Call → State → Out × State) → List Call → State → List Out × State
  run_calls step [] s = ([], s)
  run_calls step (c ∷ calls) s =
      let one = step c s in let rest = run_calls step calls one.1 in (one.0 ∷ rest.0, rest.1)

-- One call of a machine does what the abstract one does, and keeps the relation of their states.
abbrev pub Simulates {κ μ ν ρ} :
    {State : Type κ} {Abstract : Type ν} {Out : Type μ}
    → (State → Abstract → Type ρ)
    → Out × State
    → Out × Abstract
    → Type (μ ⊔ ρ)
Simulates R p q = (p.0 ≡ q.0) × R p.1 q.1

pub run_calls_refines {ℓ κ μ ν ρ π} :
    {Call : Type ℓ} {State : Type κ} {Abstract : Type ν} {Out : Type μ}
    (step : Call → State → Out × State) (spec : Call → Abstract → Out × Abstract)
    (R : State → Abstract → Type ρ) (P : Call → Type π)
    → ((c : Call) (s : State) (a : Abstract) → P c → R s a → Simulates R (step c s) (spec c a))
    → (calls : List Call) (s : State) (a : Abstract) → All P calls
    → R s a
    → Simulates R (run_calls step calls s) (run_calls spec calls a)
unfolding run_calls
run_calls_refines step spec R P one [] s a ps r = (refl, r)
run_calls_refines step spec R P one (c ∷ calls) s a ps r =
    let here = one c s a ps.0 r in
    let rest = run_calls_refines step spec R P one calls _ _ ps.1 here.1 in
    (rw (here.0, rest.0) refl, rest.1)
