-- ===== src/Limits/Concurrency/Keys.antt =====
-- The keys of the scopes are different, whatever the tenant, the provider and the step are called.
use Prim.Native.Char.{code}
use forge_gate.Base.{
  ℕ, zero, suc, String, ◌<>◌, false, Option, none, some, List, [], ◌∷◌, ◌≡◌, ◌≢◌, All, refl, ◌==◌,
  arith, Bool-cases, inl, inr, sym, ◌∙◌, ap,
}
use mathlib.Core.Option.{none-ne-some, some-injective}
use text.Mathlib.TextLemmas.{cons-append}
use forge_gate.Limits.Provider.{CheckParams}
use forge_gate.Limits.Concurrency.{
  Scope, global, tenant, provider, tenant_provider, step, OutboundConcurrencyConfig, ScopeToCheck,
  push_scope, scopes_to_check,
}
use forge_gate.Limits.Concurrency.Ledger.{keys_of}

-- The code of the character at a position.
abbrev code_at : ℕ → String → Option ℕ
code_at n String.[] = none
code_at zero (String.◌∷◌ c s) = some (code c)
code_at (suc n) (String.◌∷◌ c s) = code_at n s

code_at-append : (n : ℕ) (p x : String) {c : ℕ} → code_at n p ≡ some c → code_at n (p <> x) ≡ some c
code_at-append n String.[] x e = absurd (none-ne-some _ e)
code_at-append zero (String.◌∷◌ d p) x e = rw (cons-append d p x) e
code_at-append (suc n) (String.◌∷◌ d p) x e = rw (cons-append d p x) (code_at-append n p x e)

clash :
    (n : ℕ) (s t : String) {c d : ℕ}
    → code_at n s ≡ some c
    → code_at n t ≡ some d
    → (c == d) ≡ false
    → s ≢ t
clash n s t h k differ e =
    let same = some-injective _ _ (sym h ∙ ap (code_at n) e ∙ k) in ground arith

abbrev pub IsDistinct : List String → Type 0
IsDistinct [] = Unit
IsDistinct (k ∷ ks) = All (λ x. k ≢ x) ks × IsDistinct ks

push_scope-All :
    (P : String → Type 0) (scope : Scope) (key : String) (limit : Option ℕ)
    (rest : List ScopeToCheck)
    → P key
    → All P (keys_of rest)
    → All P (keys_of (push_scope scope key limit rest))
unfolding push_scope
push_scope-All P scope key none rest p all = all
push_scope-All P scope key (some limit) rest p all = elim (Bool-cases (limit == 0)) [
  | inl h ↦ rw h all
  | inr h ↦ rw h (p, all)
]

push_scope-IsDistinct :
    (scope : Scope) (key : String) (limit : Option ℕ) (rest : List ScopeToCheck)
    → All (λ x. key ≢ x) (keys_of rest)
    → IsDistinct (keys_of rest)
    → IsDistinct (keys_of (push_scope scope key limit rest))
unfolding push_scope
push_scope-IsDistinct scope key none rest new distinct = distinct
push_scope-IsDistinct scope key (some limit) rest new distinct = elim (Bool-cases (limit == 0)) [
  | inl h ↦ rw h distinct
  | inr h ↦ rw h (new, distinct)
]

step_code : (x : String) → code_at 14 ("outbound:conc:step:" <> x) ≡ some 115
step_code x = code_at-append 14 "outbound:conc:step:" x refl

tenant_provider_code : (x : String) → code_at 14 ("outbound:conc:tenant_provider:" <> x) ≡ some 116
tenant_provider_code x = code_at-append 14 "outbound:conc:tenant_provider:" x refl

tenant_code : (x : String) → code_at 14 ("outbound:conc:tenant:" <> x) ≡ some 116
tenant_code x = code_at-append 14 "outbound:conc:tenant:" x refl

provider_code : (x : String) → code_at 14 ("outbound:conc:provider:" <> x) ≡ some 112
provider_code x = code_at-append 14 "outbound:conc:provider:" x refl

tenant_provider_ne_tenant :
    (x y : String) → "outbound:conc:tenant_provider:" <> x ≢ "outbound:conc:tenant:" <> y
tenant_provider_ne_tenant x y =
    clash 20 _ _ (code_at-append 20 "outbound:conc:tenant_provider:" x refl)
      (code_at-append 20 "outbound:conc:tenant:" y refl) refl

-- The keys of the scopes that one call checks are all different.
pub scopes_to_check-IsDistinct :
    (hostname : String → Option String) (config : OutboundConcurrencyConfig) (params : CheckParams)
    → IsDistinct (keys_of (scopes_to_check hostname config params))
unfolding scopes_to_check
scopes_to_check-IsDistinct hostname config params =
    push_scope-IsDistinct step _ _ _
      (push_scope-All _ _ _ _ _ (clash 14 _ _ (step_code _) (tenant_provider_code _) refl) (
        push_scope-All _ _ _ _ _ (clash 14 _ _ (step_code _) (tenant_code _) refl) (
          push_scope-All _ _ _ _ _ (clash 14 _ _ (step_code _) (provider_code _) refl)
            (push_scope-All _ _ _ _ _ (clash 14 _ _ (step_code _) refl refl) tt))))
      (push_scope-IsDistinct tenant_provider _ _ _
        (push_scope-All _ _ _ _ _ (tenant_provider_ne_tenant _ _) (
          push_scope-All _ _ _ _ _ (clash 14 _ _ (tenant_provider_code _) (provider_code _) refl)
            (push_scope-All _ _ _ _ _ (clash 14 _ _ (tenant_provider_code _) refl refl) tt)))
        (push_scope-IsDistinct tenant _ _ _
          (push_scope-All _ _ _ _ _ (clash 14 _ _ (tenant_code _) (provider_code _) refl)
            (push_scope-All _ _ _ _ _ (clash 14 _ _ (tenant_code _) refl refl) tt))
          (push_scope-IsDistinct provider _ _ _
            (push_scope-All _ _ _ _ _ (clash 14 _ _ (provider_code _) refl refl) tt)
            (push_scope-IsDistinct global _ _ _ tt tt))))
