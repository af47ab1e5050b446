-- ===== src/Step/IdempotencyKey.antt =====
-- idempotency.ts, and the key of the API requests in
-- apps/workflow-service/src/execution/api-idempotency.service.ts.
use Prim.Native.Char.{Char, code}
use Prim.Native.String.{[], ◌∷◌}
use text.Mathlib.TextLemmas.{
  nil-append, cons-append, head-eq_of_cons-eq, tail-eq_of_cons-eq, append_cancel_left,
}
use mathlib.Core.Path.{ap₂}
use forge_gate.Base.{String, ◌<>◌, ◌≡◌, refl, ◌≢◌, sym, ap, ◌∙◌, ne→test}
use forge_gate.Js.Text.{or_text}

unfoldable pub generate_step_idempotency_key : (tenant_id execution_id step_id : String) → String
generate_step_idempotency_key tenant_id execution_id step_id =
    let clean_tenant = or_text tenant_id "default" in
    let clean_execution = or_text execution_id "unknown-exec" in
    let clean_step = or_text step_id "unknown-step" in
    "forgegate:" <> (clean_tenant <> (":" <> (clean_execution <> (":" <> clean_step))))

-- A text without a colon.
abbrev pub NoColon : String → Type 0
NoColon [] = Unit
NoColon (c ∷ s) = (code c ≢ b':') × NoColon s

abbrev colon : Char
colon = ":"

colon_cons : (x : String) → ":" <> x ≡ colon ∷ x
colon_cons x = cons-append colon [] x ∙ ap (λ s. colon ∷ s) (nil-append x)

first_colon : (x : String) → [] <> (":" <> x) ≡ colon ∷ x
first_colon x = nil-append (":" <> x) ∙ colon_cons x

-- Two texts that go on with a colon are cut at the first one alike.
pub cut_at_colon :
    (a b x y : String)
    → NoColon a
    → NoColon b
    → a <> (":" <> x) ≡ b <> (":" <> y)
    → (a ≡ b) × (x ≡ y)
cut_at_colon [] [] x y h k e = (refl, tail-eq_of_cons-eq (sym (first_colon x) ∙ e ∙ first_colon y))
cut_at_colon [] (d ∷ b) x y h k e =
    let same = head-eq_of_cons-eq (sym (first_colon x) ∙ e ∙ cons-append d b (":" <> y)) in
    absurd (k.0 (ap code (sym same)))
cut_at_colon (c ∷ a) [] x y h k e =
    let same = head-eq_of_cons-eq (sym (cons-append c a (":" <> x)) ∙ e ∙ first_colon y) in
    absurd (h.0 (ap code same))
cut_at_colon (c ∷ a) (d ∷ b) x y h k e =
    let whole = sym (cons-append c a (":" <> x)) ∙ e ∙ cons-append d b (":" <> y) in
    let (rest, tail) = cut_at_colon a b x y h.1 k.1 (tail-eq_of_cons-eq whole) in
    (ap₂ (λ p s. p ∷ s) (head-eq_of_cons-eq whole) rest, tail)

or_text_of_ne : (s d : String) → s ≢ "" → or_text s d ≡ s
or_text_of_ne s d h = rw (ne→test s "" h)

-- Two logical steps never share an idempotency key: for tenant and execution ids that are not
-- empty and hold no colon, and step ids that are not empty, equal keys come from equal ids.
pub generate_step_idempotency_key_injective :
    (t e s t' e' s' : String)
    → (t ≢ "") × NoColon t
    → (e ≢ "") × NoColon e
    → s ≢ ""
    → (t' ≢ "") × NoColon t'
    → (e' ≢ "") × NoColon e'
    → s' ≢ ""
    → generate_step_idempotency_key t e s ≡ generate_step_idempotency_key t' e' s'
    → (t ≡ t') × (e ≡ e') × (s ≡ s')
unfolding generate_step_idempotency_key
generate_step_idempotency_key_injective t e s t' e' s' (ht, ct) (he, ce) hs (ht', ct') (he', ce')
      hs' same =
    let plain : t <> (":" <> (e <> (":" <> s))) ≡ t' <> (":" <> (e' <> (":" <> s'))) =
      append_cancel_left "forgegate:" _ _ (
        cc (
          same,
          or_text_of_ne t "default" ht,
          or_text_of_ne e "unknown-exec" he,
          or_text_of_ne s "unknown-step" hs,
          or_text_of_ne t' "default" ht',
          or_text_of_ne e' "unknown-exec" he',
          or_text_of_ne s' "unknown-step" hs',
        )) in
    let (first, more) = cut_at_colon t t' _ _ ct ct' plain in
    let (second, third) = cut_at_colon e e' s s' ce ce' more in (first, second, third)
