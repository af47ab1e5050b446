-- ===== src/Hardening/Origins.antt =====
-- The setting of the allowed origins of http-hardening.ts.
use Prim.Native.Char.{Char}
use forge_gate.Base.{
  String, ◌<>◌, false, ◌||◌, some, List, [], ◌∷◌, All, includes, ◌≡◌, ◌≢◌, refl, ◌=ₛ◌, ne→test,
}
use forge_gate.Js.Text.{trim}
use forge_gate.Js.Split.{Lacks, split, split_of_Lacks, split-append}
use forge_gate.Hardening.{trimmed_origins, allowed_origins, is_origin_allowed}

abbrev comma : Char
comma = ","

-- `xs.join(',')`
abbrev pub join_commas : List String → String
join_commas [] = ""
join_commas (o ∷ []) = o
join_commas (o ∷ p ∷ rest) = o <> (String.◌∷◌ comma (join_commas (p ∷ rest)))

-- A text that can stand in the setting: not empty, without a comma and without space around it.
abbrev pub IsListable : String → Type 0
IsListable o = (o ≢ "") × Lacks 44 o × (trim o ≡ o)

trimmed-cons :
    (o : String) (rest : List String)
    → IsListable o
    → trimmed_origins (o ∷ rest) ≡ o ∷ trimmed_origins rest
unfolding trimmed_origins
trimmed-cons o rest listable = rw (listable.2, ne→test o "" listable.0) refl

trimmed_nil : trimmed_origins [] ≡ []
unfolding trimmed_origins
trimmed_nil = refl

split-join_commas :
    (o : String) (os : List String)
    → All IsListable (o ∷ os)
    → trimmed_origins (split 44 (join_commas (o ∷ os))) ≡ o ∷ os
split-join_commas o [] all =
    rw (split_of_Lacks 44 o all.0.1, trimmed-cons o [] all.0, trimmed_nil) refl
split-join_commas o (p ∷ os) all =
    rw (split-append 44 comma o (join_commas (p ∷ os)) refl all.0.1)
      (rw (trimmed-cons o _ all.0, split-join_commas p os all.1) refl)

not_blank : (s : String) → (trim s =ₛ "") ≡ false → (s =ₛ "") ≡ false
unfolding trim
not_blank s full = ne→test s "" (λ e. let blank = rw e at full in cc)

allowed_origins-split :
    (s node_env : String)
    → (trim s =ₛ "") ≡ false
    → allowed_origins (some s) node_env ≡ trimmed_origins (split 44 s)
unfolding allowed_origins
allowed_origins-split s node_env full = rw (not_blank s full) (rw full refl)

-- Where the setting joins origins by commas, in which there is neither a comma nor space around, and
-- is not blank, a request with an origin is let through exactly when the origin or "*" is listed.
pub is_origin_allowed-join_commas :
    (o : String) (os : List String) (node_env origin : String)
    → All IsListable (o ∷ os)
    → (trim (join_commas (o ∷ os)) =ₛ "") ≡ false
    → origin ≢ ""
    → is_origin_allowed (allowed_origins (some (join_commas (o ∷ os))) node_env) (some origin)
      ≡ (includes (o ∷ os) "*" || includes (o ∷ os) origin)
unfolding is_origin_allowed
is_origin_allowed-join_commas o os node_env origin all full asked =
    rw (allowed_origins-split _ node_env full, split-join_commas o os all)
      (rw (ne→test origin "" asked) (rw (ne→test origin "" asked) refl))
