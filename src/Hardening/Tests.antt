-- ===== src/Hardening/Tests.antt =====
-- Settings of the origins, methods and headers.
use forge_gate.Base.{
  String, false, ◌||◌, none, some, List, [], ◌∷◌, includes, ◌≡◌, refl, ne_of_test, arith,
}
use forge_gate.Js.Text.{trim, to_upper}
use forge_gate.Hardening.{allowed_origins, is_origin_allowed, check_method}
use forge_gate.Hardening.Origins.{join_commas, is_origin_allowed-join_commas}

abbrev two_origins : List String
two_origins = "https://b.example" ∷ []

is_origin_allowed-join_commas_example :
    is_origin_allowed
      (allowed_origins (some (join_commas ("https://a.example" ∷ two_origins))) "production")
      (some "https://evil.example")
    ≡ (includes ("https://a.example" ∷ two_origins) "*"
        || includes ("https://a.example" ∷ two_origins) "https://evil.example")
unfolding trim
is_origin_allowed-join_commas_example =
    is_origin_allowed-join_commas "https://a.example" two_origins "production"
      "https://evil.example"
      (
        (ne_of_test "https://a.example" "" refl, omega arith, refl),
        ((ne_of_test "https://b.example" "" refl, omega arith, refl), tt),
      )
      refl (ne_of_test "https://evil.example" "" refl)

closed_in_production :
    is_origin_allowed (allowed_origins none "production") (some "http://localhost:3000") ≡ false
unfolding is_origin_allowed allowed_origins trim
closed_in_production = refl

method_passes : check_method "patch" ≡ none
unfolding check_method to_upper
method_passes = refl
