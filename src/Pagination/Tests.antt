-- ===== src/Pagination/Tests.antt =====
-- Pages of short lists, and the theorems at inputs where the hypotheses hold.
use forge_gate.Base.{String, ◌≡◌, refl, none, some, List, [], ◌∷◌, length, ltb, if◌then◌else◌}
use forge_gate.Pagination.{build_paginated_result, page_of, safe_limit}
use forge_gate.Pagination.Pages.{build_paginated_result_cursor}

abbrev letters : List String
letters = "a" ∷ "b" ∷ "c" ∷ "d" ∷ "e" ∷ []

abbrev same : String → String
same s = s

second_page :
    (page_of same letters (record { limit = 2; skip = 2; cursor = none })).items ≡ "c" ∷ "d" ∷ []
unfolding page_of build_paginated_result
second_page = refl

build_paginated_result_cursor_example :
    (build_paginated_result letters 2 (some same) none none).pagination.next_cursor
    ≡ (if ltb (safe_limit 2) (length letters) then some "b" else none)
unfolding build_paginated_result
build_paginated_result_cursor_example =
    build_paginated_result_cursor letters 2 same none none "b" refl
