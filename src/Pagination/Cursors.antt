-- ===== src/Pagination/Cursors.antt =====
-- Who follows the cursors of a listing sees every row once.
use mathlib.Core.List.{append-nil}
use forge_gate.Base.{
  any, ℕ, zero, suc, ◌+◌, ◌≤◌, ◌<◌, String, Bool, true, false, Option, none, some, List, [], ◌∷◌,
  ◌++◌, ◌≡◌, refl, sym, ap, ◌∙◌, ◌⊎◌, length, take, drop, filter, length-append, length-take,
  take-append-drop, take_of_le, take-take, ltb, ltb→lt, ◌=ₛ◌, if◌then◌else◌, arith, Bool-cases, inl,
  inr, eq_refl, eq_iff,
}
use forge_gate.Pagination.{
  PaginatedResult, max_page_size, safe_limit, last?, build_paginated_result,
}
use forge_gate.Pagination.Pages.{
  safe_limit-eq, built_fields, built_last, build_paginated_result_cursor,
}
use forge_gate.Pagination.Query.{Table, Rows, since, page_of_rows, args_of}

module _ {ℓ} {A : Type ℓ} where
  append_assoc : (xs ys zs : List A) → (xs ++ ys) ++ zs ≡ xs ++ (ys ++ zs)
  append_assoc [] ys zs = refl
  append_assoc (x ∷ xs) ys zs = ap (λ r. x ∷ r) (append_assoc xs ys zs)

  -- A list that is not empty, with its last element apart.
  last_of :
      (x : A) (xs : List A)
      → (init : List A) × (y : A) × (last? (x ∷ xs) ≡ some y) × (x ∷ xs ≡ init ++ (y ∷ []))
  last_of x [] = ([], x, refl, refl)
  last_of x (z ∷ xs) =
      let (init, y, last, parts) = last_of z xs in (x ∷ init, y, last, ap (λ r. x ∷ r) parts)

  last_of_some :
      (xs : List A)
      → 1 ≤ length xs
      → (init : List A) × (y : A) × (last? xs ≡ some y) × (xs ≡ init ++ (y ∷ []))
  last_of_some [] h = absurd (omega arith)
  last_of_some (x ∷ xs) h = last_of x xs

module _ {Row : Type 0} (row_id : Row → String) where
  -- The rows have different names.
  abbrev pub IsUnique : List Row → Type 0
  IsUnique [] = Unit
  IsUnique (x ∷ xs) = (any (λ r. row_id r =ₛ row_id x) xs ≡ false) × IsUnique xs

  any-later :
      (p x : Row) (pre post : List Row)
      → any (λ r. row_id r =ₛ row_id p) (pre ++ (x ∷ post)) ≡ false
      → (row_id p =ₛ row_id x) ≡ false
  any-later p x [] post h =
      let back = eq_refl (row_id x) in
      ground (arith, eq_iff (row_id x) (row_id p), eq_iff (row_id p) (row_id x))
  any-later p x (y ∷ pre) post h = any-later p x pre post (ground arith)

  since-append :
      (pre : List Row) (x : Row) (post : List Row)
      → IsUnique (pre ++ (x ∷ post))
      → (any (λ r. row_id r =ₛ row_id x) (pre ++ (x ∷ post)) ≡ true)
        × (since (λ r. row_id r =ₛ row_id x) (pre ++ (x ∷ post)) ≡ x ∷ post)
  since-append [] x post unique = rw (eq_refl (row_id x)) (refl, refl)
  since-append (p ∷ pre) x post (new, unique) =
      let other = any-later p x pre post new in rw other (since-append pre x post unique)

module _ {Db Row : Type 0} (t : Table Db Row) (ordered : Rows t) (filter_of : Row → Bool) (db : Db)
    (limit : ℕ) where
  abbrev page_at : Option String → PaginatedResult Row
  page_at cursor = page_of_rows t filter_of (record { limit = limit; skip = 0; cursor = cursor }) db

  abbrev pub asked_for : List Row
  asked_for = filter filter_of (ordered.rows db)

  -- The page that is built of the first of some rows.
  abbrev built_page : List Row → PaginatedResult Row
  built_page rest =
      build_paginated_result (take (limit + 1) rest) limit (some t.row_id)
        (some (t.count filter_of db)) (some 0)

  -- A client that asks on with the cursor of each page while there is one.
  pub follow_cursors : ℕ → Option String → List Row
  follow_cursors zero cursor = []
  follow_cursors (suc fuel) cursor =
      let p = page_at cursor in
      p.items
      ++ elim p.pagination.next_cursor [ none ↦ [] | some id ↦ follow_cursors fuel (some id) ]

  -- A page of the rows `rest`, as a page is asked for and built.
  abbrev IsPageOf : List Row → PaginatedResult Row → Type 0
  IsPageOf rest page =
      (page.items ≡ take limit rest)
      × (((init : List Row) × (y : Row) × (ltb limit (length rest) ≡ true)
            × (take limit rest ≡ init ++ (y ∷ []))
            × (page.pagination.next_cursor ≡ some (t.row_id y)))
          ⊎ ((ltb limit (length rest) ≡ false) × (page.pagination.next_cursor ≡ none)))

  built-IsPageOf :
      (rest : List Row) → 1 ≤ limit → limit ≤ max_page_size → IsPageOf rest (built_page rest)
  built-IsPageOf rest low high =
      let fetched = take (limit + 1) rest in
      let total = some (t.count filter_of db) in
      let (items, _) = built_fields fetched limit t.row_id total (some 0) in
      let first =
        items
        ∙ ap (λ n. take n fetched) (safe_limit-eq limit low high)
        ∙ take-take limit (limit + 1) rest (omega arith) in
      let more : ltb (safe_limit limit) (length fetched) ≡ ltb limit (length rest) =
        ground (arith, safe_limit-eq limit low high, length-take (limit + 1) rest) in
      elim (Bool-cases (ltb limit (length rest))) [
        | inl over ↦
            let longer = ltb→lt _ _ over in
            let (init, y, last, parts) =
              last_of_some (take limit rest) (omega (arith, length-take limit rest, longer)) in
            let next =
              build_paginated_result_cursor fetched limit t.row_id total (some 0) y
                (ap last? first ∙ last) in
            (
              first,
              inl (
                init,
                y,
                over,
                parts,
                next ∙ ap (λ c. if c then some (t.row_id y) else none) (more ∙ over),
              ),
            )
        | inr fits ↦
            (first, inr (fits, built_last fetched limit t.row_id total (some 0) (more ∙ fits)))
      ]

  page_at-none : page_at none ≡ built_page asked_for
  unfolding page_of_rows args_of
  page_at-none =
      ap
        (λ rows.
          build_paginated_result rows limit (some t.row_id) (some (t.count filter_of db)) (some 0))
        (ordered.find_many_lem filter_of 0 (limit + 1) db)

  page_at-some :
      (pre : List Row) (x : Row) (post : List Row)
      → asked_for ≡ pre ++ (x ∷ post)
      → IsUnique t.row_id asked_for
      → page_at (some (t.row_id x)) ≡ built_page post
  unfolding page_of_rows args_of
  page_at-some pre x post parts unique =
      let (there, from_x) = since-append t.row_id pre x post (rw⁻¹ parts unique) in
      let test = λ (r : Row). t.row_id r =ₛ t.row_id x in
      ap
        (λ rows.
          build_paginated_result rows limit (some t.row_id) (some (t.count filter_of db)) (some 0))
        (ordered.find_many_from filter_of (t.row_id x) 1 (limit + 1) db
            (ap (any test) parts ∙ there)
          ∙ ap (λ rows. take (limit + 1) (drop 1 rows)) (ap (since test) parts ∙ from_x))

  -- What a client gets from a page of `rest` on, if it gets all that follows a row from its cursor.
  from_page :
      (rest : List Row) (page : PaginatedResult Row) (fuel : ℕ)
      → IsPageOf rest page
      → ((init : List Row) (y : Row) (post : List Row)
          → rest ≡ init ++ (y ∷ post)
          → length post < length rest
          → follow_cursors fuel (some (t.row_id y)) ≡ post)
      → (page.items ++ elim page.pagination.next_cursor [
        | none ↦ []
        | some id ↦ follow_cursors fuel (some id)
      ])
        ≡ rest
  from_page rest page fuel (items, inr (fits, last)) follows =
      rw (items, last) (append-nil (take limit rest) ∙ take_of_le limit rest (ground arith))
  from_page rest page fuel (items, inl (init, y, over, parts, next)) follows =
      let post = drop limit rest in
      let longer = ltb→lt _ _ over in
      let whole : rest ≡ init ++ (y ∷ post) =
        sym (take-append-drop limit rest)
        ∙ ap (λ xs. xs ++ post) parts
        ∙ append_assoc init (y ∷ []) post in
      let fewer : length post < length rest =
        omega (arith, ap length whole, length-append init (y ∷ post)) in
      rw (items, next)
        (ap (λ xs. take limit rest ++ xs) (follows init y post whole fewer)
          ∙ take-append-drop limit rest)

  following :
      (fuel : ℕ) (pre : List Row) (x : Row) (rest : List Row)
      → 1 ≤ limit
      → limit ≤ max_page_size
      → IsUnique t.row_id asked_for
      → asked_for ≡ pre ++ (x ∷ rest)
      → length rest < fuel
      → follow_cursors fuel (some (t.row_id x)) ≡ rest
  unfolding follow_cursors
  following zero pre x rest low high unique parts h = absurd (omega arith)
  following (suc fuel) pre x rest low high unique parts h =
      rw (page_at-some pre x rest parts unique) (
        from_page rest (built_page rest) fuel (built-IsPageOf rest low high) (λ init y post e fewer.
          following fuel (pre ++ (x ∷ init)) y post low high unique
            (parts ∙ ap (λ r. pre ++ (x ∷ r)) e ∙ sym (append_assoc pre (x ∷ init) (y ∷ post)))
            (omega (arith, fewer))))

  -- Where the rows that are asked for have different names, a client that follows the cursors of the
  -- pages, each of 1 to 100 rows, gets just these rows in their order: none is left out or repeated.
  -- Enough fuel is one round for each row and one more.
  pub follow_cursors-eq :
      (fuel : ℕ)
      → 1 ≤ limit
      → limit ≤ max_page_size
      → IsUnique t.row_id asked_for
      → length asked_for < fuel
      → follow_cursors fuel none ≡ asked_for
  unfolding follow_cursors
  follow_cursors-eq zero low high unique h = absurd (omega arith)
  follow_cursors-eq (suc fuel) low high unique h = rw page_at-none (
      from_page asked_for (built_page asked_for) fuel (built-IsPageOf asked_for low high)
        (λ init y post e fewer.
          following fuel init y post low high unique e (omega (arith, fewer))))
