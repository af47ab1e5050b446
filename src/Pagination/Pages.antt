-- ===== src/Pagination/Pages.antt =====
-- A page is a piece of the list, and the pages together are the list.
use mathlib.Core.List.{append-nil}
use forge_gate.Base.{
  ℕ, zero, suc, ◌+◌, ◌-◌, ◌≤◌, ◌<◌, String, ◌≡◌, refl, false, ◌↔◌, sym, ap, ◌∙◌, true, Option, none,
  some, List, [], ◌++◌, length, take, drop, length-take, length-drop, take-append-drop, take_of_le,
  take-take, drop-drop, ltb→lt, arith, ltb, if◌then◌else◌, Bool-cases, inl, inr,
}
use forge_gate.Pagination.{
  PaginatedResult, safe_limit, max_page_size, last?, build_paginated_result, page_of,
}

pub safe_limit-eq : (limit : ℕ) → 1 ≤ limit → limit ≤ max_page_size → safe_limit limit ≡ limit
safe_limit-eq limit low high = ground arith

module _ {ℓ} {T : Type ℓ} (items : List T) (limit : ℕ) (f : T → String)
    (total skip : Option ℕ) where
  abbrev pub built : PaginatedResult T
  built = build_paginated_result items limit (some f) total skip

  pub built_fields :
      (built.items ≡ take (safe_limit limit) items)
      × (built.pagination.has_more ≡ ltb (safe_limit limit) (length items))
  unfolding build_paginated_result
  built_fields = elim (Bool-cases (ltb (safe_limit limit) (length items))) [
    | inl over ↦ rw over (refl, refl)
    | inr fits ↦ rw fits (sym (take_of_le (safe_limit limit) items (ground arith)), refl)
  ]

  pub built_last :
      ltb (safe_limit limit) (length items) ≡ false → built.pagination.next_cursor ≡ none
  unfolding build_paginated_result
  built_last fits = rw fits refl

  -- A page never holds more than its limit, which is at most 100; it is the head of what was
  -- fetched; there is more exactly when something was left out.
  pub build_paginated_result_page :
      (built.items ≡ take built.pagination.limit items)
      × (length built.items ≤ built.pagination.limit)
      × (built.pagination.limit ≤ max_page_size)
      × ((built.pagination.has_more ≡ true) ↔ (length built.items < length items))
  unfolding build_paginated_result
  build_paginated_result_page =
      let n = safe_limit limit in
      elim (Bool-cases (ltb n (length items))) [
        | inl over ↦ rw over (
          refl,
          omega (arith, length-take n items),
          omega arith,
          ((λ _. omega (arith, length-take n items, ltb→lt _ _ over)), λ _. refl),
        )
        | inr fits ↦ rw fits (
          sym (take_of_le n items (ground arith)),
          ground arith,
          omega arith,
          ((λ e. cc), λ h. absurd (omega arith)),
        )
      ]

  -- The cursor of the next page is the name of the last item of this one, if there is more.
  pub build_paginated_result_cursor :
      (x : T)
      → last? built.items ≡ some x
      → built.pagination.next_cursor
        ≡ (if ltb (safe_limit limit) (length items) then some (f x) else none)
  unfolding build_paginated_result
  build_paginated_result_cursor x h = ground arith

module _ {ℓ} {T : Type ℓ} (f : T → String) (xs : List T) (limit : ℕ) where
  abbrev page : ℕ → PaginatedResult T
  page skip = page_of f xs (record { limit = limit; skip = skip; cursor = none })

  page_of_lem :
      (skip : ℕ)
      → 1 ≤ limit
      → limit ≤ max_page_size
      → ((page skip).items ≡ take limit (drop skip xs))
        × ((page skip).pagination.has_more ≡ ltb limit (length (drop skip xs)))
  unfolding page_of
  page_of_lem skip low high =
      let rest = drop skip xs in
      let ys = take (limit + 1) rest in
      let (items, more) = built_fields ys limit f (some (length xs)) (some skip) in
      (
        items
            ∙ ap (λ n. take n ys) (safe_limit-eq limit low high)
            ∙ take-take limit (limit + 1) rest (omega arith),
        more ∙ ground (arith, safe_limit-eq limit low high, length-take (limit + 1) rest),
      )

  -- A client that asks for page after page while there is more.
  pub all_pages : ℕ → ℕ → List T
  all_pages zero skip = []
  all_pages (suc fuel) skip =
      let p = page skip in
      let rest = all_pages fuel (skip + limit) in
      p.items ++ (if p.pagination.has_more then rest else [])

  -- For every limit from 1 to 100, the pages that a client gets by asking on while there is more
  -- are, one after the other, the list from where it started: nothing is left out or shown twice.
  -- Enough fuel is one round for each item and one more.
  pub all_pages-eq :
      (fuel skip : ℕ)
      → 1 ≤ limit
      → limit ≤ max_page_size
      → length xs - skip < fuel
      → all_pages fuel skip ≡ drop skip xs
  unfolding all_pages
  all_pages-eq zero skip low high h = absurd (omega arith)
  all_pages-eq (suc fuel) skip low high h =
      let rest = drop skip xs in
      let (items, more) = page_of_lem skip low high in
      elim (Bool-cases (ltb limit (length rest))) [
        | inl over ↦ rw items (
            rw (more ∙ over) (
              ap (λ ys. take limit rest ++ ys)
                (all_pages-eq fuel (skip + limit) low high
                    (omega (arith, ltb→lt _ _ over, length-drop skip xs))
                  ∙ sym (drop-drop limit skip xs))
              ∙ take-append-drop limit rest))
        | inr last ↦
            rw items (
              rw (more ∙ last)
                (append-nil (take limit rest) ∙ take_of_le limit rest (ground arith)))
      ]
