-- ===== src/Tenants/Pagination/Walk.antt =====
-- A reader that asks for one page after the other.
use automatebro.Prelude.{
  ℕ, zero, suc, ◌+◌, ◌-◌, ◌*◌, ◌≤◌, ◌≡◌, sym, ap, ◌∙◌, false, Option, none, some, List, [], ◌++◌,
  arith, ltb, if◌then◌else◌, length, take, drop, take-append-drop, drop-drop, drop-all, Bool-cases,
  inl, inr,
}
use native.Mathlib.Nat.{add-mul}
use automatebro.Tenants.Pagination.{Paginated, normalise_pagination, paginate, max_of}

pub normalise_pagination-bounds :
    (page page_size : Option ℕ)
    → let n = normalise_pagination page page_size in
      (1 ≤ n.page) × (1 ≤ n.page_size) × (n.page_size ≤ 5000)
unfolding normalise_pagination
normalise_pagination-bounds page page_size = ground arith

module _ {ℓ} {A : Type ℓ} (rows : List A) (page_size : Option ℕ) where
  -- The rows under a limit and a skip.
  abbrev pub query : ℕ → ℕ → List A
  query limit skip = take limit (drop skip rows)

  abbrev pub page_at : ℕ → Paginated A
  page_at page = paginate query (length rows) (some page) page_size

  -- The items of the pages from `page` on, while there is a next one; at most `fuel` pages.
  abbrev pub walk : ℕ → ℕ → List A
  walk zero page = []
  walk (suc fuel) page =
      let rest = walk fuel (page + 1) in
      (page_at page).items ++ (if (page_at page).has_next then rest else [])

  abbrev size : ℕ
  size = (normalise_pagination none page_size).page_size

  next_row : (n : ℕ) → (n + 1) * size ≡ n * size + size
  next_row n = add-mul n 1 size ∙ omega arith

  size-pos : 1 ≤ size
  size-pos = (normalise_pagination-bounds none page_size).1

  items_at : (n : ℕ) → (page_at (n + 1)).items ≡ take size (drop (n * size) rows)
  items_at n =
      unfold paginate in
      unfold normalise_pagination in ap (λ k. take size (drop (k * size) rows)) (first n)
    where
      first : (n : ℕ) → max_of 1 (n + 1) - 1 ≡ n
      first n = ground arith

  has_next_at : (n : ℕ) → (page_at (n + 1)).has_next ≡ ltb (n * size + size) (length rows)
  has_next_at n =
      unfold paginate in
      unfold normalise_pagination in
      ap (λ k. ltb k (length rows))
        (ap (λ k. k * (normalise_pagination none page_size).page_size) (same n) ∙ next_row n)
    where
      same : (n : ℕ) → max_of 1 (n + 1) ≡ n + 1
      same n = ground arith

  -- What a page and the rest make.
  page_and_rest :
      (n : ℕ)
      → take size (drop (n * size) rows) ++ drop (n * size + size) rows ≡ drop (n * size) rows
  page_and_rest n =
      ap (λ xs. take size (drop (n * size) rows) ++ xs) (sym (drop-drop size (n * size) rows))
      ∙ take-append-drop size (drop (n * size) rows)

  -- The pages from the one whose rows begin after `n` full ones.
  walk_from :
      (fuel n : ℕ) → length rows ≤ n * size + fuel → walk (suc fuel) (n + 1) ≡ drop (n * size) rows
  walk_from zero n enough =
      rw (items_at n, has_next_at n, last (n * size) size-pos enough)
        (ap (λ xs. take size (drop (n * size) rows) ++ xs)
            (sym (drop-all (n * size + size) rows (omega (arith, enough))))
          ∙ page_and_rest n)
    where
      last : (k : ℕ) → 1 ≤ size → length rows ≤ k + 0 → ltb (k + size) (length rows) ≡ false
      last k p l = ground (arith, p, l)
  walk_from (suc fuel) n enough = elim (Bool-cases (ltb (n * size + size) (length rows))) [
    | inl more ↦
        rw (items_at n, has_next_at n, more)
          (ap (λ xs. take size (drop (n * size) rows) ++ xs)
              (walk_from fuel (n + 1) (omega (arith, next_row n, enough, size-pos))
                ∙ ap (λ k. drop k rows) (next_row n))
            ∙ page_and_rest n)
    | inr done ↦
        rw (items_at n, has_next_at n, done)
          (ap (λ xs. take size (drop (n * size) rows) ++ xs)
              (sym (drop-all (n * size + size) rows (ground (arith, done))))
            ∙ page_and_rest n)
  ]

  -- Walking the pages from the first one while there is a next one, over rows that do not change,
  -- gives every row just once, in order, and as many pages as there are rows and one more are
  -- enough.
  pub walk-all : walk (suc (length rows)) 1 ≡ rows
  walk-all = walk_from (length rows) 0 (omega arith) ∙ ap (λ k. drop k rows) none_before
    where
      none_before : 0 * size ≡ 0
      none_before = omega arith
