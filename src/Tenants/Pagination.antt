-- ===== src/Tenants/Pagination.antt =====
-- packages/shared/src/db/pagination.ts: the pages of a list. A page and a size enter as natural numbers;
-- fractions, negative numbers and NaN are left out.
pub mod Walk
use automatebro.Prelude.{ℕ, ◌+◌, ◌-◌, ◌*◌, Bool, Option, List, ltb, or_default, if◌then◌else◌}

pub record Paginated {ℓ} (A : Type ℓ) : Type ℓ where
  pub items : List A
  pub total : ℕ
  pub page : ℕ
  pub page_size : ℕ
  pub has_next : Bool

abbrev pub default_page_size : ℕ
default_page_size = 25

abbrev pub max_page_size : ℕ
max_page_size = 5000

-- `Math.max`, `Math.min`
abbrev pub max_of : ℕ → ℕ → ℕ
max_of a b = if ltb a b then b else a

abbrev pub min_of : ℕ → ℕ → ℕ
min_of a b = if ltb b a then b else a

pub record Normalised : Type 0 where
  pub page : ℕ
  pub page_size : ℕ
  pub skip : ℕ

unfoldable pub normalise_pagination : Option ℕ → Option ℕ → Normalised
normalise_pagination page page_size =
    let p = max_of 1 (or_default page 1) in
    let size = max_of 1 (min_of max_page_size (or_default page_size default_page_size)) in
    record { page = p; page_size = size; skip = (p - 1) * size }

-- `query` is `repo.queryMany` with a limit and a skip, `total` is what `repo.count` answers.
unfoldable pub paginate {ℓ} :
    {A : Type ℓ} → (ℕ → ℕ → List A) → ℕ → Option ℕ → Option ℕ → Paginated A
unfolding normalise_pagination
paginate query total page page_size =
    let n = normalise_pagination page page_size in
    record {
      items = query n.page_size n.skip;
      total = total;
      page = n.page;
      page_size = n.page_size;
      has_next = ltb (n.page * n.page_size) total;
    }
