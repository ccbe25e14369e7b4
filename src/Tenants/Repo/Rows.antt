-- ===== src/Tenants/Repo/Rows.antt =====
-- The rows of a tenant, and what a write of another tenant does to them.
use automatebro.Prelude.{
  String, ◌≡◌, ◌≢◌, refl, sym, ap, ◌∙◌, inl, inr, Bool, false, Option, none, some, List, [], ◌∷◌,
  ◌++◌, keep, str_eq, eq_iff, Bool-cases,
}
use mathlib.Core.List.{append-nil}
use text.Mathlib.TextPositions.{eq_refl}
use automatebro.Webhooks.Json.{Json, string}
use automatebro.Tenants.Repo.{
  Doc, Update, Matches, Replaced, Upserted, Deleted, get_key, put, strip, with_tenant, sanitised,
}

-- The tenant that a row names.
abbrev pub is_text_of : String → Option Json → Bool
is_text_of tenant (some (string s)) = str_eq s tenant
is_text_of tenant _ = false

abbrev pub is_of : String → Doc → Bool
is_of tenant row = is_text_of tenant (get_key "tenantId" row)

-- What a tenant has in a collection.
abbrev pub rows_of : String → List Doc → List Doc
rows_of tenant rows = keep (is_of tenant) rows

pub get_key-put : (key : String) (v : Json) (doc : Doc) → get_key key (put key v doc) ≡ some v
get_key-put key v [] = rw (eq_refl key)
get_key-put key v ((k, w) ∷ rest) = elim (Bool-cases (str_eq k key)) [
  | inl e ↦ rw e (rw (eq_refl key))
  | inr e ↦ rw e (rw e (get_key-put key v rest))
]

get_key-strip : (key : String) (doc : Doc) → get_key key (strip key doc) ≡ none
get_key-strip key [] = refl
get_key-strip key ((k, w) ∷ rest) = elim (Bool-cases (str_eq k key)) [
  | inl e ↦ rw e (get_key-strip key rest)
  | inr e ↦ rw e (rw e (get_key-strip key rest))
]

pub keep-append : (p : Doc → Bool) (xs ys : List Doc) → keep p (xs ++ ys) ≡ keep p xs ++ keep p ys
keep-append p [] ys = refl
keep-append p (x ∷ xs) ys = elim (Bool-cases (p x)) [
  | inl e ↦ rw e (rw (keep-append p xs ys))
  | inr e ↦ rw e (keep-append p xs ys)
]

pub own :
    (tenant : String) (filter row : Doc)
    → Matches (with_tenant filter tenant) row
    → get_key "tenantId" row ≡ some (string tenant)
unfolding with_tenant
own tenant filter row m = m "tenantId" tenant (get_key-put "tenantId" (string tenant) filter)

module _ (tenant other : String) (apart : tenant ≢ other) where
  pub foreign :
      (row : Doc) → get_key "tenantId" row ≡ some (string tenant) → is_of other row ≡ false
  foreign row e = rw e (elim (Bool-cases (str_eq tenant other)) [
    | inl q ↦ absurd (apart ((eq_iff tenant other).0 q))
    | inr q ↦ q
  ])

  -- A row of the tenant's among others is not the other's.
  without :
      (before after : List Doc) (row : Doc)
      → is_of other row ≡ false
      → rows_of other (before ++ row ∷ after) ≡ rows_of other (before ++ after)
  without before after row e =
      keep-append (is_of other) before (row ∷ after)
      ∙ (rw e (sym (keep-append (is_of other) before after)))

  pub appended :
      (rows : List Doc) (row : Doc)
      → is_of other row ≡ false
      → rows_of other (rows ++ row ∷ []) ≡ rows_of other rows
  appended rows row e = without rows [] row e ∙ ap (rows_of other) (append-nil rows)

  pub Replaced-apart :
      (filter : Doc) (u : Update) (rows rows' : List Doc)
      → get_key "tenantId" u.inc ≡ none
      → get_key "tenantId" u.unset ≡ none
      → Replaced (with_tenant filter tenant) (sanitised u) rows rows'
      → rows_of other rows' ≡ rows_of other rows
  unfolding sanitised
  Replaced-apart filter u rows rows' i d r =
      rw (r.was, r.is)
        (without r.before r.after r.row' (foreign r.row' kept)
          ∙ sym
              (without r.before r.after r.row (foreign r.row (own tenant filter r.row r.matches))))
    where
      kept : get_key "tenantId" r.row' ≡ some (string tenant)
      kept =
          r.keeps "tenantId" (get_key-strip "tenantId" u.set, i, d)
          ∙ own tenant filter r.row r.matches

  pub Upserted-apart :
      (filter : Doc) (u : Update) (rows rows' : List Doc)
      → get_key "tenantId" u.inc ≡ none
      → get_key "tenantId" u.unset ≡ none
      → Upserted (with_tenant filter tenant) (sanitised u) rows rows'
      → rows_of other rows' ≡ rows_of other rows
  unfolding sanitised with_tenant
  Upserted-apart filter u rows rows' i d r = rw r.is (
      appended rows r.row' (
        foreign r.row' (
          r.made "tenantId" tenant (get_key-strip "tenantId" u.set, i, d)
            (get_key-strip "tenantId" u.set_on_insert)
            (get_key-put "tenantId" (string tenant) filter))))

  pub Deleted-apart :
      (filter : Doc) (rows rows' : List Doc)
      → Deleted (with_tenant filter tenant) rows rows'
      → rows_of other rows' ≡ rows_of other rows
  Deleted-apart filter rows rows' r =
      rw (r.was, r.is)
        (sym (without r.before r.after r.row (foreign r.row (own tenant filter r.row r.matches))))
