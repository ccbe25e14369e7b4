-- ===== src/Tenants/Repo/Memory.antt =====
-- A StrictDB in memory with one collection, which shows that `Db` can hold: a filter is read text by text,
-- an update knows $set and $setOnInsert alone, limit and skip are left out.
use automatebro.Prelude.{
  String, ◌≡◌, refl, sym, ap, ◌∙◌, ◌⊎◌, inl, inr, Bool, true, false, ◌&&◌, keep, eq_iff, Option,
  none, some, List, [], ◌∷◌, ◌++◌, All, arith, str_eq, Bool-cases, if◌then◌else◌,
}
use mathlib.Core.Path.{subst}
use automatebro.Action.{ok}
use automatebro.Webhooks.Json.{Json, string}
use automatebro.Tenants.Repo.{
  Db, Doc, Update, Matches, Among, Replaced, Upserted, Deleted, get_key, put,
}

-- Any value but a text asks for nothing.
abbrev holds : Json → Option Json → Bool
holds (string s) (some (string t)) = str_eq t s
holds (string s) _ = false
holds _ _ = true

abbrev pub matches : Doc → Doc → Bool
matches [] row = true
matches ((k, v) ∷ rest) row = holds v (get_key k row) && matches rest row

holds_text : (s : String) (o : Option Json) → holds (string s) o ≡ true → o ≡ some (string s)
holds_text s (some (string t)) h = ap (λ x. some (string x)) ((eq_iff t s).0 h)
holds_text s o h = absurd (ground arith)

matches-Matches : (f row : Doc) → matches f row ≡ true → Matches f row
matches-Matches [] row m k s e = absurd (ground arith)
matches-Matches ((k', v') ∷ rest) row m k s e = elim (Bool-cases (str_eq k' k)) [
  | inr q ↦ matches-Matches rest row both.1 k s (rw q at e)
  | inl q ↦
      ap (λ x. get_key x row) (sym ((eq_iff k' k).0 q))
      ∙ holds_text s (get_key k' row) (ap (λ v. holds v (get_key k' row)) (sym (asked q)) ∙ both.0)
]
  where
    both : (holds v' (get_key k' row) ≡ true) × (matches rest row ≡ true)
    both = ground (arith, m)

    value_of : {a b : Json} → some a ≡ some b → a ≡ b
    value_of x = cc

    asked : str_eq k' k ≡ true → v' ≡ string s
    asked q = value_of (rw q at e)

-- The values of a document put over another.
abbrev put_all : Doc → Doc → Doc
put_all [] base = base
put_all ((k, v) ∷ rest) base = put k v (put_all rest base)

get_key-put_other :
    (k k' : String) (v : Json) (d : Doc)
    → str_eq k' k ≡ false
    → get_key k (put k' v d) ≡ get_key k d
get_key-put_other k k' v [] q = rw q refl
get_key-put_other k k' v ((l, w) ∷ rest) q = elim (Bool-cases (str_eq l k')) [
  | inl e ↦ rw e (rw q (rw (ap (λ x. str_eq x k) ((eq_iff l k').0 e) ∙ q) refl))
  | inr e ↦ rw e (elim (Bool-cases (str_eq l k)) [
    | inl h ↦ rw h refl
    | inr h ↦ rw h (get_key-put_other k k' v rest q)
  ])
]

get_key-put_all :
    (k : String) (d base : Doc) → get_key k d ≡ none → get_key k (put_all d base) ≡ get_key k base
get_key-put_all k [] base e = refl
get_key-put_all k ((k', v) ∷ rest) base e = elim (Bool-cases (str_eq k' k)) [
  | inl h ↦ absurd (there (rw h at e))
  | inr h ↦ get_key-put_other k k' v (put_all rest base) h ∙ get_key-put_all k rest base (rw h at e)
]
  where
    there : some v ≡ none → ⊥
    there x = cc

abbrev pub found_in : Doc → List Doc → List Doc
found_in f rows = keep (matches f) rows

under : (x : Doc) (rows : List Doc) (row : Doc) → Among rows row → Among (x ∷ rows) row
under x rows row a = record {
  before = x ∷ a.before;
  after = a.after;
  split = ap (λ r. x ∷ r) a.split;
}

All-under :
    (f x : Doc) (rows found : List Doc)
    → All (λ row. Among rows row × Matches f row) found
    → All (λ row. Among (x ∷ rows) row × Matches f row) found
All-under f x rows [] a = tt
All-under f x rows (row ∷ more) ((a, m), ms) = ((under x rows row a, m), All-under f x rows more ms)

pub All-found_in :
    (f : Doc) (rows : List Doc) → All (λ row. Among rows row × Matches f row) (found_in f rows)
All-found_in f [] = tt
All-found_in f (row ∷ rows) = elim (Bool-cases (matches f row)) [
  | inl e ↦ rw e (
    (record { before = []; after = rows; split = refl }, matches-Matches f row e),
    All-under f row rows (found_in f rows) (All-found_in f rows),
  )
  | inr e ↦ rw e (All-under f row rows (found_in f rows) (All-found_in f rows))
]

abbrev upserted : Doc → Update → Doc
upserted f u = put_all u.set (put_all u.set_on_insert f)

-- The first row that matches; none, and an upsert, is an insertion.
abbrev pub update_rows : Doc → Update → Bool → List Doc → List Doc
update_rows f u upsert [] = if upsert then upserted f u ∷ [] else []
update_rows f u upsert (row ∷ rows) =
    let more = update_rows f u upsert rows in
    if matches f row then put_all u.set row ∷ rows else row ∷ more

abbrev pub delete_row : Doc → List Doc → List Doc
delete_row f [] = []
delete_row f (row ∷ rows) =
    let more = delete_row f rows in if matches f row then rows else row ∷ more

abbrev Updated : Doc → Update → List Doc → List Doc → Type 0
Updated f u rows rows' = (rows' ≡ rows) ⊎ (Replaced f u rows rows' ⊎ Upserted f u rows rows')

Updated-under :
    (f : Doc) (u : Update) (x : Doc) (rows rows' : List Doc)
    → Updated f u rows rows'
    → Updated f u (x ∷ rows) (x ∷ rows')
Updated-under f u x rows rows' (inl same) = inl (ap (λ r. x ∷ r) same)
Updated-under f u x rows rows' (inr (inl r)) = inr (
    inl (record {
      before = x ∷ r.before;
      after = r.after;
      row = r.row;
      row' = r.row';
      was = ap (λ y. x ∷ y) r.was;
      is = ap (λ y. x ∷ y) r.is;
      matches = r.matches;
      keeps = r.keeps;
    }))
Updated-under f u x rows rows' (inr (inr r)) =
    inr (inr (record { row' = r.row'; is = ap (λ y. x ∷ y) r.is; made = r.made }))

pub update_rows_lem :
    (f : Doc) (u : Update) (upsert : Bool) (rows : List Doc)
    → Updated f u rows (update_rows f u upsert rows)
update_rows_lem f u false [] = inl refl
update_rows_lem f u true [] = inr (
    inr (record {
      row' = upserted f u;
      is = refl;
      made = λ k s t o e.
          get_key-put_all k u.set (put_all u.set_on_insert f) t.0
          ∙ get_key-put_all k u.set_on_insert f o
          ∙ e;
    }))
update_rows_lem f u upsert (row ∷ rows) = elim (Bool-cases (matches f row)) [
  | inl e ↦ rw e (
      inr (
        inl (record {
          before = [];
          after = rows;
          row = row;
          row' = put_all u.set row;
          was = refl;
          is = refl;
          matches = matches-Matches f row e;
          keeps = λ k t. get_key-put_all k u.set row t.0;
        })))
  | inr e ↦ rw e (Updated-under f u row rows _ (update_rows_lem f u upsert rows))
]

pub delete_row_lem :
    (f : Doc) (rows : List Doc) → (delete_row f rows ≡ rows) ⊎ Deleted f rows (delete_row f rows)
delete_row_lem f [] = inl refl
delete_row_lem f (row ∷ rows) = elim (Bool-cases (matches f row)) [
  | inl e ↦ rw e (
      inr (record {
        before = [];
        after = rows;
        row = row;
        was = refl;
        is = refl;
        matches = matches-Matches f row e;
      }))
  | inr e ↦ rw e (elim (delete_row_lem f rows) [
    | inl same ↦ inl (ap (λ r. row ∷ r) same)
    | inr d ↦ inr (record {
      before = row ∷ d.before;
      after = d.after;
      row = d.row;
      was = ap (λ r. row ∷ r) d.was;
      is = ap (λ r. row ∷ r) d.is;
      matches = d.matches;
    })
  ])
]

pub given : {a b : List Doc} → ok a ≡ ok b → a ≡ b
given q = cc

abbrev pub memory : Db
memory = record {
  State = List Doc;
  rows = λ s c. s;
  query_many = λ s c f o. ok (found_in f s);
  insert_one = λ s c d. ok (s ++ d ∷ []);
  update_one = λ s c f u upsert. ok (update_rows f u upsert s);
  delete_one = λ s c f. ok (delete_row f s);
  queried = λ s c f o found e.
      subst (All (λ row. Among s row × Matches f row)) (given e) (All-found_in f s);
  inserted = λ s s' c d e. record { row' = d; is = sym (given e); has = λ k v q. q };
  updated = λ s s' c f u upsert e. subst (Updated f u s) (given e) (update_rows_lem f u upsert s);
  deleted = λ s s' c f e. subst (λ x. (x ≡ s) ⊎ Deleted f s x) (given e) (delete_row_lem f s);
}
