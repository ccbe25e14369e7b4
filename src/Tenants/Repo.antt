-- ===== src/Tenants/Repo.antt =====
-- packages/shared/src/db/repo.ts over auth/ctx.ts: every access to a collection is bound to the tenant
-- of the request. StrictDB is the parameter `Db`.
pub mod Rows
pub mod Isolation
pub mod Memory
use automatebro.Prelude.{
  ℕ, String, ◌≡◌, ◌⊎◌, Bool, true, Option, none, some, List, [], ◌∷◌, ◌++◌, All, str_eq,
  if◌then◌else◌,
}
use automatebro.Action.{Result, ok, err, plain}
use automatebro.Webhooks.Json.{Json, string}

pub data Role : Type 0 where
  owner admin member : Role

pub record Ctx : Type 0 where
  pub user_id : String
  pub tenant_id : Option String
  pub role : Option Role
  pub email : String
  pub tenant_deleted : Bool

-- `requireTenant`, and the tenant that it asserts.
unfoldable pub require_tenant : Option String → Option Role → Result String
require_tenant (some tenant) (some role) = ok tenant
require_tenant _ _ = err (plain "requireTenant: ctx has no tenantId")

-- A document, a filter, or what is under an operator of an update: values under keys.
abbrev pub Doc : Type 0
Doc = List (String × Json)

abbrev pub get_key : String → Doc → Option Json
get_key key [] = none
get_key key ((k, v) ∷ rest) = if str_eq k key then some v else get_key key rest

-- `{ ...doc, [key]: value }`
abbrev pub put : String → Json → Doc → Doc
put key value [] = (key, value) ∷ []
put key value ((k, v) ∷ rest) =
    let more = put key value rest in if str_eq k key then (key, value) ∷ rest else (k, v) ∷ more

-- `const { [key]: _strip, ...rest } = doc`
abbrev pub strip : String → Doc → Doc
strip key [] = []
strip key ((k, v) ∷ rest) =
    let more = strip key rest in if str_eq k key then more else (k, v) ∷ more

-- The operators of an update.
pub record Update : Type 0 where
  pub set : Doc
  pub set_on_insert : Doc
  pub inc : Doc
  pub unset : Doc

pub record Options : Type 0 where
  pub limit : Option ℕ
  pub skip : Option ℕ

-- A text under a key of a filter asks for an equal text; any other value, an operator for one, is left
-- to StrictDB.
abbrev pub Matches : Doc → Doc → Type 0
Matches filter row =
    (k s : String) → get_key k filter ≡ some (string s) → get_key k row ≡ some (string s)

-- The row is one of the rows.
pub record Among {ℓ} {A : Type ℓ} (rows : List A) (row : A) : Type ℓ where
  pub before : List A
  pub after : List A
  pub split : rows ≡ before ++ row ∷ after

-- No operator names the key.
abbrev pub Untouched : String → Update → Type 0
Untouched k u = (get_key k u.set ≡ none) × (get_key k u.inc ≡ none) × (get_key k u.unset ≡ none)

-- A row that matches is replaced by one that differs in the keys of the update alone.
pub record Replaced (filter : Doc) (u : Update) (rows rows' : List Doc) : Type 0 where
  pub before : List Doc
  pub after : List Doc
  pub row : Doc
  pub row' : Doc
  pub was : rows ≡ before ++ row ∷ after
  pub is : rows' ≡ before ++ row' ∷ after
  pub matches : Matches filter row
  pub keeps : (k : String) → Untouched k u → get_key k row' ≡ get_key k row

-- A row is added that has the texts of the filter, but for those of the update.
pub record Upserted (filter : Doc) (u : Update) (rows rows' : List Doc) : Type 0 where
  pub row' : Doc
  pub is : rows' ≡ rows ++ row' ∷ []
  pub made :
      (k s : String)
      → Untouched k u
      → get_key k u.set_on_insert ≡ none
      → get_key k filter ≡ some (string s)
      → get_key k row' ≡ some (string s)

pub record Deleted (filter : Doc) (rows rows' : List Doc) : Type 0 where
  pub before : List Doc
  pub after : List Doc
  pub row : Doc
  pub was : rows ≡ before ++ row ∷ after
  pub is : rows' ≡ before ++ after
  pub matches : Matches filter row

-- A row is added that has the texts of the document; a schema may add columns.
pub record Inserted (doc : Doc) (rows rows' : List Doc) : Type 0 where
  pub row' : Doc
  pub is : rows' ≡ rows ++ row' ∷ []
  pub has : Matches doc row'

-- What StrictDB documents of its operations on a collection. Any of them may throw.
pub record Db : Type 1 where
  pub State : Type 0
  pub rows : State → String → List Doc
  pub query_many : State → String → Doc → Options → Result (List Doc)
  pub insert_one : State → String → Doc → Result State
  pub update_one : State → String → Doc → Update → Bool → Result State
  pub delete_one : State → String → Doc → Result State
  pub queried :
      (s : State) (c : String) (f : Doc) (o : Options) (found : List Doc)
      → query_many s c f o ≡ ok found
      → All (λ row. Among (rows s c) row × Matches f row) found
  pub inserted :
      (s s' : State) (c : String) (d : Doc)
      → insert_one s c d ≡ ok s'
      → Inserted d (rows s c) (rows s' c)
  pub updated :
      (s s' : State) (c : String) (f : Doc) (u : Update) (upsert : Bool)
      → update_one s c f u upsert ≡ ok s'
      → (rows s' c ≡ rows s c)
        ⊎ (Replaced f u (rows s c) (rows s' c) ⊎ Upserted f u (rows s c) (rows s' c))
  pub deleted :
      (s s' : State) (c : String) (f : Doc)
      → delete_one s c f ≡ ok s'
      → (rows s' c ≡ rows s c) ⊎ Deleted f (rows s c) (rows s' c)

unfoldable pub with_tenant : Doc → String → Doc
with_tenant doc tenant = put "tenantId" (string tenant) doc

-- The update of `updateOne` without `tenantId` under `$set` and `$setOnInsert`.
unfoldable pub sanitised : Update → Update
sanitised u = record u {
  set = strip "tenantId" u.set;
  set_on_insert = strip "tenantId" u.set_on_insert;
}

-- A call of `repo` that writes to a collection.
pub data Call : Type 0 where
  insert : Doc → Call
  update : Doc → Update → Bool → Call
  delete : Doc → Call

module _ (db : Db) (collection : String) where
  query_for : Result String → Doc → Options → db.State → Result (List Doc)
  unfolding with_tenant
  query_for (ok tenant) filter opts s = db.query_many s collection (with_tenant filter tenant) opts
  query_for (err e) filter opts s = err e

  -- `repo.queryMany`, for the tenant that the context has.
  unfoldable pub repo_query_many : Ctx → Doc → Options → db.State → Result (List Doc)
  unfolding query_for require_tenant
  repo_query_many ctx filter opts s =
      query_for (require_tenant ctx.tenant_id ctx.role) filter opts s

  -- `repo.insertOne`, `repo.updateOne`, `repo.deleteOne`, once the tenant is there.
  unfoldable pub write_for : String → Call → db.State → Result db.State
  unfolding with_tenant sanitised
  write_for tenant (insert doc) s = db.insert_one s collection (with_tenant doc tenant)
  write_for tenant (update filter u upsert) s =
      db.update_one s collection (with_tenant filter tenant) (sanitised u) upsert
  write_for tenant (delete filter) s = db.delete_one s collection (with_tenant filter tenant)

  unfoldable pub for_tenant : Result String → Call → db.State → Result db.State
  unfolding write_for
  for_tenant (ok tenant) call s = write_for tenant call s
  for_tenant (err e) call s = err e

  unfoldable pub repo_write : Ctx → Call → db.State → Result db.State
  unfolding for_tenant require_tenant
  repo_write ctx call s = for_tenant (require_tenant ctx.tenant_id ctx.role) call s
