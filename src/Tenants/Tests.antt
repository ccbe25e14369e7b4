-- ===== src/Tenants/Tests.antt =====
-- The theorems on tenants, applied to a database in memory.
use automatebro.Prelude.{
  ℕ, String, ◌≡◌, ◌≢◌, refl, ap, Bool, true, false, Option, none, some, List, [], ◌∷◌, ◌++◌, All,
  str_eq,
}
use automatebro.Action.{ok}
use automatebro.Webhooks.Json.{string}
use automatebro.Tenants.Repo.{
  Ctx, owner, Doc, Options, Call, insert, update, delete, Update, Among, repo_query_many,
  repo_write, write_for, sanitised, with_tenant, require_tenant,
}
use automatebro.Tenants.Repo.Rows.{rows_of}
use automatebro.Tenants.Repo.Isolation.{run, rows_of-run, repo_query_many-own}
use automatebro.Tenants.Repo.Memory.{memory}
use automatebro.Tenants.Pagination.Walk.{walk, walk-all}
use automatebro.Tenants.Access.{SupabaseAuthUser, Answers, build_ctx}
use automatebro.Tenants.Access.Laws.{IsMember, build_ctx-IsMember}

abbrev row_of : String → Doc
row_of tenant = ("tenantId", string tenant) ∷ []

-- Two tenants' rows.
abbrev two_rows : List Doc
two_rows = row_of "t1" ∷ row_of "t2" ∷ []

abbrev ctx : Ctx
ctx = record {
  user_id = "u1";
  tenant_id = some "t1";
  role = some owner;
  email = "";
  tenant_deleted = false;
}

abbrev ctx2 : Ctx
ctx2 = record ctx { tenant_id = some "t2"; user_id = "u2" }

abbrev renamed : Update
renamed = record {
  set = ("name", string "new") ∷ row_of "t2";
  set_on_insert = [];
  inc = [];
  unset = [];
}

-- A document and filters that name the other tenant, and an update that would move a row.
abbrev calls : List Call
calls = insert (row_of "t2") ∷ update (row_of "t2") renamed true ∷ delete (row_of "t2") ∷ []

abbrev is_first : Option String → Bool
is_first none = false
is_first (some s) = str_eq s "t1"

not_both : true ≡ false → ⊥
not_both q = cc

apart : ◌≢◌ {A = Option String} (some "t1") (some "t2")
apart e = not_both (ap is_first e)

rows_of-run_example : rows_of "t2" (run memory "leads" ctx calls two_rows) ≡ rows_of "t2" two_rows
rows_of-run_example =
    rows_of-run memory "leads" ctx "t2" calls two_rows apart (tt, ((refl, refl), (tt, tt)))

abbrev no_options : Options
no_options = record { limit = none; skip = none }

repo_query_many-own_example :
    (tenant : String) × (some "t2" ≡ some tenant)
    × All (Among (rows_of tenant two_rows)) (row_of "t2" ∷ [])
unfolding repo_query_many repo_write write_for with_tenant sanitised require_tenant
repo_query_many-own_example =
    repo_query_many-own memory "leads" ctx2 ctx calls (row_of "t1") no_options two_rows
      (row_of "t2" ∷ []) apart (tt, ((refl, refl), (tt, tt))) refl

abbrev three : List ℕ
three = 1 ∷ 2 ∷ 3 ∷ []

walk-all_example : walk three (some 2) 4 1 ≡ three
walk-all_example = walk-all three (some 2)

abbrev user : SupabaseAuthUser
user = record { id = "u1"; email = none }

abbrev answers : Answers
answers = record {
  mirror = λ id email. ok tt;
  membership = λ id. ok (some (record { tenant_id = "t1"; role = owner }));
  tenant = λ id. ok (some (record { deleted_at = none }));
}

build_ctx-IsMember_example :
    IsMember answers user ctx
    × (rows_of "t2" (two_rows ++ row_of "t1" ∷ []) ≡ rows_of "t2" two_rows)
unfolding build_ctx repo_write write_for with_tenant require_tenant
build_ctx-IsMember_example =
    build_ctx-IsMember answers user ctx memory "leads" "t2" (insert []) two_rows
      (two_rows ++ row_of "t1" ∷ []) refl refl apart tt
