-- ===== src/Tenants/Access.antt =====
-- packages/shared/src/auth/ctx.ts: the context of a request. What StrictDB answers are parameters.
pub mod Laws
use automatebro.Prelude.{ℕ, String, Bool, true, false, Option, none, some, or_default}
use automatebro.Action.{Result, ok, err}
use automatebro.Tenants.Repo.{Role, Ctx}

pub record SupabaseAuthUser : Type 0 where
  pub id : String
  pub email : Option String

pub record TenantUserRow : Type 0 where
  pub tenant_id : String
  pub role : Role

-- A row of `tenants`: the time of its deletion, if it is deleted.
pub record TenantStatusRow : Type 0 where
  pub deleted_at : Option ℕ

-- The upsert of the user, and the two queries.
pub record Answers : Type 0 where
  pub mirror : String → String → Result (Unit {0})
  pub membership : String → Result (Option TenantUserRow)
  pub tenant : String → Result (Option TenantStatusRow)

abbrev pub onboarding : SupabaseAuthUser → Ctx
onboarding user = record {
  user_id = user.id;
  tenant_id = none;
  role = none;
  email = or_default user.email "";
  tenant_deleted = false;
}

-- The context for a membership, whose tenant may be gone or deleted.
unfoldable pub with_status : SupabaseAuthUser → TenantUserRow → Option TenantStatusRow → Ctx
with_status user tu none = onboarding user
with_status user tu (some row) = elim row.deleted_at [
  | some at ↦ record (onboarding user) { tenant_deleted = true }
  | none ↦ record (onboarding user) { tenant_id = some tu.tenant_id; role = some tu.role }
]

abbrev pub then : {A B : Type 0} → Result A → (A → Result B) → Result B
then (err e) f = err e
then (ok a) f = f a

module _ (db : Answers) where
  for_membership : SupabaseAuthUser → Option TenantUserRow → Result Ctx
  unfolding with_status
  for_membership user none = ok (onboarding user)
  for_membership user (some tu) =
      then (db.tenant tu.tenant_id) (λ row. ok (with_status user tu row))

  unfoldable pub build_ctx : SupabaseAuthUser → Result Ctx
  unfolding for_membership
  build_ctx user =
      then (db.mirror user.id (or_default user.email ""))
        (λ _. then (db.membership user.id) (for_membership user))
