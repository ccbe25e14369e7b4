-- ===== src/Tenants/Access/Laws.antt =====
-- Who may reach a tenant's rows.
use automatebro.Prelude.{
  ℕ, String, ◌≡◌, ◌≢◌, refl, sym, or_default, ap, ◌⊎◌, inl, inr, Option, none, some,
}
use automatebro.Action.{Result-cases, ok, err, Error}
use automatebro.Tenants.Repo.{Ctx, Role, Db, Call, repo_write, require_tenant, for_tenant}
use automatebro.Tenants.Repo.Rows.{rows_of}
use automatebro.Tenants.Repo.Isolation.{LeavesTenant, repo_write_apart}
use automatebro.Tenants.Access.{
  SupabaseAuthUser, TenantUserRow, TenantStatusRow, Answers, with_status, for_membership, build_ctx,
}

module _ (answers : Answers) (user : SupabaseAuthUser) where
  -- A member of a tenant that is there and not deleted.
  pub record IsMember (ctx : Ctx) : Type 0 where
    pub membership : TenantUserRow
    pub row : TenantStatusRow
    pub joined : answers.membership user.id ≡ ok (some membership)
    pub there : answers.tenant membership.tenant_id ≡ ok (some row)
    pub live : row.deleted_at ≡ none
    pub tenant : ctx.tenant_id ≡ some membership.tenant_id
    pub role : ctx.role ≡ some membership.role

  -- No tenant at all.
  abbrev Outside : Ctx → Type 0
  Outside ctx = ctx.tenant_id ≡ none

  given : {a ctx : Ctx} → ok a ≡ ok ctx → a ≡ ctx
  given q = cc

  status-IsMember :
      (ctx : Ctx) (tu : TenantUserRow) (d : Option ℕ)
      → answers.membership user.id ≡ ok (some tu)
      → answers.tenant tu.tenant_id ≡ ok (some (record { deleted_at = d }))
      → with_status user tu (some (record { deleted_at = d })) ≡ ctx
      → Outside ctx ⊎ IsMember ctx
  unfolding with_status
  status-IsMember ctx tu (some at) j r e = inl (ap (λ c. c.tenant_id) (sym e))
  status-IsMember ctx tu none j r e = inr (record {
    membership = tu;
    row = record { deleted_at = none };
    joined = j;
    there = r;
    live = refl;
    tenant = ap (λ c. c.tenant_id) (sym e);
    role = ap (λ c. c.role) (sym e);
  })

  row-IsMember :
      (ctx : Ctx) (tu : TenantUserRow) (row : Option TenantStatusRow)
      → answers.membership user.id ≡ ok (some tu)
      → answers.tenant tu.tenant_id ≡ ok row
      → with_status user tu row ≡ ctx
      → Outside ctx ⊎ IsMember ctx
  row-IsMember ctx tu none j r e = inl (unfold with_status in ap (λ c. c.tenant_id) (sym e))
  row-IsMember ctx tu (some row) j r e = status-IsMember ctx tu row.deleted_at j r e

  found-IsMember :
      (ctx : Ctx) (m : Option TenantUserRow)
      → answers.membership user.id ≡ ok m
      → for_membership answers user m ≡ ok ctx
      → Outside ctx ⊎ IsMember ctx
  unfolding for_membership
  found-IsMember ctx none j e = inl (ap (λ c. c.tenant_id) (sym (given e)))
  found-IsMember ctx (some tu) j e = elim (Result-cases (answers.tenant tu.tenant_id)) [
    | inl (row, r) ↦ row-IsMember ctx tu row j r (given (rw r at e))
    | inr (x, r) ↦ absurd (thrown (rw r at e))
  ]
    where
      thrown : {x : Error} → err x ≡ ok ctx → ⊥
      thrown q = cc

  built-IsMember : (ctx : Ctx) → build_ctx answers user ≡ ok ctx → Outside ctx ⊎ IsMember ctx
  unfolding build_ctx
  built-IsMember ctx e = elim (Result-cases (answers.mirror user.id (or_default user.email ""))) [
    | inr (x, m) ↦ absurd (thrown (rw m at e))
    | inl (u, m) ↦ elim (Result-cases (answers.membership user.id)) [
      | inr (x, j) ↦ absurd (thrown (rw (m, j) at e))
      | inl (found, j) ↦ found-IsMember ctx found j (rw (m, j) at e)
    ]
  ]
    where
      thrown : {x : Error} → err x ≡ ok ctx → ⊥
      thrown q = cc

  no_tenant :
      (db : Db) (collection : String) (call : Call) (o : Option String) (r : Option Role)
      (s s' : db.State)
      → o ≡ none
      → for_tenant db collection (require_tenant o r) call s ≡ ok s'
      → ⊥
  unfolding for_tenant require_tenant
  no_tenant db collection call none r s s' e q = cc
  no_tenant db collection call (some t) r s s' e q = cc

  -- A write through repo under the context that buildCtx makes for a user, which names tenantId
  -- under neither $inc nor $unset, is a write of a member of a tenant that is there and is not
  -- deleted, and it leaves the rows of every other tenant as they are.
  pub build_ctx-IsMember :
      (ctx : Ctx) (db : Db) (collection other : String) (call : Call) (s s' : db.State)
      → build_ctx answers user ≡ ok ctx
      → repo_write db collection ctx call s ≡ ok s'
      → ctx.tenant_id ≢ some other
      → LeavesTenant call
      → IsMember ctx
        × (rows_of other (db.rows s' collection) ≡ rows_of other (db.rows s collection))
  build_ctx-IsMember ctx db collection other call s s' e q apart l =
      (member, repo_write_apart db collection ctx other call s s' apart l q)
    where
      member : IsMember ctx
      member = elim (built-IsMember ctx e) [
        | inl outside ↦ absurd (
            unfold repo_write in no_tenant db collection call ctx.tenant_id ctx.role s s' outside q)
        | inr m ↦ m
      ]
