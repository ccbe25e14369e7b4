-- ===== src/Tenants/Repo/Isolation.antt =====
-- One tenant's requests do not reach another tenant's rows.
use automatebro.Prelude.{
  String, ◌≡◌, ◌≢◌, refl, ap, ◌∙◌, inl, inr, true, Option, none, some, List, [], ◌∷◌, arith, All,
}
use mathlib.Core.Path.{subst}
use text.Mathlib.TextPositions.{eq_refl}
use automatebro.Action.{Result-cases, ok, err}
use automatebro.Tenants.Repo.{
  Ctx, Doc, Options, Matches, Among, Db, get_key, with_tenant, sanitised, Call, insert, update,
  delete, require_tenant, Role, repo_query_many, for_tenant, query_for, write_for, repo_write,
}
use automatebro.Tenants.Repo.Rows.{
  is_of, rows_of, keep-append, own, foreign, appended, Replaced-apart, Upserted-apart,
  Deleted-apart,
}

-- A call that names the tenant under no operator but the two that are stripped.
abbrev pub LeavesTenant : Call → Type 0
LeavesTenant (update filter u upsert) =
    (get_key "tenantId" u.inc ≡ none) × (get_key "tenantId" u.unset ≡ none)
LeavesTenant _ = Unit

module _ (db : Db) (collection : String) where
  write_apart :
      (tenant other : String) (call : Call) (s s' : db.State)
      → tenant ≢ other
      → LeavesTenant call
      → write_for db collection tenant call s ≡ ok s'
      → rows_of other (db.rows s' collection) ≡ rows_of other (db.rows s collection)
  unfolding write_for
  write_apart tenant other (insert doc) s s' apart l e =
      let r = db.inserted s s' collection (with_tenant doc tenant) e in
      rw r.is (
        appended tenant other apart (db.rows s collection) r.row'
          (foreign tenant other apart r.row' (own tenant doc r.row' r.has)))
  write_apart tenant other (update filter u upsert) s s' apart (i, d) e =
      elim (db.updated s s' collection (with_tenant filter tenant) (sanitised u) upsert e) [
        | inl same ↦ ap (rows_of other) same
        | inr (inl r) ↦ Replaced-apart tenant other apart filter u _ _ i d r
        | inr (inr r) ↦ Upserted-apart tenant other apart filter u _ _ i d r
      ]
  write_apart tenant other (delete filter) s s' apart l e =
      elim (db.deleted s s' collection (with_tenant filter tenant) e) [
        | inl same ↦ ap (rows_of other) same
        | inr r ↦ Deleted-apart tenant other apart filter _ _ r
      ]

  -- Calls one after the other; one that throws changes nothing.
  abbrev pub run : Ctx → List Call → db.State → db.State
  run ctx [] s = s
  run ctx (call ∷ more) s = elim (repo_write db collection ctx call s) [
    | ok s' ↦ run ctx more s'
    | err e ↦ run ctx more s
  ]

  -- One call: another tenant's rows stay.
  pub repo_write_apart :
      (ctx : Ctx) (other : String) (call : Call) (s s' : db.State)
      → ctx.tenant_id ≢ some other
      → LeavesTenant call
      → repo_write db collection ctx call s ≡ ok s'
      → rows_of other (db.rows s' collection) ≡ rows_of other (db.rows s collection)
  unfolding repo_write for_tenant require_tenant
  repo_write_apart ctx other call s s' apart l e = go ctx.tenant_id ctx.role apart e
    where
      go :
          (o : Option String) (r : Option Role)
          → o ≢ some other
          → for_tenant db collection (require_tenant o r) call s ≡ ok s'
          → rows_of other (db.rows s' collection) ≡ rows_of other (db.rows s collection)
      go none r apart e = absurd (ground arith)
      go (some t) none apart e = absurd (ground arith)
      go (some t) (some r) apart e =
          write_apart t other call s s' (λ q. apart (ap (λ x. some x) q)) l e

  -- However many calls of repo a request makes for its tenant, one after the other, some of which
  -- may throw, the rows that any other tenant has in the collection stay as they are, as long as no
  -- update names tenantId under $inc or $unset; the database is one that reads a text in a filter
  -- as an equal text and keeps the texts of what it inserts.
  pub rows_of-run :
      (ctx : Ctx) (other : String) (calls : List Call) (s : db.State)
      → ctx.tenant_id ≢ some other
      → All LeavesTenant calls
      → rows_of other (db.rows (run ctx calls s) collection) ≡ rows_of other (db.rows s collection)
  rows_of-run ctx other [] s apart l = refl
  rows_of-run ctx other (call ∷ more) s apart (l, ls) =
      elim (Result-cases (repo_write db collection ctx call s)) [
        | inl (s', e) ↦
            rw (e, run)
              (rows_of-run ctx other more s' apart ls
                ∙ repo_write_apart ctx other call s s' apart l e)
        | inr (x, e) ↦ rw (e, run) (rows_of-run ctx other more s apart ls)
      ]

  -- A row of the tenant's that is among all rows is among the tenant's.
  Among-rows_of :
      (tenant : String) (rows : List Doc) (row : Doc)
      → is_of tenant row ≡ true
      → Among rows row
      → Among (rows_of tenant rows) row
  Among-rows_of tenant rows row mine a = record {
    before = rows_of tenant a.before;
    after = rows_of tenant a.after;
    split = rw a.split (keep-append (is_of tenant) a.before (row ∷ a.after) ∙ rw mine refl);
  }

  -- After any calls of repo by another tenant, a query by a tenant finds none but rows that the
  -- tenant had in the collection before, whatever the filter says of tenantId, and however the
  -- database reads its operators, as long as no update names tenantId under $inc or $unset.
  pub repo_query_many-own :
      (ctx stranger : Ctx) (calls : List Call) (filter : Doc) (opts : Options) (s : db.State)
      (found : List Doc)
      → stranger.tenant_id ≢ ctx.tenant_id
      → All LeavesTenant calls
      → repo_query_many db collection ctx filter opts (run stranger calls s) ≡ ok found
      → (tenant : String) × (ctx.tenant_id ≡ some tenant)
        × All (Among (rows_of tenant (db.rows s collection))) found
  unfolding repo_query_many query_for require_tenant
  repo_query_many-own ctx stranger calls filter opts s found apart l e =
      go ctx.tenant_id ctx.role apart e
    where
      s' : db.State
      s' = run stranger calls s

      all_own :
          (tenant : String) (rows : List Doc)
          → stranger.tenant_id ≢ some tenant
          → All
              (λ row. Among (db.rows s' collection) row × Matches (with_tenant filter tenant) row)
              rows
          → All (Among (rows_of tenant (db.rows s collection))) rows
      all_own tenant [] apart m = tt
      all_own tenant (row ∷ rows) apart ((a, m), ms) = (
        subst (λ x. Among x row) (rows_of-run stranger tenant calls s apart l)
            (Among-rows_of tenant (db.rows s' collection) row mine a),
        all_own tenant rows apart ms,
      )
        where
          mine : is_of tenant row ≡ true
          mine = rw (own tenant filter row m) (eq_refl tenant)

      go :
          (o : Option String) (r : Option Role)
          → stranger.tenant_id ≢ o
          → query_for db collection (require_tenant o r) filter opts s' ≡ ok found
          → (tenant : String) × (o ≡ some tenant)
            × All (Among (rows_of tenant (db.rows s collection))) found
      go none r apart e = absurd (ground arith)
      go (some t) none apart e = absurd (ground arith)
      go (some t) (some r) apart e = (
        t,
        refl,
        all_own t found apart (db.queried s' collection (with_tenant filter t) opts found e),
      )
