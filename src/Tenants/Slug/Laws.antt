-- ===== src/Tenants/Slug/Laws.antt =====
-- A slug satisfies the pattern of TenantSchema, `/^[a-z0-9-]{3,64}$/`.
use automatebro.Prelude.{ℕ, ◌≡◌, true, ◌||◌, ◌==◌}
use automatebro.Tenants.Slug.{dash, is_slug_unit}

-- `[a-z0-9-]`
abbrev pub Allowed : ℕ → Type 0
Allowed c = (is_slug_unit c || c == dash) ≡ true
