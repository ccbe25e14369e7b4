-- ===== src/Ai/Usage.antt =====
-- The monthly budget for OpenAI, `loadOrCreateAiUsage`, `incrementAiUsage`, `loadTenantPlan`: one text
-- in handlers/classifyIntent.ts and handlers/generateAiReply.ts.
use automatebro.Prelude.{
  ℕ, String, ◌≡◌, none, some, arith, or_default, str_eq, leb, Bool, if◌then◌else◌,
}
use automatebro.Records.{AiUsage}
use automatebro.Action.{
  Env, Action, Trace, insert_ai_usage, inc_ai_usage, ask, read, now, pure, perform, perform_or_lose,
  catching, jobs, inserted, ◌>>=◌, ◌>>◌,
}
use automatebro.Calendar.{month_of}

unfoldable pub default_cap : String → ℕ
default_cap plan =
    if str_eq plan "free"
    then 10000
    else if str_eq plan "starter"
    then 50000
    else if str_eq plan "growth"
    then 200000
    else if str_eq plan "agency"
    then 500000
    else 10000

abbrev pub fresh_usage : String → AiUsage
fresh_usage plan = record {
  input_tokens = 0;
  output_tokens = 0;
  cost_inr = 0;
  cap = default_cap plan;
}

module _ (env : Env) where
  -- The insert, or what another job has inserted first.
  insert_usage : String → String → ℕ → Action AiUsage
  insert_usage tenant plan time = do
    id ← read env.random
    perform_or_lose env (insert_ai_usage id tenant (month_of time) (default_cap plan))
    pure (fresh_usage plan)

  unfoldable pub load_or_create_ai_usage : String → String → Action AiUsage
  unfolding insert_usage
  load_or_create_ai_usage tenant plan = do
    time ← now env
    existing ← ask (λ t. env.query_ai_usage t tenant (month_of time))
    elim existing [
      | some usage ↦ pure usage
      | none ↦ catching (insert_usage tenant plan time) (λ _. do
        reread ← ask (λ t. env.query_ai_usage t tenant (month_of time))
        pure (or_default reread (fresh_usage plan)))
    ]

  unfoldable pub load_tenant_plan : String → Action String
  load_tenant_plan tenant = do
    plan ← ask (λ t. env.query_plan t tenant)
    pure (or_default plan "free")

  unfoldable pub increment_ai_usage : String → ℕ → ℕ → ℕ → Action (Unit {0})
  increment_ai_usage tenant input output cost = do
    time ← now env
    perform env (inc_ai_usage tenant (month_of time) input output cost)

  -- The usage for the tenant's plan.
  unfoldable pub usage_of : String → Action AiUsage
  unfolding load_tenant_plan load_or_create_ai_usage
  usage_of tenant = do plan ← load_tenant_plan tenant; load_or_create_ai_usage tenant plan

-- `usage.costInr >= usage.cap`
abbrev pub is_exceeded : AiUsage → Bool
is_exceeded usage = leb usage.cap usage.cost_inr

module _ (env : Env) (tenant : String) (t : Trace) where
  pub jobs-usage_of : jobs (usage_of env tenant t).1 ≡ jobs t
  unfolding usage_of
  jobs-usage_of = ground arith

  pub inserted-usage_of : inserted (usage_of env tenant t).1 ≡ inserted t
  unfolding usage_of
  inserted-usage_of = ground arith
