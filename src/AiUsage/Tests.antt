-- ===== src/AiUsage/Tests.antt =====
-- The theorem on the summary of the AI usage, applied at January 2026 and the two months before.
use automatebro.Prelude.{false, ◌≡◌, refl, some, [], ◌∷◌}
use automatebro.Action.{ok}
use automatebro.Tenants.Repo.{Ctx, admin}
use automatebro.AiUsage.{
  Answers, AiUsageSummary, UsageRow, get_ai_usage_summary, keys_from, months_before,
  previous_month_keys, pct_of,
}
use automatebro.AiUsage.Laws.{IsSummary, get_ai_usage_summary-IsSummary}

abbrev december : UsageRow
december = record {
  month = (2025, 12);
  usage = record { input_tokens = 900; output_tokens = 100; cost_inr = 12345; cap = 50000 };
}

abbrev ctx : Ctx
ctx = record {
  user_id = "u1";
  tenant_id = some "t1";
  role = some admin;
  email = "";
  tenant_deleted = false;
}

abbrev answers : Answers
answers = record { rows = λ tenant. ok (december ∷ []); plan = λ tenant. ok (some "growth") }

over_new_year : previous_month_keys (2026, 1) 2 ≡ (2025, 12) ∷ (2025, 11) ∷ []
unfolding keys_from months_before
over_new_year = refl

rounded : pct_of 12345 50000 ≡ 25
unfolding pct_of
rounded = refl

get_ai_usage_summary-IsSummary_example :
    (s : AiUsageSummary) × (get_ai_usage_summary answers ctx (some 2) 1767225600000 ≡ ok s)
    × IsSummary (december ∷ []) "growth" 1767225600000 2 s
get_ai_usage_summary-IsSummary_example =
    get_ai_usage_summary-IsSummary answers ctx (some 2) 1767225600000 "t1" admin (december ∷ [])
      (some "growth") refl refl refl refl
