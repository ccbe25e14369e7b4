-- ===== src/Whatsapp/Rates.antt =====
-- packages/shared/src/whatsapp/rates.ts. Amounts are paise.
use automatebro.Prelude.{ℕ, ◌+◌, ◌-◌, ◌*◌, ◌≤◌, ◌≡◌, arith}
use automatebro.Records.{Category, service, utility, marketing, authentication}

unfoldable pub conversation_rate_paise : Category → ℕ
conversation_rate_paise service = 27
conversation_rate_paise utility = 27
conversation_rate_paise marketing = 83
conversation_rate_paise authentication = 18

abbrev pub service_free_tier_per_month : ℕ
service_free_tier_per_month = 1000

-- The counts by category; `Math.max(0, a - b)` is the subtraction on ℕ.
unfoldable pub estimate_monthly_cost_paise : (Category → ℕ) → ℕ
unfolding conversation_rate_paise
estimate_monthly_cost_paise n =
    let billable_service = n service - service_free_tier_per_month in
    billable_service * conversation_rate_paise service
    + n utility * conversation_rate_paise utility
    + n marketing * conversation_rate_paise marketing
    + n authentication * conversation_rate_paise authentication

-- One more conversation of a category.
abbrev pub one_more : Category → (Category → ℕ) → Category → ℕ
one_more service n service = n service + 1
one_more utility n utility = n utility + 1
one_more marketing n marketing = n marketing + 1
one_more authentication n authentication = n authentication + 1
one_more _ n c = n c

-- One more conversation adds just its category's rate to the estimate, a service conversation if
-- the month has had its 1000 free ones.
pub estimate-one_more :
    (c : Category) (n : Category → ℕ)
    → (c ≡ service → service_free_tier_per_month ≤ n service)
    → estimate_monthly_cost_paise (one_more c n)
      ≡ estimate_monthly_cost_paise n + conversation_rate_paise c
unfolding estimate_monthly_cost_paise
estimate-one_more service n h = ground (arith, h)
estimate-one_more utility n h = omega arith
estimate-one_more marketing n h = omega arith
estimate-one_more authentication n h = omega arith
