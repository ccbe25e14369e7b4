-- ===== src/SendWhatsapp/Counting.antt =====
-- What a template send does to the conversation counts.
use automatebro.Prelude.{ℕ, ◌+◌, ◌≤◌, ◌<◌, String, ◌≡◌, some, ◌∷◌, arith, or_default}
use automatebro.Records.{
  Category, service, utility, marketing, authentication, Conversations, WhatsappCosts, Lead,
}
use automatebro.Action.{Env, Trace, ok, or_null, lead_conversation, set_costs}
use automatebro.Calendar.{month_of}
use automatebro.SendWhatsapp.Cost.{
  add_conversation, total_conversations, increment_conversation_cost,
  template_conversation_window_ms,
}

total-add_conversation :
    (c : Category) (n : Conversations)
    → total_conversations (add_conversation c n) ≡ total_conversations n + 1
unfolding total_conversations add_conversation
total-add_conversation service n = omega arith
total-add_conversation utility n = omega arith
total-add_conversation marketing n = omega arith
total-add_conversation authentication n = omega arith

-- The count of a category, a missing one being none.
abbrev pub count_of : Category → Conversations → ℕ
count_of service n = or_default n.service 0
count_of utility n = or_default n.utility 0
count_of marketing n = or_default n.marketing 0
count_of authentication n = or_default n.authentication 0

abbrev pub one_if : Category → Category → ℕ
one_if service service = 1
one_if utility utility = 1
one_if marketing marketing = 1
one_if authentication authentication = 1
one_if _ _ = 0

count_of-add_conversation :
    (c d : Category) (n : Conversations)
    → count_of d (add_conversation c n) ≡ count_of d n + one_if c d
unfolding add_conversation
count_of-add_conversation service d n = grind arith
count_of-add_conversation utility d n = grind arith
count_of-add_conversation marketing d n = grind arith
count_of-add_conversation authentication d n = grind arith

module _ (env : Env) (tenant account phone : String) (c : Category) (t : Trace) (l : Lead) where
  -- Within 24 hours of the last counted template to a recipient whose lead is there, another one is
  -- not counted and nothing is written.
  pub increment_within_window :
      (last : ℕ)
      → or_null (env.query_lead t tenant phone) ≡ some l
      → l.last_template_conversation_at ≡ some last
      → env.clock t < last + template_conversation_window_ms
      → increment_conversation_cost env tenant account phone c t ≡ (ok tt, t)
  unfolding increment_conversation_cost
  increment_within_window last found at within =
      rw (found, increment_conversation_cost) (rw at (ground arith))

  -- The history in which the costs are looked up, the conversation of the recipient begun.
  abbrev pub begun : Trace
  begun = lead_conversation l.id (env.clock t) ∷ t

  -- 24 hours or more after the recipient's last counted template, with the lead and the month's row
  -- there and a database that takes the recipient's time and every update of the row, a template
  -- sets the recipient's time, and then the row's counts: one more under the template's category,
  -- the same under every other, one more in all.
  pub increment_after_window :
      (last : ℕ) (row : WhatsappCosts)
      → or_null (env.query_lead t tenant phone) ≡ some l
      → l.last_template_conversation_at ≡ some last
      → last + template_conversation_window_ms ≤ env.clock t
      → or_null (env.query_costs begun tenant account (month_of (env.clock t))) ≡ some row
      → env.accepts t (lead_conversation l.id (env.clock t)) ≡ ok tt
      → ((n : Conversations) → env.accepts begun (set_costs row.id n) ≡ ok tt)
      → (next : Conversations) × (increment_conversation_cost env tenant account phone c t
          ≡ (ok tt, set_costs row.id next ∷ begun))
        × ((d : Category) → count_of d next ≡ count_of d row.conversations_by_category + one_if c d)
        × (total_conversations next ≡ total_conversations row.conversations_by_category + 1)
  unfolding increment_conversation_cost
  increment_after_window last row found at after costs lead_write costs_write = (
    add_conversation c row.conversations_by_category,
    rw (found, increment_conversation_cost)
        (rw at (
          ground (
            arith,
            lead_write,
            costs_write (add_conversation c row.conversations_by_category),
            costs,
          ))),
    λ d. count_of-add_conversation c d row.conversations_by_category,
    total-add_conversation c row.conversations_by_category,
  )
