-- ===== src/SendWhatsapp/Cost.antt =====
-- handlers/sendWhatsapp.ts: `incrementConversationCost` and `countTodaysConversations`.
use automatebro.Prelude.{
  ℕ, ◌+◌, ◌*◌, String, Bool, false, Option, none, some, ltb, or_default, if◌then◌else◌,
}
use automatebro.Records.{Category, service, utility, marketing, authentication, Conversations}
use automatebro.Action.{
  Env, Action, insert_costs, set_costs, lead_conversation, perform, perform_or_lose, read, now,
  pure, or_null, catching, ◌>>=◌, ◌>>◌,
}
use automatebro.Calendar.{month_of}

abbrev pub template_conversation_window_ms : ℕ
template_conversation_window_ms = 24 * 60 * 60 * 1000

abbrev zero_conversations : Conversations
zero_conversations = record {
  service = some 0;
  utility = some 0;
  marketing = some 0;
  authentication = some 0;
}

-- `fresh[category] = 1`
unfoldable pub first_conversation : Category → Conversations
first_conversation service = record zero_conversations { service = some 1 }
first_conversation utility = record zero_conversations { utility = some 1 }
first_conversation marketing = record zero_conversations { marketing = some 1 }
first_conversation authentication = record zero_conversations { authentication = some 1 }

abbrev plus_one : Option ℕ → Option ℕ
plus_one n = some (or_default n 0 + 1)

-- `next[category] = (next[category] ?? 0) + 1`
unfoldable pub add_conversation : Category → Conversations → Conversations
add_conversation service c = record c { service = plus_one c.service }
add_conversation utility c = record c { utility = plus_one c.utility }
add_conversation marketing c = record c { marketing = plus_one c.marketing }
add_conversation authentication c = record c { authentication = plus_one c.authentication }

unfoldable pub total_conversations : Conversations → ℕ
total_conversations c =
    or_default c.service 0
    + or_default c.utility 0
    + or_default c.marketing 0
    + or_default c.authentication 0

-- `elapsedMs < TEMPLATE_CONVERSATION_WINDOW_MS`, also where the last conversation lies ahead.
unfoldable pub is_same_conversation : Option ℕ → ℕ → Bool
is_same_conversation none time = false
is_same_conversation (some last) time = ltb time (last + template_conversation_window_ms)

module _ (env : Env) where
  -- The race branch: re-read the row and update it, if it is there.
  reread_costs : String → String → ℕ → Category → Action (Unit {0})
  reread_costs tenant account time category = do
    reread ← read (λ t. or_null (env.query_costs t tenant account (month_of time)))
    elim reread [
      | none ↦ pure tt
      | some row ↦
          perform env (set_costs row.id (add_conversation category row.conversations_by_category))
    ]

  insert_fresh : String → String → ℕ → Category → Action (Unit {0})
  insert_fresh tenant account time category = do
    id ← read env.random
    perform_or_lose env
        (insert_costs id tenant account (month_of time) (first_conversation category))

  unfoldable pub upsert_costs : String → String → ℕ → Category → Action (Unit {0})
  unfolding reread_costs insert_fresh
  upsert_costs tenant account time category = do
    existing ← read (λ t. or_null (env.query_costs t tenant account (month_of time)))
    elim existing [
      | none ↦
          catching (insert_fresh tenant account time category)
            (λ _. reread_costs tenant account time category)
      | some row ↦
          perform env (set_costs row.id (add_conversation category row.conversations_by_category))
    ]

  unfoldable pub increment_conversation_cost :
      String → String → String → Category → Action (Unit {0})
  unfolding upsert_costs is_same_conversation
  increment_conversation_cost tenant account phone category = do
    time ← now env
    lead ← read (λ t. or_null (env.query_lead t tenant phone))
    elim lead [
      | none ↦ upsert_costs tenant account time category
      | some l ↦ if is_same_conversation l.last_template_conversation_at time then pure tt else (do
        perform env (lead_conversation l.id time)
        upsert_costs tenant account time category)
    ]

  unfoldable pub count_todays_conversations : String → String → Action ℕ
  unfolding total_conversations
  count_todays_conversations tenant account = do
    time ← now env
    row ← read (λ t. or_null (env.query_costs t tenant account (month_of time)))
    elim row [ none ↦ pure 0 | some r ↦ pure (total_conversations r.conversations_by_category) ]
