-- ===== src/SendWhatsapp/Quiet.antt =====
-- The parts of the handler that make no request to Meta.
use automatebro.Prelude.{ℕ, String, ◌≡◌, refl, none, some, arith}
use automatebro.Records.{Category}
use automatebro.Action.{Env, Trace, Result, Replies, ok, err, posts, continue}
use automatebro.RateLimit.{check_and_consume, after_exec}
use automatebro.RateLimit.Bound.{sent}
use automatebro.SendWhatsapp.Outcome.{SendWhatsappOutcome, persist_terminal, refuse}
use automatebro.SendWhatsapp.Cost.{upsert_costs, increment_conversation_cost}

module _ (env : Env) (t : Trace) where
  posts-after_exec :
      (key : String) (cap window time : ℕ) (member : String) (x : Result Replies)
      → posts (continue x (after_exec env key cap window time member) t).1 ≡ posts t
  unfolding check_and_consume
  posts-after_exec key cap window time member (err e) = refl
  posts-after_exec key cap window time member (ok none) = refl
  posts-after_exec key cap window time member (ok (some r)) = ground arith

  pub posts-persist_terminal :
      (id : String) (o : SendWhatsappOutcome) → posts (persist_terminal env id o t).1 ≡ posts t
  unfolding persist_terminal
  posts-persist_terminal id o = ground arith

  pub posts-refuse : (id : String) (o : SendWhatsappOutcome) → posts (refuse env id o t).1 ≡ posts t
  unfolding refuse
  posts-refuse id o = ground arith

  pub posts-upsert_costs :
      (tenant account : String) (time : ℕ) (c : Category)
      → posts (upsert_costs env tenant account time c t).1 ≡ posts t
  unfolding upsert_costs
  posts-upsert_costs tenant account time c = ground arith

module _ (env : Env) (t : Trace) where
  pub posts-check_and_consume :
      (key : String) (cap window : ℕ) → posts (check_and_consume env key cap window t).1 ≡ posts t
  unfolding check_and_consume
  posts-check_and_consume key cap window =
      posts-after_exec env (sent env key cap window t) key cap window (env.clock t) (env.random t)
        (env.exec (sent env key cap window t) key)

  pub posts-increment_conversation_cost :
      (tenant account phone : String) (c : Category)
      → posts (increment_conversation_cost env tenant account phone c t).1 ≡ posts t
  unfolding increment_conversation_cost
  posts-increment_conversation_cost tenant account phone c = ground arith
