-- ===== src/SendDm.antt =====
-- packages/shared/src/handlers/sendDM.ts and meta/messageWindow.ts: a direct message through the
-- Instagram API, with the gates in the order of the source.
pub mod Gates
pub mod Retry
pub mod Tests
use Prim.Native.String.{◌++◌ as concat}
use automatebro.Prelude.{
  ℕ, ◌+◌, ◌-◌, ◌*◌, String, Bool, true, false, ◌||◌, Option, none, some, ltb, leb, ◌==◌, or_default,
  if◌then◌else◌,
}
use automatebro.Records.{
  Text, Send, SendStatus, queued, sent, failed, rate_limited, outside_window, ErrorMessage,
  IgAccount, send_row_not_found, ig_account_not_found, decrypt_failed, limited, meta_says,
}
use automatebro.Action.{
  Env, Action, Error, plain, marked, api, Result, ok, err, Body, Fetched, timed_out, network_error,
  response, null_body, null_read, Post, dm_message, SendUpdate, no_update, set_send, ask, lift, now,
  pure, throw, perform, message_of, request, catching, ◌>>=◌, ◌>>◌,
}
use automatebro.RateLimit.{
  RateLimitResult, check_and_consume, per_account_max, per_account_duration_ms,
}
use automatebro.SendWhatsapp.{is_queued}
use automatebro.Adapters.Whatsapp.{is_ok_status}

pub record SendDmInput : Type 0 where
  pub send_id : String
  pub ig_account_id : String
  pub recipient_psid : String
  pub content : Text
  pub automation_id : Option String

pub record SendDmResult : Type 0 where
  pub status : SendStatus
  pub meta_message_id : Option String
  pub error_message : Option ErrorMessage

abbrev pub result_of : SendStatus → SendDmResult
result_of s = record { status = s; meta_message_id = none; error_message = none }

abbrev pub failure : ErrorMessage → SendDmResult
failure m = record { status = failed; meta_message_id = none; error_message = some m }

abbrev pub delivered : String → SendDmResult
delivered id = record { status = sent; meta_message_id = some id; error_message = none }

abbrev pub window_ms : ℕ
window_ms = 24 * 60 * 60 * 1000

abbrev pub rate_key : String → String
rate_key ig_account_id = concat "rate:dm:" ig_account_id

-- `json.message_id ?? ''` or what is thrown. A body that is not JSON is read as `{}`.
unfoldable pub post_message : Fetched → Result String
post_message timed_out = err (plain "The operation was aborted")
post_message (network_error m) = err (plain m)
post_message (null_body status) = err (plain null_read)
post_message (response status body) =
    if is_ok_status status
    then ok (elim body [ none ↦ "" | some b ↦ or_default b.message_id "" ])
    else err (marked "meta send failed" (leb 500 status || status == 429))

-- `(err as …).retryable === true`
abbrev pub is_marked_retryable : Error → Bool
is_marked_retryable (plain m) = false
is_marked_retryable (marked m r) = r
is_marked_retryable _ = false

unfoldable pub failed_update : ErrorMessage → ℕ → SendUpdate
failed_update m time = record no_update {
  status = some failed;
  error_message = some m;
  failed_at = some time;
}

unfoldable pub outside_window_update : ℕ → SendUpdate
outside_window_update time = record no_update {
  status = some outside_window;
  failed_at = some time;
}

unfoldable pub rate_limited_update : ℕ → SendUpdate
rate_limited_update wait = record no_update {
  status = some rate_limited;
  error_message = some (limited wait);
}

unfoldable pub sent_update : String → ℕ → SendUpdate
sent_update id time = record no_update {
  status = some sent;
  meta_message_id = some id;
  sent_at = some time;
}

-- The row stays queued and counts one attempt more.
unfoldable pub retry_update : String → SendUpdate
retry_update m = record no_update { error_message = some (meta_says m); inc_attempt = 1 }

module _ (env : Env) where
  -- The recipient is not in the query: any event of the account counts.
  unfoldable pub is_within_messaging_window : String → Action Bool
  is_within_messaging_window account = do
    time ← now env
    events ← ask (λ t. env.events_since t account (time - window_ms))
    pure (ltb 0 events)

module _ (env : Env) (input : SendDmInput) where
  mark_send_failed : ErrorMessage → Action (Unit {0})
  mark_send_failed m = do
    time ← now env
    perform env (set_send input.send_id (failed_update m time))

  mark_send_outside_window : Action (Unit {0})
  mark_send_outside_window = do
    time ← now env
    perform env (set_send input.send_id (outside_window_update time))

  mark_send_rate_limited : ℕ → Action (Unit {0})
  mark_send_rate_limited wait = perform env (set_send input.send_id (rate_limited_update wait))

  pub message : IgAccount → String → Post
  message account token = dm_message token account.ig_user_id input.recipient_psid input.content

  -- The body of the last `try`: the request and the update that records it.
  post_and_record : IgAccount → String → Action SendDmResult
  unfolding message post_message
  post_and_record account token = do
    fetched ← request env (message account token)
    id ← lift (post_message fetched)
    time ← now env
    perform env (set_send input.send_id (sent_update id time))
    pure (delivered id)

  -- Its `catch`.
  unfoldable pub on_error : Error → Action SendDmResult
  unfolding mark_send_failed
  on_error e =
      if is_marked_retryable e
      then (do perform env (set_send input.send_id (retry_update (message_of e))); throw e)
      else (do
        mark_send_failed (meta_says (message_of e))
        pure (failure (meta_says (message_of e))))

  unfoldable pub deliver : IgAccount → Action SendDmResult
  unfolding post_and_record on_error
  deliver account = elim (env.decrypt account.token account.ig_user_id) [
    | err e ↦ (do mark_send_failed decrypt_failed; pure (failure decrypt_failed))
    | ok token ↦ catching (post_and_record account token) on_error
  ]

  unfoldable pub on_rate : IgAccount → RateLimitResult → Action SendDmResult
  unfolding deliver mark_send_rate_limited
  on_rate account rate =
      if rate.allowed
      then deliver account
      else (do mark_send_rate_limited rate.retry_after_ms; throw (marked "rate limited" true))

  consume_rate : IgAccount → Action SendDmResult
  unfolding on_rate
  consume_rate account = do
    rate ←
        check_and_consume env (rate_key input.ig_account_id) per_account_max per_account_duration_ms
    on_rate account rate

  check_window : IgAccount → Bool → Action SendDmResult
  unfolding consume_rate mark_send_outside_window
  check_window account inside =
      if inside
      then consume_rate account
      else (do mark_send_outside_window; pure (result_of outside_window))

  check_account : Option IgAccount → Action SendDmResult
  unfolding check_window is_within_messaging_window
  check_account none = do mark_send_failed ig_account_not_found; pure (failure ig_account_not_found)
  check_account (some account) = do
    inside ← is_within_messaging_window env input.ig_account_id
    check_window account inside

  on_row : Option Send → Action SendDmResult
  unfolding check_account
  on_row none = pure (failure send_row_not_found)
  on_row (some send) =
      if is_queued send.status
      then (do
        account ← ask (λ t. env.query_ig_account t input.ig_account_id)
        check_account account)
      else pure (result_of send.status)

  unfoldable pub send_dm : Action SendDmResult
  unfolding on_row
  send_dm = do found ← ask (λ t. env.query_send t input.send_id); on_row found
