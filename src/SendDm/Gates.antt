-- ===== src/SendDm/Gates.antt =====
-- What stands between a job and a direct message.
use automatebro.Prelude.{
  ℕ, ◌-◌, ◌<◌, String, ◌≡◌, refl, ap, ◌∙◌, ◌⊎◌, inl, inr, true, Option, none, some, ◌∷◌, arith,
  Bool-cases, ltb,
}
use automatebro.Records.{Send, queued, IgAccount}
use automatebro.Action.{Env, Trace, Result, Result-cases, ok, err, posts, Error, catching}
use automatebro.RateLimit.{
  RateLimitResult, check_and_consume, per_account_max, per_account_duration_ms,
}
use automatebro.SendWhatsapp.{is_queued}
use automatebro.SendWhatsapp.Quiet.{posts-check_and_consume}
use automatebro.SendDm.{
  SendDmInput, rate_key, window_ms, message, post_and_record, on_error, deliver, on_rate,
  consume_rate, check_account, on_row, send_dm,
}

module _ (env : Env) (input : SendDmInput) where
  -- One request more, to the account's user, with the token that decrypts.
  abbrev pub Requested : IgAccount → Trace → Trace → Type 0
  Requested account t t' =
      (token : String) × (env.decrypt account.token account.ig_user_id ≡ ok token)
      × (posts t' ≡ message env input account token ∷ posts t)

  abbrev pub checked : Trace → Result RateLimitResult × Trace
  checked =
      check_and_consume env (rate_key input.ig_account_id) per_account_max per_account_duration_ms

  abbrev pub Granted : Trace → Type 0
  Granted t = (r : RateLimitResult) × ((checked t).0 ≡ ok r) × (r.allowed ≡ true)

  posts-on_error : (e : Error) (t : Trace) → posts (on_error env input e t).1 ≡ posts t
  unfolding on_error
  posts-on_error e t = ground arith

  posts-post_and_record :
      (account : IgAccount) (token : String) (t : Trace)
      → posts (catching (post_and_record env input account token) (on_error env input) t).1
        ≡ message env input account token ∷ posts t
  unfolding post_and_record on_error
  posts-post_and_record account token t = ground arith

  posts-deliver :
      (account : IgAccount) (t : Trace)
      → (posts (deliver env input account t).1 ≡ posts t)
        ⊎ Requested account t (deliver env input account t).1
  unfolding deliver
  posts-deliver account t = elim (Result-cases (env.decrypt account.token account.ig_user_id)) [
    | inl (token, e) ↦ inr (token, e, rw (e, deliver) (posts-post_and_record account token t))
    | inr (x, e) ↦ inl (rw (e, deliver) (ground arith))
  ]

  posts-on_rate :
      (account : IgAccount) (r : RateLimitResult) (t : Trace)
      → (posts (on_rate env input account r t).1 ≡ posts t)
        ⊎ ((r.allowed ≡ true) × Requested account t (on_rate env input account r t).1)
  unfolding on_rate
  posts-on_rate account r t = elim (Bool-cases r.allowed) [
    | inl e ↦ elim (posts-deliver account t) [ inl q ↦ inl (rw e q) | inr q ↦ inr (e, rw e q) ]
    | inr e ↦ inl (rw e (ground arith))
  ]

  posts-consume_rate :
      (account : IgAccount) (t : Trace)
      → (posts (consume_rate env input account t).1 ≡ posts t)
        ⊎ (Granted t × Requested account t (consume_rate env input account t).1)
  unfolding consume_rate
  posts-consume_rate account t = after (checked t).0 refl
    where
      quiet : posts (checked t).1 ≡ posts t
      quiet = posts-check_and_consume env t _ _ _

      after :
          (r : Result RateLimitResult)
          → (checked t).0 ≡ r
          → (posts (consume_rate env input account t).1 ≡ posts t)
            ⊎ (Granted t × Requested account t (consume_rate env input account t).1)
      after (err x) e = inl (rw (e, consume_rate) quiet)
      after (ok r) e = elim (posts-on_rate account r (checked t).1) [
        | inl q ↦ inl (rw (e, consume_rate) (q ∙ quiet))
        | inr (a, (token, d, q)) ↦ inr (
          (r, e, a),
          (
            token,
            d,
            rw (e, consume_rate) (q ∙ ap (λ ps. message env input account token ∷ ps) quiet),
          ),
        )
      ]

  -- Some event of the account has come in during the last 24 hours.
  abbrev pub RecentEvent : Trace → Type 0
  RecentEvent t =
      (n : ℕ) × (env.events_since t input.ig_account_id (env.clock t - window_ms) ≡ ok n) × (0 < n)

  pub record Cleared (t t' : Trace) : Type 0 where
    pub send : Send
    pub loaded : env.query_send t input.send_id ≡ ok (some send)
    pub waiting : send.status ≡ queued
    pub account : IgAccount
    pub connected : env.query_ig_account t input.ig_account_id ≡ ok (some account)
    pub recent : RecentEvent t
    pub granted : Granted t
    pub requested : Requested account t t'

  posts-check_account :
      (send : Send) (found : Option IgAccount) (t : Trace)
      → env.query_send t input.send_id ≡ ok (some send)
      → send.status ≡ queued
      → env.query_ig_account t input.ig_account_id ≡ ok found
      → (posts (check_account env input found t).1 ≡ posts t)
        ⊎ Cleared t (check_account env input found t).1
  unfolding check_account
  posts-check_account send none t l w a = inl (ground arith)
  posts-check_account send (some account) t l w a =
      elim (Result-cases (env.events_since t input.ig_account_id (env.clock t - window_ms))) [
        | inr (x, e) ↦ inl (rw (e, check_account))
        | inl (n, e) ↦ elim (Bool-cases (ltb 0 n)) [
          | inr quiet ↦ inl (rw (e, quiet, check_account) (ground arith))
          | inl busy ↦ elim (posts-consume_rate account t) [
            | inl same ↦ inl (rw (e, busy, check_account) same)
            | inr (g, req) ↦ inr (record {
              send = send;
              loaded = l;
              waiting = w;
              account = account;
              connected = a;
              recent = (n, e, ground arith);
              granted = g;
              requested = rw (e, busy, check_account) req;
            })
          ]
        ]
      ]

  posts-on_row :
      (found : Option Send) (t : Trace)
      → env.query_send t input.send_id ≡ ok found
      → (posts (on_row env input found t).1 ≡ posts t) ⊎ Cleared t (on_row env input found t).1
  unfolding on_row
  posts-on_row none t l = inl refl
  posts-on_row (some send) t l = elim (Bool-cases (is_queued send.status)) [
    | inr not_queued ↦ inl (rw not_queued)
    | inl waiting ↦ elim (Result-cases (env.query_ig_account t input.ig_account_id)) [
      | inr (x, e) ↦ inl (rw (waiting, e, on_row))
      | inl (found, e) ↦
          rw (waiting, e, on_row) (posts-check_account send found t l (ground arith) e)
    ]
  ]

  -- A run of sendDM makes no request to Meta, or the row was queued, its account is there, the
  -- account has had an event in the last 24 hours, the limiter granted the attempt, the token
  -- decrypts, and the run makes just one request, with the job's text to its recipient.
  pub posts-send_dm :
      (t : Trace) → (posts (send_dm env input t).1 ≡ posts t) ⊎ Cleared t (send_dm env input t).1
  unfolding send_dm
  posts-send_dm t = elim (Result-cases (env.query_send t input.send_id)) [
    | inr (x, e) ↦ inl (rw (e, send_dm))
    | inl (found, e) ↦ rw (e, send_dm) (posts-on_row found t e)
  ]
