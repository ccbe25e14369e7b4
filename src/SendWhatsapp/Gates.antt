-- ===== src/SendWhatsapp/Gates.antt =====
-- What stands between a job and a request to Meta: a request is made only if every gate let it
-- through, and no run makes two.
use automatebro.Prelude.{
  ℕ, ◌+◌, ◌≤◌, ◌<◌, String, ◌≡◌, ◌≢◌, refl, ap, ◌∙◌, ◌⊎◌, inl, inr, true, false, Option, none, some,
  ◌∷◌, arith, length, ◌==◌, Bool-cases,
}
use automatebro.Records.{Lead, WhatsappTemplate, WhatsappCosts, approved}
use automatebro.Action.{Env, Trace, Result, Result-cases, ok, err, posts, or_null}
use automatebro.RateLimit.{RateLimitResult, check_and_consume, tier1_duration_ms}
use automatebro.Adapters.Whatsapp.{ApiResult, returned, threw, crashed, send_message}
use automatebro.Whatsapp.ServiceWindow.{
  window_duration_ms, can_send_freeform, can_send_freeform_iff,
}
use automatebro.SendWhatsapp.Cost.{total_conversations}
use automatebro.SendWhatsapp.Quiet.{
  posts-check_and_consume, posts-refuse, posts-increment_conversation_cost,
}
use automatebro.SendWhatsapp.{
  SendWhatsappInput, Job, wants_template, is_approved, last_inbound, rate_key, message, finish,
  respond, deliver, on_rate, consume_rate, check_template, check_window, choose_mode,
}

abbrev pub OptedIn : Option Lead → Type 0
OptedIn none = Unit {0}
OptedIn (some l) = l.whatsapp_opt_out_at ≡ none

abbrev pub conversations_of : Option WhatsappCosts → ℕ
conversations_of none = 0
conversations_of (some row) = total_conversations row.conversations_by_category

module _ (env : Env) (input : SendWhatsappInput) where
  -- One request more, with the token that decrypts.
  abbrev pub Requested : Job → Option WhatsappTemplate → Trace → Trace → Type 0
  Requested job template t t' =
      (token : String) × (env.decrypt job.account.token job.account.phone_number_id ≡ ok token)
      × (posts t' ≡ message env input job template token ∷ posts t)

  posts-finish :
      (job : Job) (template : Option WhatsappTemplate) (id : String) (t : Trace)
      → posts (finish env input job template id t).1 ≡ posts t
  unfolding finish
  posts-finish job none id t = ground arith
  posts-finish job (some tpl) id t = ground (
    arith,
    posts-increment_conversation_cost env t job.tenant job.account.id input.recipient_phone
        tpl.category,
  )

  posts-respond :
      (job : Job) (template : Option WhatsappTemplate) (r : ApiResult String) (t : Trace)
      → posts (respond env input job template r t).1 ≡ posts t
  unfolding respond
  posts-respond job template (returned id) t = posts-finish job template id t
  posts-respond job template (threw e) t = ground arith
  posts-respond job template (crashed m) t = ground arith

  posts-deliver :
      (job : Job) (template : Option WhatsappTemplate) (t : Trace)
      → (posts (deliver env input job template t).1 ≡ posts t)
        ⊎ Requested job template t (deliver env input job template t).1
  unfolding deliver
  posts-deliver job template t =
      elim (Result-cases (env.decrypt job.account.token job.account.phone_number_id)) [
        | inl (token, e) ↦ inr (
          token,
          e,
          rw (e, deliver)
              (posts-respond job template
                (send_message (env.answer t (message env input job template token))) _),
        )
        | inr (x, e) ↦ inl (rw (e, deliver) (ground arith))
      ]

  abbrev pub Granted : Job → Trace → Type 0
  Granted job t =
      (r : RateLimitResult) × ((check_and_consume env (rate_key job.account.phone_number_id)
          job.account.daily_conversation_cap tier1_duration_ms t).0
        ≡ ok r)
      × (r.allowed ≡ true)

  -- Every stage from the limiter on: no request, or one that the limiter granted.
  abbrev pub Limited : Job → Option WhatsappTemplate → Trace → Trace → Type 0
  Limited job template t t' = (posts t' ≡ posts t) ⊎ (Granted job t × Requested job template t t')

  posts-on_rate :
      (job : Job) (template : Option WhatsappTemplate) (r : RateLimitResult) (t : Trace)
      → (posts (on_rate env input job template r t).1 ≡ posts t)
        ⊎ ((r.allowed ≡ true) × Requested job template t (on_rate env input job template r t).1)
  unfolding on_rate
  posts-on_rate job template r t = elim (Bool-cases r.allowed) [
    | inl e ↦ elim (posts-deliver job template t) [ inl q ↦ inl (rw e q) | inr q ↦ inr (e, rw e q) ]
    | inr e ↦ inl (rw e (ground arith))
  ]

  posts-consume_rate :
      (job : Job) (template : Option WhatsappTemplate) (t : Trace)
      → Limited job template t (consume_rate env input job template t).1
  unfolding consume_rate
  posts-consume_rate job template t =
      after
        (check_and_consume env (rate_key job.account.phone_number_id)
          job.account.daily_conversation_cap tier1_duration_ms t).0
        refl
    where
      quiet :
          posts
            (check_and_consume env
              (rate_key job.account.phone_number_id)
              job.account.daily_conversation_cap
              tier1_duration_ms
              t).1
          ≡ posts t
      quiet = posts-check_and_consume env t _ _ _

      after :
          (r : Result RateLimitResult)
          → (check_and_consume env
              (rate_key job.account.phone_number_id)
              job.account.daily_conversation_cap
              tier1_duration_ms
              t).0
            ≡ r
          → Limited job template t (consume_rate env input job template t).1
      after (err x) e = inl (rw (e, consume_rate) quiet)
      after (ok r) e =
          elim (posts-on_rate job template r
            (check_and_consume env (rate_key job.account.phone_number_id)
              job.account.daily_conversation_cap tier1_duration_ms t).1) [
                | inl q ↦ inl (rw (e, consume_rate) (q ∙ quiet))
                | inr (a, (token, d, q)) ↦ inr (
                  (r, e, a),
                  (
                    token,
                    d,
                    rw (e, consume_rate)
                        (q ∙ ap (λ ps. message env input job template token ∷ ps) quiet),
                  ),
                )
              ]

  -- Gates 1 and 4: an approved template, or words within 24 hours of the recipient's last message.
  abbrev pub ModeAllows : Job → Option Lead → Trace → Option WhatsappTemplate → Type 0
  ModeAllows job lead t none =
      (wants_template job.send.kind ≡ false)
      × ((at : ℕ) × (last_inbound lead ≡ some at)
          × (at ≤ env.clock t)
          × (env.clock t < at + window_duration_ms))
      × (length input.content ≢ 0)
  ModeAllows job lead t (some tpl) =
      (wants_template job.send.kind ≡ true)
      × ((id : String) × (job.send.whatsapp_template_id ≡ some id)
          × (or_null (env.query_template t id) ≡ some tpl))
      × (tpl.status ≡ approved)

  abbrev pub Chosen : Job → Option Lead → Trace → Trace → Type 0
  Chosen job lead t t' =
      (template : Option WhatsappTemplate) × ModeAllows job lead t template
      × Granted job t
      × Requested job template t t'

  posts-check_template :
      (job : Job) (lead : Option Lead) (t : Trace) (id : Option String)
      → wants_template job.send.kind ≡ true
      → job.send.whatsapp_template_id ≡ id
      → (posts (check_template env input job id t).1 ≡ posts t)
        ⊎ Chosen job lead t (check_template env input job id t).1
  unfolding check_template
  posts-check_template job lead t none w e = inl (posts-refuse env t _ _)
  posts-check_template job lead t (some id) w e = found (or_null (env.query_template t id)) refl
    where
      found :
          (o : Option WhatsappTemplate)
          → or_null (env.query_template t id) ≡ o
          → (posts (check_template env input job (some id) t).1 ≡ posts t)
            ⊎ Chosen job lead t (check_template env input job (some id) t).1
      found none q = inl (rw (q, check_template) (posts-refuse env t _ _))
      found (some tpl) q = elim (Bool-cases (is_approved tpl.status)) [
        | inr no_way ↦ inl (rw (q, no_way, check_template) (posts-refuse env t _ _))
        | inl fine ↦ elim (posts-consume_rate job (some tpl) t) [
          | inl same ↦ inl (rw (q, fine, check_template) same)
          | inr (g, req) ↦
              inr (some tpl, (w, (id, e, q), ground arith), g, rw (q, fine, check_template) req)
        ]
      ]

  posts-check_window :
      (job : Job) (lead : Option Lead) (t : Trace)
      → wants_template job.send.kind ≡ false
      → (posts (check_window env input job lead (env.clock t) t).1 ≡ posts t)
        ⊎ Chosen job lead t (check_window env input job lead (env.clock t) t).1
  unfolding check_window
  posts-check_window job lead t w =
      elim (Bool-cases (can_send_freeform (last_inbound lead) (env.clock t))) [
        | inr shut ↦ inl (rw shut (posts-refuse env t _ _))
        | inl inside ↦ elim (Bool-cases (length input.content == 0)) [
          | inl empty ↦ inl (rw (inside, empty) (posts-refuse env t _ _))
          | inr words ↦ elim (posts-consume_rate job none t) [
            | inl same ↦ inl (rw (inside, words) same)
            | inr (g, req) ↦ inr (
              none,
              (w, (can_send_freeform_iff (last_inbound lead) (env.clock t)).0 inside, ground arith),
              g,
              rw (inside, words) req,
            )
          ]
        ]
      ]

  pub posts-choose_mode :
      (job : Job) (lead : Option Lead) (t : Trace)
      → (posts (choose_mode env input job lead t).1 ≡ posts t)
        ⊎ Chosen job lead t (choose_mode env input job lead t).1
  unfolding choose_mode
  posts-choose_mode job lead t = elim (Bool-cases (wants_template job.send.kind)) [
    | inl w ↦ rw w (posts-check_template job lead t job.send.whatsapp_template_id w refl)
    | inr w ↦ rw w (posts-check_window job lead t w)
  ]
