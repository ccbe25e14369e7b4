-- ===== src/SendDm/Retry.antt =====
-- Runs after the first, and what a run leaves in the row when Meta or the database fails.
use automatebro.Prelude.{◌+◌, String, ◌≡◌, ◌≢◌, refl, false, true, some, ◌∷◌, arith}
use automatebro.Records.{Send, SendStatus, queued, sent, failed, rate_limited, meta_says, IgAccount}
use automatebro.Action.{
  Env, Trace, ok, err, plain, marked, set_send, post, posts, SendUpdate, no_update,
}
use automatebro.Rows.{apply_update, ReadsUpdates}
use automatebro.RateLimit.{RateLimitResult}
use automatebro.SendWhatsapp.{is_queued}
use automatebro.SendDm.{
  SendDmInput, result_of, failure, post_message, rate_limited_update, sent_update, failed_update,
  retry_update, message, deliver, on_rate, send_dm,
}

not_queued : (s : SendStatus) → s ≢ queued → is_queued s ≡ false
not_queued queued h = absurd (h refl)
not_queued _ h = refl

module _ (env : Env) (input : SendDmInput) where
  -- A run on a row that is not queued reports the row's status and writes nothing.
  pub send_dm_settled :
      (t : Trace) (row : Send)
      → env.query_send t input.send_id ≡ ok (some row)
      → row.status ≢ queued
      → send_dm env input t ≡ (ok (result_of row.status), t)
  unfolding send_dm
  send_dm_settled t row e h = rw (e, send_dm) (rw (not_queued row.status h))

  -- A direct-message job whose row is there and which the limiter turns away is thrown to be run
  -- again, and, the database taking the update and showing it, the next run returns the status
  -- rateLimited and writes nothing and makes no request.
  pub rate_limited_dm_never_sent :
      (account : IgAccount) (r : RateLimitResult) (t : Trace) (row : Send)
      → ReadsUpdates env
      → env.query_send t input.send_id ≡ ok (some row)
      → r.allowed ≡ false
      → env.accepts t (set_send input.send_id (rate_limited_update r.retry_after_ms)) ≡ ok tt
      → ((on_rate env input account r t).0 ≡ err (marked "rate limited" true))
        × (send_dm env input (on_rate env input account r t).1
            ≡ (ok (result_of rate_limited), (on_rate env input account r t).1))
  unfolding rate_limited_update
  rate_limited_dm_never_sent account r t row reads there refused accepts = rw on_rate_refused (
    refl,
    send_dm_settled _ (apply_update (rate_limited_update r.retry_after_ms) row)
        (reads t input.send_id (rate_limited_update r.retry_after_ms) row there) (λ e. cc e),
  )
    where
      on_rate_refused : on_rate env input account r t ≡ (
        err (marked "rate limited" true),
        set_send input.send_id (rate_limited_update r.retry_after_ms) ∷ t,
      )
      on_rate_refused = unfold on_rate in rw refused (ground (arith, accepts))

  abbrev pub asked : IgAccount → String → Trace → Trace
  asked account token t = post (message env input account token) ∷ t

  -- When the token decrypts, Meta answers with an error to be retried, and the database takes the
  -- update and shows it, the run throws the error on, and the row has the status that it had and
  -- one attempt more.
  pub deliver_retried :
      (account : IgAccount) (token m : String) (t : Trace) (row : Send)
      → ReadsUpdates env
      → env.decrypt account.token account.ig_user_id ≡ ok token
      → post_message (env.answer t (message env input account token)) ≡ err (marked m true)
      → env.accepts (asked account token t) (set_send input.send_id (retry_update m)) ≡ ok tt
      → env.query_send (asked account token t) input.send_id ≡ ok (some row)
      → ((deliver env input account t).0 ≡ err (marked m true))
        × ((row' : Send) × (env.query_send (deliver env input account t).1 input.send_id
              ≡ ok (some row'))
            × (row'.status ≡ row.status)
            × (row'.attempt ≡ row.attempt + 1))
  unfolding retry_update
  deliver_retried account token m t row reads d a accepts there = rw delivered_so (
    refl,
    (
      apply_update (retry_update m) row,
      reads (asked account token t) input.send_id (retry_update m) row there,
      refl,
      refl,
    ),
  )
    where
      delivered_so :
          deliver env input account t
          ≡ (err (marked m true), set_send input.send_id (retry_update m) ∷ asked account token t)
      delivered_so = unfold deliver in rw (d, deliver) (rw a (ground (arith, accepts)))

  -- When the token decrypts, Meta has taken the message, the database refuses to record it as sent,
  -- by an error without a mark, takes the update to failed and shows it, then the run reports a
  -- failure although it made the request; the row says failed and has no new identifier; and a
  -- further run reports failed and makes no request and no write.
  pub deliver_unrecorded :
      (account : IgAccount) (token id m : String) (t : Trace) (row : Send)
      → ReadsUpdates env
      → env.decrypt account.token account.ig_user_id ≡ ok token
      → post_message (env.answer t (message env input account token)) ≡ ok id
      → env.accepts (asked account token t) (
          set_send input.send_id (record no_update {
            status = some sent;
            meta_message_id = some id;
            sent_at = some (env.clock (asked account token t));
          }))
        ≡ err (plain m)
      → env.accepts (asked account token t) (
          set_send input.send_id (record no_update {
            status = some failed;
            error_message = some (meta_says m);
            failed_at = some (env.clock (asked account token t));
          }))
        ≡ ok tt
      → env.query_send (asked account token t) input.send_id ≡ ok (some row)
      → ((deliver env input account t).0 ≡ ok (failure (meta_says m)))
        × (posts (deliver env input account t).1 ≡ message env input account token ∷ posts t)
        × ((row' : Send) × (env.query_send (deliver env input account t).1 input.send_id
              ≡ ok (some row'))
            × (row'.status ≡ failed)
            × (row'.meta_message_id ≡ row.meta_message_id))
        × (send_dm env input (deliver env input account t).1
            ≡ (ok (result_of failed), (deliver env input account t).1))
  unfolding sent_update failed_update
  deliver_unrecorded account token id m t row reads d a refused accepts there = rw ended (
    refl,
    refl,
    (apply_update update row, shown, refl, refl),
    send_dm_settled _ (apply_update update row) shown (λ e. cc e),
  )
    where
      update : SendUpdate
      update = failed_update (meta_says m) (env.clock (asked account token t))

      shown :
          env.query_send (set_send input.send_id update ∷ asked account token t) input.send_id
          ≡ ok (some (apply_update update row))
      shown = reads (asked account token t) input.send_id update row there

      ended :
          deliver env input account t
          ≡ (ok (failure (meta_says m)), set_send input.send_id update ∷ asked account token t)
      ended = unfold deliver in rw (d, deliver) (rw a (ground (arith, refused, accepts)))
