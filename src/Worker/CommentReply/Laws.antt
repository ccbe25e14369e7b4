-- ===== src/Worker/CommentReply/Laws.antt =====
-- What a run of the comment-reply job does.
use automatebro.Prelude.{
  String, ◌≡◌, refl, ap, ◌∙◌, ◌⊎◌, inl, inr, Option, none, some, ◌∷◌, arith, or_default,
}
use automatebro.Records.{
  sent, failed, IgAccount, ErrorMessage, ig_account_not_found, decrypt_failed, meta_says,
}
use automatebro.Action.{
  message_of, Env, Trace, Effect, Result-cases, ok, err, SendUpdate, set_send, posts, Post,
  comment_reply_message, catching, Error, Body, post,
}
use automatebro.SendDm.{failed_update, sent_update}
use automatebro.Adapters.Meta.{meta_fetch, reply_to_comment}
use automatebro.Worker.CommentReply.{
  Job, mark_failed, post_and_record, on_error, on_account, send_comment_reply,
}

module _ (env : Env) (job : Job) where
  abbrev pub reply_request : String → Post
  reply_request token = comment_reply_message token job.comment_id job.message

  -- The last write settles the row, and at most one request went before it.
  pub record Settled (t t' : Trace) : Type 0 where
    pub update : SendUpdate
    pub before : Trace
    pub last : t' ≡ set_send job.send_id update ∷ before
    pub settled : (update.status ≡ some sent) ⊎ (update.status ≡ some failed)
    pub requests :
        (posts before ≡ posts t)
        ⊎ ((token : String) × (posts before ≡ reply_request token ∷ posts t))

  abbrev TakesWrites : Type 0
  TakesWrites = (t : Trace) (e : Effect) → env.accepts t e ≡ ok tt

  module _ (takes : TakesWrites) where
    mark_failed_writes :
        (m : ErrorMessage) (t : Trace)
        → mark_failed env job m t
          ≡ (ok tt, set_send job.send_id (failed_update m (env.clock t)) ∷ t)
    mark_failed_writes m t =
        unfold mark_failed in
        ground (arith, takes t (set_send job.send_id (failed_update m (env.clock t))))

    failed_settles :
        (m : ErrorMessage) (t0 t : Trace)
        → (posts t ≡ posts t0) ⊎ ((token : String) × (posts t ≡ reply_request token ∷ posts t0))
        → ((mark_failed env job m t).0 ≡ ok tt) × Settled t0 (mark_failed env job m t).1
    unfolding failed_update
    failed_settles m t0 t asked = rw (mark_failed_writes m t) (
      refl,
      record {
        update = failed_update m (env.clock t);
        before = t;
        last = refl;
        settled = inr refl;
        requests = asked;
      },
    )

    abbrev asked : String → Trace → Trace
    asked token t = post (reply_request token) ∷ t

    posted :
        (token : String) (t : Trace) (body : Body)
        → meta_fetch (env.answer t (reply_request token)) ≡ ok body
        → post_and_record env job token t ≡ (
          ok tt,
          set_send job.send_id
                (sent_update (or_default body.object_id "") (env.clock (asked token t)))
              ∷ asked token t,
        )
    posted token t body e =
        unfold post_and_record in
        unfold reply_to_comment in
        rw (e, reply_to_comment)
          (ground (
            arith,
            takes (asked token t) (
                set_send job.send_id
                  (sent_update (or_default body.object_id "") (env.clock (asked token t)))),
          ))

    not_posted :
        (token : String) (t : Trace) (x : Error)
        → meta_fetch (env.answer t (reply_request token)) ≡ err x
        → post_and_record env job token t ≡ (err x, asked token t)
    not_posted token t x e =
        unfold post_and_record in unfold reply_to_comment in rw (e, reply_to_comment)

    attempt_settles :
        (token : String) (t : Trace)
        → let run = catching (post_and_record env job token) (on_error env job) t in
          (run.0 ≡ ok tt) × Settled t run.1
    unfolding on_error sent_update
    attempt_settles token t =
        elim (Result-cases (meta_fetch (env.answer t (reply_request token)))) [
          | inl (body, e) ↦ rw (posted token t body e) (
            refl,
            record {
              update = sent_update (or_default body.object_id "") (env.clock (asked token t));
              before = asked token t;
              last = refl;
              settled = inl refl;
              requests = inr (token, refl);
            },
          )
          | inr (x, e) ↦
              rw (not_posted token t x e)
                (failed_settles (meta_says (message_of x)) t (asked token t) (inr (token, refl)))
        ]

    on_account_settles :
        (found : Option IgAccount) (t : Trace)
        → ((on_account env job found t).0 ≡ ok tt) × Settled t (on_account env job found t).1
    unfolding on_account
    on_account_settles none t = failed_settles ig_account_not_found t t (inl refl)
    on_account_settles (some account) t =
        elim (Result-cases (env.decrypt account.token account.ig_user_id)) [
          | inl (token, d) ↦ rw (d, on_account) (attempt_settles token t)
          | inr (x, d) ↦ rw (d, on_account) (failed_settles decrypt_failed t t (inl refl))
        ]

  -- A run of the comment-reply job, in a database that takes every write and finds the account or
  -- its absence, returns, makes at most one request to Meta, with the job's text to its comment,
  -- and its last write settles the row as sent or as failed.
  pub send_comment_reply-Settled :
      TakesWrites
      → (found : Option IgAccount) (t : Trace) → env.query_ig_account t job.ig_account_id ≡ ok found
      → ((send_comment_reply env job t).0 ≡ ok tt) × Settled t (send_comment_reply env job t).1
  send_comment_reply-Settled takes found t e =
      unfold send_comment_reply in rw (e, send_comment_reply) (on_account_settles takes found t)

  posts-attempt :
      (token : String) (t : Trace)
      → posts (catching (post_and_record env job token) (on_error env job) t).1
        ≡ reply_request token ∷ posts t
  unfolding post_and_record on_error
  posts-attempt token t = elim (Result-cases (meta_fetch (env.answer t (reply_request token)))) [
    | inl (body, e) ↦ unfold reply_to_comment mark_failed in rw (e, reply_to_comment) (ground arith)
    | inr (x, e) ↦ unfold reply_to_comment mark_failed in rw (e, reply_to_comment) (ground arith)
  ]

  posts-send_comment_reply :
      (account : IgAccount) (token : String) (t : Trace)
      → env.query_ig_account t job.ig_account_id ≡ ok (some account)
      → env.decrypt account.token account.ig_user_id ≡ ok token
      → posts (send_comment_reply env job t).1 ≡ reply_request token ∷ posts t
  posts-send_comment_reply account token t e d =
      unfold send_comment_reply in
      unfold on_account in rw (e, send_comment_reply) (rw (d, on_account) (posts-attempt token t))

  -- Two runs of the same comment-reply job, with the account there and its token decrypting both
  -- times, make two requests, whatever came of the first and whatever the row then says.
  pub send_comment_reply_twice :
      (account : IgAccount) (token : String) (t : Trace)
      → ((t' : Trace) → env.query_ig_account t' job.ig_account_id ≡ ok (some account))
      → env.decrypt account.token account.ig_user_id ≡ ok token
      → posts (send_comment_reply env job (send_comment_reply env job t).1).1
        ≡ reply_request token ∷ reply_request token ∷ posts t
  send_comment_reply_twice account token t there d =
      posts-send_comment_reply account token _ (there _) d
      ∙ ap (λ ps. reply_request token ∷ ps) (posts-send_comment_reply account token t (there t) d)
