-- ===== src/Worker/CommentReply.antt =====
-- apps/worker/src/jobs/sendCommentReply.ts: a public reply to a comment.
pub mod Laws
use automatebro.Prelude.{String, Option, none, some}
use automatebro.Records.{
  Text, IgAccount, ErrorMessage, ig_account_not_found, decrypt_failed, meta_says,
}
use automatebro.Action.{
  message_of, Env, Action, Error, ok, err, set_send, ask, now, perform, catching, ◌>>=◌, ◌>>◌,
}
use automatebro.SendDm.{failed_update, sent_update}
use automatebro.Adapters.Meta.{reply_to_comment}

-- The job's data.
pub record Job : Type 0 where
  pub send_id : String
  pub ig_account_id : String
  pub comment_id : String
  pub message : Text

module _ (env : Env) (job : Job) where
  unfoldable pub mark_failed : ErrorMessage → Action (Unit {0})
  mark_failed m = do time ← now env; perform env (set_send job.send_id (failed_update m time))

  -- The body of the last `try`.
  unfoldable pub post_and_record : String → Action (Unit {0})
  unfolding reply_to_comment
  post_and_record token = do
    reply_id ← reply_to_comment env job.comment_id job.message token
    time ← now env
    perform env (set_send job.send_id (sent_update reply_id time))

  -- Its `catch`.
  unfoldable pub on_error : Error → Action (Unit {0})
  unfolding mark_failed
  on_error e = mark_failed (meta_says (message_of e))

  unfoldable pub on_account : Option IgAccount → Action (Unit {0})
  unfolding mark_failed
  on_account none = mark_failed ig_account_not_found
  on_account (some account) = elim (env.decrypt account.token account.ig_user_id) [
    | err e ↦ mark_failed decrypt_failed
    | ok token ↦ catching (post_and_record token) on_error
  ]

  unfoldable pub send_comment_reply : Action (Unit {0})
  unfolding on_account
  send_comment_reply = do
    account ← ask (λ t. env.query_ig_account t job.ig_account_id)
    on_account account
