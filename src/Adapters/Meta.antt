-- ===== src/Adapters/Meta.antt =====
-- packages/shared/src/adapters/meta.ts: a request to the Graph API, its errors, the reply to a comment.
use automatebro.Prelude.{ℕ, String, Option, none, some, or_default, if◌then◌else◌}
use automatebro.Records.{Text}
use automatebro.Action.{
  Env, Action, Body, Fetched, timed_out, network_error, response, null_body, null_read, plain,
  MetaApiError, meta_api, Result, ok, err, comment_reply_message, request, lift, pure, ◌>>=◌,
}
use automatebro.Adapters.Whatsapp.{is_ok_status}

abbrev pub meta_error : String → ℕ → Option ℕ → Option ℕ → MetaApiError
meta_error message status code subcode = record {
  message = message;
  status_code = status;
  meta_code = code;
  meta_subcode = subcode;
}

unfoldable pub meta_fetch : Fetched → Result Body
meta_fetch timed_out = err (meta_api (meta_error "Meta API request timed out" 0 none none))
meta_fetch (network_error m) = err (meta_api (meta_error m 0 none none))
meta_fetch (null_body status) = err (plain null_read)
meta_fetch (response status none) =
    err (meta_api (meta_error "Meta API returned non-JSON response" status none none))
meta_fetch (response status (some body)) =
    if is_ok_status status
    then ok body
    else err (
        meta_api (
          meta_error (or_default body.error_text "HTTP error") status body.error_code
            body.error_subcode))

module _ (env : Env) where
  -- The identifier of the new comment.
  unfoldable pub reply_to_comment : String → Text → String → Action String
  unfolding meta_fetch
  reply_to_comment comment_id message token = do
    fetched ← request env (comment_reply_message token comment_id message)
    body ← lift (meta_fetch fetched)
    pure (or_default body.object_id "")
