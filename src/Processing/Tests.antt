-- ===== src/Processing/Tests.antt =====
-- Runs of the event handlers on concrete events, and the theorems applied at such.
use automatebro.Prelude.{◌≡◌, refl, true, false, none, some, [], ◌∷◌}
use automatebro.Records.{
  Text, comment, message, whatsapp_message, whatsapp_freeform, opt_out, stop_keyword,
}
use automatebro.Action.{Env, ok, jobs, inserted, lead_seen, lead_opted_out, insert_opt_log}
use automatebro.Fixtures.{env_with, row_of, now_ms, lead, hi, event_of, same_case}
use automatebro.Matching.{
  matches_keyword, keyword_hit, intent_gate_allows, in_post_scope, render_template,
}
use automatebro.Text.{includes, replace_all, trim}
use automatebro.Whatsapp.StopKeywords.{codes, is_stop_keyword, stop_keywords}
use automatebro.Ai.Classify.{classify_event_intent}
use automatebro.Processing.Loop.{Counts, zero_counts}
use automatebro.Processing.Dm.{InboundMessage, content_for, process_dm_event}
use automatebro.Processing.Dm.Laws.{Ran, process_dm_event_runs}
use automatebro.Processing.Comment.{CommentPayload, process_comment_event}
use automatebro.Processing.Comment.Laws.{Ran as RanComment, process_comment_event_runs}
use automatebro.Processing.Whatsapp
use automatebro.Processing.Whatsapp.{
  WaPayload, WhatsappResult, on_lead, process_whatsapp_message_event,
}
use automatebro.Processing.Whatsapp.Lead.{Message, upsert_lead_on_inbound}
use automatebro.Processing.Whatsapp.Laws.{Replied, process_whatsapp_message_event_runs}
use automatebro.Processing.Whatsapp.OptOut.{stop_enqueues_nothing, stop_opts_out, upsert_known}

-- No key for OpenAI: every event stays unclassified.
abbrev env : Env
env = record (env_with (row_of whatsapp_freeform) now_ms) { has_openai_key = false }

abbrev inbound : InboundMessage
inbound = record { sender_id = some "psid"; sender_username = some hi }

abbrev one : Counts
one = record { matched = 1; enqueued = 1 }

process_dm_event_runs_example :
    Ran
      (event_of message)
      (some "t1")
      (some "ig1")
      one
      []
      (process_dm_event env same_case (event_of message) inbound []).1
unfolding process_dm_event classify_event_intent keyword_hit intent_gate_allows matches_keyword
    includes render_template replace_all content_for
process_dm_event_runs_example =
    process_dm_event_runs env same_case (event_of message) inbound [] one refl tt refl

abbrev comment_payload : CommentPayload
comment_payload = record {
  from_id = some "psid";
  from_username = some hi;
  media_id = some "post";
  comment_id = some "c1";
}

process_comment_event_runs_example :
    RanComment
      (event_of comment)
      (some "t1")
      (some "ig1")
      one
      []
      (process_comment_event env same_case (event_of comment) comment_payload []).1
unfolding process_comment_event classify_event_intent keyword_hit intent_gate_allows matches_keyword
    includes render_template replace_all in_post_scope content_for
process_comment_event_runs_example =
    process_comment_event_runs env same_case (event_of comment) comment_payload [] one refl tt refl

abbrev payload_of : Text → WaPayload
payload_of text = record { sender = some "+91"; type = some "text"; body = some text }

abbrev replied : WhatsappResult
replied = record { counts = one; opted_out = false }

process_whatsapp_message_event_runs_example :
    Replied
      (some "t1")
      (some "a1")
      (some "+91")
      "e1"
      replied
      []
      (process_whatsapp_message_event env same_case
        (event_of whatsapp_message)
        (payload_of hi)
        []).1
unfolding process_whatsapp_message_event keyword_hit matches_keyword includes render_template
    replace_all is_stop_keyword stop_keywords upsert_lead_on_inbound trim Whatsapp.content_for
process_whatsapp_message_event_runs_example =
    process_whatsapp_message_event_runs env same_case (event_of whatsapp_message) (payload_of hi) []
      replied refl tt refl

stop_enqueues_nothing_example :
    let run =
      process_whatsapp_message_event env same_case
        (event_of whatsapp_message)
        (payload_of (codes " stop "))
        [] in
    (jobs run.1 ≡ []) × (inserted run.1 ≡ [])
unfolding is_stop_keyword stop_keywords trim
stop_enqueues_nothing_example =
    stop_enqueues_nothing env same_case (event_of whatsapp_message) (payload_of (codes " stop ")) []
      refl refl

abbrev stop_message : Message
stop_message = record {
  event_id = "e1";
  meta_event_id = "m1";
  tenant_id = "t1";
  whatsapp_account_id = "a1";
  phone = "+91";
  text = codes "stop";
}

stop_opts_out_example :
    process_whatsapp_message_event env same_case
      (event_of whatsapp_message)
      (payload_of (codes " stop "))
      []
    ≡ (
      ok (record { counts = zero_counts; opted_out = true }),
      insert_opt_log (record {
        id = "fresh";
        tenant_id = "t1";
        whatsapp_account_id = "a1";
        phone = "+91";
        action = opt_out;
        source = stop_keyword;
        evidence = "m1";
        recorded_at = now_ms;
      })
          ∷ lead_opted_out "l1" now_ms
          ∷ lead_seen "l1" now_ms none
          ∷ [],
    )
unfolding is_stop_keyword stop_keywords trim
stop_opts_out_example =
    stop_opts_out env same_case (event_of whatsapp_message) (payload_of (codes " stop ")) "t1" "a1"
      "+91" lead [] refl refl refl refl refl refl refl (λ t e. refl)

upsert_known_example : upsert_lead_on_inbound env stop_message none [] ≡ (
  ok (some (record lead { last_whatsapp_inbound_at = some now_ms; last_seen_at = now_ms })),
  lead_seen "l1" now_ms none ∷ [],
)
upsert_known_example = upsert_known env [] stop_message lead refl refl
