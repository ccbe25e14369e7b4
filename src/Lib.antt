-- ===== src/Lib.antt =====
-- A verification library for AutomateBro, which answers Instagram comments and messages and WhatsApp
-- messages for its tenants. A webhook stores an event; a worker takes it from a queue, and the handler
-- for its kind matches it against the tenant's automations and, for each match, inserts a row into
-- `sends` and enqueues a job; the job's handler passes the row through the gates that Meta and the
-- tenant have set, asks Meta to deliver it, and records in the row what came of it. The web application
-- lets each tenant manage its automations and leads, behind a repository that binds every access to the
-- tenant. The library models these handlers and what they stand on.
--
-- Where things are. Paths are those of the repository; `shared` is packages/shared/src.
--   Records          shared/db/schema.ts: the rows.
--   Action           handlers as actions on the history of writes; shared/queue/jobTypes.ts.
--   Rows             what StrictDB documents of an update of a row.
--   Calendar         the key of a month.
--   Text             the string methods of JavaScript that the handlers call.
--   Matching         matchesKeyword, renderTemplate, intentGateAllows, the post scope.
--   Whatsapp         shared/whatsapp: serviceWindow.ts, rates.ts, stopKeywords.ts.
--   Adapters         shared/adapters: a message call of whatsapp.ts, a request and the comment reply of
--                    meta.ts, and their errors.
--   Webhooks         shared/meta/whatsappWebhookParser.ts (Json, Schemas, Parser) and
--                    shared/handlers/webhooks/ingestWhatsappWebhook.ts (Ingest); shared/meta/eventId.ts
--                    and ingestMetaWebhook.ts (Meta); shared/meta/verifySignature.ts (Signature).
--   Worker           apps/worker/src: jobs/processEvent.ts (Event), jobs/sendCommentReply.ts
--                    (CommentReply), dispatchJob of index.ts with the job schemas (Dispatch).
--   Templates        shared/handlers/whatsappTemplates/handleTemplateStatusWebhook.ts.
--   RateLimit        shared/meta/rateLimit.ts and shared/whatsapp/rateLimit.ts. SortedSet is the model
--                    of Redis, Bound is about one check, Window about any number of them.
--   SendWhatsapp     shared/handlers/sendWhatsapp.ts. Outcome and Cost model parts of it; Quiet, Gates,
--                    Cleared, Counting and Retry are about it.
--   SendDm           shared/handlers/sendDM.ts and shared/meta/messageWindow.ts.
--   Ai               shared/adapters/openai.ts (Openai), the monthly budget (Usage),
--                    shared/handlers/classifyIntent.ts (Classify), generateAiReply.ts (Reply).
--   AiUsage          shared/handlers/aiUsage/getAiUsageSummary.ts.
--   Leads            shared/handlers/leads/updateLeadTags.ts (Tags), shared/handlers/captureLead.ts
--                    (Capture).
--   Automations      shared/handlers/automations: previewAutomation.ts, duplicateAutomation.ts.
--   Tenants          shared/db/repo.ts (Repo), shared/auth/ctx.ts (Access), shared/db/pagination.ts
--                    (Pagination), slugify of shared/db/schema.ts (Slug).
--   OauthState       shared/meta/state.ts.
--   Processing       shared/handlers: processDmEvent.ts and processStoryReplyEvent.ts (Dm),
--                    processCommentEvent.ts (Comment), processWhatsappMessageEvent.ts (Whatsapp); Loop is
--                    the loop that they share.
--   Prelude, Fixtures, Examples, and modules called Tests: shared names, concrete inputs, examples.
--
-- How the model corresponds to the code. An `await` of a service is a step of an `Action`, in the
-- source's order. The services (StrictDB, Redis, BullMQ, Meta, OpenAI, the clock, the random generator,
-- the decryption of tokens, JSON.parse) are no code of the repository but for thin clients; they are
-- the record `Env`, and what they answer may depend on the whole history of the run. A write that a
-- service refuses throws and leaves no trace in the history, but for the three insertions whose refusal
-- makes a handler read again: their refusal is in the history, so the second read may find another
-- job's row. A request to Meta or OpenAI is in the history whatever comes back. A theorem without a
-- hypothesis on `Env` holds for all such answers; other jobs are seen through them only where the
-- history changes, so two equal reads of one run with nothing between them agree. The rejection of
-- getDb() is that of the query or the write that comes next to it, but for the handlers of webhooks,
-- where it stands outside every `try` and is `connect`. A gate of a long handler is a definition of its
-- own that ends in a refusal or in the next gate.
--
-- Dates are milliseconds on ℕ, a JavaScript string that is taken apart is its UTF-16 code units, any
-- other string is a `String`. `lower` stands for toLowerCase. The texts of error messages are data that
-- name the text and carry what it interpolates, but for the texts of errors that are thrown, which are
-- shortened, and the causes of a failed decryption and of a template not approved, which are left out.
-- Loops are over lists, but for the digits of a number, whose fuel is above the number and is enough. An
-- event's payload enters as the fields that a handler reads of it, an
-- Instagram delivery as those that its parser reads, a WhatsApp delivery as a JSON value. The handlers of
-- the web application ask parameters of their own: `Db` is what StrictDB documents of a collection, which
-- Tenants/Repo/Memory shows can hold, `Source` what the repository finds of an automation, `Answers` what
-- a context is made of.
--
-- Not modelled: other jobs between two reads of one run with nothing between them; the expiry of the
-- limiter's keys, which comes after their entries have left the window; two pipelines of the limiter that interleave; the orders of Promise.all but one; floating-point
-- rounding in the cost of AI calls and in percentages; what the regular expressions of captureLead find;
-- the encryption of tokens, which is a call of node:crypto; the connection of accounts, the management of
-- templates and automations, the lists and the export of the web application, which come with a later
-- extension; and the web application's pages.
pub mod Action
pub mod Adapters
pub mod Ai
pub mod AiUsage
pub mod Automations
pub mod Calendar
pub mod Examples
pub mod Fixtures
pub mod Leads
pub mod Matching
pub mod OauthState
pub mod Prelude
pub mod Processing
pub mod RateLimit
pub mod Records
pub mod Rows
pub mod SendDm
pub mod SendWhatsapp
pub mod Templates
pub mod Tenants
pub mod Text
pub mod Webhooks
pub mod Whatsapp
pub mod Worker
