-- ===== src/Adapters/Whatsapp.antt =====
-- packages/shared/src/adapters/whatsapp.ts: errors, responses and the two message calls.
use automatebro.Prelude.{
  ℕ, ◌≤◌, ◌<◌, String, ◌≡◌, ◌≢◌, ◌⊎◌, Bool, true, false, ◌||◌, ◌&&◌, Option, none, some, arith, ltb,
  leb, ◌==◌, str_eq, eq_iff, or_default, if◌then◌else◌,
}
use automatebro.Action.{
  Body, Fetched, timed_out, network_error, response, null_body, null_read, WhatsappApiError,
}

-- `errorEnv.error?.code === n`
abbrev is_code : Option ℕ → ℕ → Bool
is_code none n = false
is_code (some c) n = c == n

unfoldable pub is_retryable : WhatsappApiError → Bool
is_retryable e =
    if e.status_code == 0 || leb 500 e.status_code
    then true
    else if e.status_code == 429
    then true
    else is_code e.meta_code 131056 || is_code e.meta_code 131048

-- `crashed` is any other error than a WhatsappApiError, with its message.
pub data ApiResult {ℓ} (A : Type ℓ) : Type ℓ where
  returned : A → ApiResult A
  threw : WhatsappApiError → ApiResult A
  crashed : String → ApiResult A

abbrev pub api_error : String → ℕ → Option ℕ → WhatsappApiError
api_error message status code = record { message = message; status_code = status; meta_code = code }

-- `response.ok`
abbrev pub is_ok_status : ℕ → Bool
is_ok_status status = leb 200 status && ltb status 300

-- Of a null body under a good status, the null is returned, and its reader throws at once.
unfoldable pub whatsapp_fetch : Fetched → ApiResult Body
whatsapp_fetch timed_out = threw (api_error "WhatsApp API request timed out" 0 none)
whatsapp_fetch (network_error m) = threw (api_error m 0 none)
whatsapp_fetch (null_body status) = crashed null_read
whatsapp_fetch (response status none) =
    threw (api_error "WhatsApp API returned non-JSON response" status none)
whatsapp_fetch (response status (some body)) =
    if is_ok_status status
    then returned body
    else threw (api_error (or_default body.error_text "HTTP error") status body.error_code)

-- `result.messages?.[0]?.id`, which must be there and not empty.
message_id_of : ApiResult Body → ApiResult String
message_id_of (threw e) = threw e
message_id_of (crashed m) = crashed m
message_id_of (returned body) = elim body.message_id [
  | none ↦ threw (api_error "missing messages[0].id in response" 200 none)
  | some id ↦
      if str_eq id ""
      then threw (api_error "missing messages[0].id in response" 200 none)
      else returned id
]

-- What `sendFreeformMessage` and `sendTemplateMessage` return or throw for a fetch that ended so.
unfoldable pub send_message : Fetched → ApiResult String
unfolding whatsapp_fetch message_id_of
send_message f = message_id_of (whatsapp_fetch f)

abbrev pub status_of : Fetched → ℕ
status_of (response status _) = status
status_of (null_body status) = status
status_of _ = 0

-- A message call that throws an error to be retried got no status at all, a server's error, a 429,
-- or one of Meta's two rate codes.
pub send_message-retryable :
    (f : Fetched) (e : WhatsappApiError)
    → send_message f ≡ threw e
    → is_retryable e ≡ true
    → (status_of f ≡ 0)
      ⊎ ((500 ≤ status_of f)
          ⊎ ((status_of f ≡ 429) ⊎ ((e.meta_code ≡ some 131056) ⊎ (e.meta_code ≡ some 131048))))
unfolding send_message is_retryable
send_message-retryable timed_out e h r = ground arith
send_message-retryable (network_error m) e h r = ground arith
send_message-retryable (null_body status) e h r = ground arith
send_message-retryable (response status none) e h r = ground arith
send_message-retryable (response status (some body)) e h r = ground arith

-- A message call that returns has got a status in 200 to 299, and its identifier is not empty.
pub send_message-returned :
    (f : Fetched) (id : String)
    → send_message f ≡ returned id
    → (200 ≤ status_of f) × (status_of f < 300) × (id ≢ "")
unfolding send_message
send_message-returned timed_out id h = absurd (ground arith)
send_message-returned (network_error m) id h = absurd (ground arith)
send_message-returned (null_body status) id h = absurd (ground arith)
send_message-returned (response status none) id h = absurd (ground arith)
send_message-returned (response status (some body)) id h = ground (arith, eq_iff id "")
