-- ===== src/Messages/Serve.antt =====
-- The whole `POST` of a message: the idempotency key, the rate limit, the route, and the response
-- that is stored under the key.
use a2a_comms.Common.{
  ℕ, String, Bool, true, false, Option, none, some, List, ◌++◌, leb, eqb, if◌then◌else◌, Text,
  codes,
}
use a2a_comms.Contract.Store.{Store, Caller, Reply, refuse, reply}
use a2a_comms.Contract.{ErrorCode, conflict, rate_limited, validation_error}
use a2a_comms.RateLimit.{RateLimitConfig, RateLimitResult, Limits, check_rate_limit}
use a2a_comms.Idempotency.{
  check_idempotency, store_idempotency_response, IdempotencyKey, IdempotencyResult, go_on,
  key_too_long, in_progress, replay,
}
use a2a_comms.Messages.Request.{Platform, MessageBody}
use a2a_comms.Messages.Send.{MessageResponse, post_message}
use Prim.Native.String.{◌++◌ as concat}

pub record Server : Type 0 where
  pub store : Store
  pub keys : List (IdempotencyKey MessageResponse)
  pub limits : Limits

-- The headers of a response that was computed: `X-Turns-Warning` and `X-Contract-Status`.
pub data Response : Type 0 where
  failed : ℕ → ErrorCode → Response
  created : MessageResponse → (turns_warning : Option ℕ) (is_exhausted : Bool) → Response
  replayed : ℕ → Option MessageResponse → Response

-- `RATE_LIMITS.messages`
abbrev pub message_limit : RateLimitConfig
message_limit = record { window_ms = 3600000; max_requests = 100 }

unfoldable pub endpoint_of : String → Text
endpoint_of id = codes "POST /v1/contracts/" ++ (codes id ++ codes "/messages")

abbrev pub respond : MessageResponse → Response
respond r =
    created r (if leb r.turns_remaining 3 then some r.turns_remaining else none)
      (eqb r.turns_remaining 0)

-- A refusal stores no response.
abbrev pub conclude :
    ℕ → Caller → String → Option Text → Server → Reply MessageResponse × Store → Response × Server
conclude now auth id key w (refuse st code, s) = (failed st code, record w { store = s })
conclude now auth id key w (reply r, s) = (
  respond r,
  record w {
    store = s;
    keys = store_idempotency_response now key auth.id (endpoint_of id) 201 r w.keys;
  },
)

-- The route, where the rate limit lets the request through.
abbrev pub limited :
    ℕ
    → Caller
    → String
    → Option Text
    → Server
    → Bool
    → Reply MessageResponse × Store
    → Response × Server
limited now auth id key w true x = conclude now auth id key w x
limited now auth id key w false x = (failed 429 rate_limited, w)

-- `answers`: whether the table of rate limits does.
abbrev pub check_message_limit : (answers : Bool) → ℕ → Caller → Limits → RateLimitResult × Limits
check_message_limit answers now auth limits =
    check_rate_limit answers (concat "messages:" auth.id) message_limit now limits

unfoldable pub run_limited :
    Platform
    → (Store → Store)
    → (answers : Bool) → ℕ
    → Caller
    → String
    → MessageBody
    → Option Text
    → Server
    → Response × Server
unfolding post_message check_rate_limit store_idempotency_response
run_limited m others answers now auth id body key w =
    let checked = check_message_limit answers now auth w.limits in
    limited now auth id key (record w { limits = checked.1 }) checked.0.allowed
      (post_message m others now auth id body w.store)

-- What the check of the key comes to, with the keys that it leaves, and the request behind it.
abbrev pub continued :
    Platform
    → (Store → Store)
    → (answers : Bool) → ℕ
    → Caller
    → String
    → MessageBody
    → Server
    → IdempotencyResult MessageResponse × List (IdempotencyKey MessageResponse)
    → Response × Server
continued m others answers now auth id body w (go_on key, keys) =
    run_limited m others answers now auth id body key (record w { keys = keys })
continued m others answers now auth id body w (key_too_long, keys) =
    (failed 400 validation_error, record w { keys = keys })
continued m others answers now auth id body w (in_progress, keys) =
    (failed 409 conflict, record w { keys = keys })
continued m others answers now auth id body w (replay st r, keys) =
    (replayed st r, record w { keys = keys })

unfoldable pub send :
    Platform
    → (Store → Store)
    → (answers : Bool) → ℕ
    → Caller
    → String
    → Option Text
    → MessageBody
    → Server
    → Response × Server
unfolding run_limited check_idempotency endpoint_of
send m others answers now auth id key body w =
    continued m others answers now auth id body w
      (check_idempotency now key auth.id (endpoint_of id) w.keys)
