-- ===== src/Chat/Standard.antt =====
-- A client's message and its operation, under a rate limit (`parse_json_message` of
-- lemmy_websocket/src/chat_server.rs and the handler of `StandardMessage` in handlers.rs).
use lemmy.Prelude.{ℕ, String, Option, none, some, Result, ok, err, LemmyError, api, internal}
use lemmy.Prelude.Int.{ℤ}
use lemmy.Prelude.Maps.{get}
use lemmy.Structs.{UserOperation, register, create_post, create_community}
use lemmy.RateLimit.Limiter.{Float, RateLimitType, message, post, RateLimiter}
use lemmy.RateLimit.Limiter as Limiter
use lemmy.RateLimit.Wrap.{RateLimitConfig, Readings, Request, wrap}
use lemmy.Chat.Server.{ChatServer}

pub record StandardMessage : Type 0 where
  pub id : ℕ
  pub msg : String

-- The kind of limit of an operation.
unfoldable pub kind_of : UserOperation → RateLimitType
kind_of register = Limiter.RateLimitType.register
kind_of create_post = post
kind_of create_community = Limiter.RateLimitType.register
kind_of op = message

-- `data` as text, and `op` if it is a text.
pub record Envelope : Type 0 where
  pub data_text : String
  pub op_text : Option String

-- `read_json` is `serde_json::from_str` with the two members, `from_str` is what strum derives for
-- the operations, `handler` is the server's message handler.
module _ (f : Float) (too_many : RateLimitType → String → ℤ → ℤ → String) (c : RateLimitConfig)
    (read_json : String → Option Envelope) (from_str : String → Option UserOperation)
    (handler : ℕ → UserOperation → String → Request f String) where
  unfoldable pub session_ip : ChatServer → ℕ → String
  session_ip s id = elim (get id s.sessions) [ none ↦ "blank_ip" | some info ↦ info.ip ]

  -- The operation of a text, if it has one.
  unfoldable pub read_operation : String → Result (UserOperation × String)
  read_operation msg = elim (read_json msg) [
    | none ↦ err internal
    | some json ↦ elim json.op_text [
      | none ↦ err (api "Unknown op type")
      | some op ↦ elim (from_str op) [
        | none ↦ err internal
        | some user_operation ↦ ok (user_operation, json.data_text)
      ]
    ]
  ]

  unfoldable pub parse_json_message :
      ChatServer → StandardMessage → Readings → RateLimiter f → RateLimiter f × Result String
  parse_json_message s msg at limiter = elim (read_operation msg.msg) [
    | err e ↦ (limiter, err e)
    | ok (op, content) ↦
        wrap f too_many c (kind_of op) (session_ip s msg.id) at (handler msg.id op content) limiter
  ]

  -- The handler of the message: an error becomes the answer's text.
  module _ (to_string : LemmyError → String) where
    unfoldable pub answer : Result String → String
    answer (ok m) = m
    answer (err e) = to_string e

    unfoldable pub handle_standard :
        ChatServer → StandardMessage → Readings → RateLimiter f → RateLimiter f × String
    unfolding parse_json_message answer
    handle_standard s msg at limiter =
        let (l, r) = parse_json_message s msg at limiter in (l, answer r)
