-- ===== src/Stream/Single.antt =====
-- `handleNonStreamResponse`: an answer in one piece, which is read up to a limit. The body is its bytes
-- and the error that follows them, if any; `elapsed` is in milliseconds.
pub mod Laws
pub mod Billing
mod Examples
use Prim.Native.String
use airgate_claude.Prelude.{
  ℕ, zero, suc, ◌+◌, ◌*◌, Bool, true, List, [], ◌∷◌, Option, none, some, String, if◌then◌else◌, ltb,
  length,
}
use airgate_claude.Prelude.Int.{pos}
use airgate_claude.Errors.{Outcome, success, transient_outcome}
use airgate_claude.Models.Usage.{TokenUsage, no_tokens, new_token_usage, fill_usage_cost}
use airgate_claude.Stream.{Doc, apply_usage_node}
use airgate_claude.Stream.Events.{Observed}
use airgate_claude.TokenManager.{Result, ok, err}

abbrev pub max_non_stream_response_size : ℕ
max_non_stream_response_size = 64 * 1048576

-- `io.ReadAll` over `io.LimitReader`: an error behind the limit is not seen.
unfoldable pub read_limited : ℕ → List ℕ → Option String → Result (List ℕ)
read_limited zero bs failure = ok []
read_limited (suc n) [] none = ok []
read_limited (suc n) [] (some e) = err e
read_limited (suc n) (b ∷ bs) failure = elim (read_limited n bs failure) [
  | err e ↦ err e
  | ok rest ↦ ok (b ∷ rest)
]

-- The first bytes of a body, at most so many.
unfoldable pub first_bytes : ℕ → List ℕ → List ℕ
first_bytes zero bs = []
first_bytes (suc n) [] = []
first_bytes (suc n) (b ∷ bs) = b ∷ first_bytes n bs

-- What the client gets.
pub record Delivered : Type 0 where
  pub content_type : String
  pub status : ℕ
  pub body : List ℕ

module _ {H : Type 0} (content_type : H → String) (doc : List ℕ → Doc) (format_price : ℕ → String)
    (elapsed status : ℕ) (headers : H) where
  -- The outcome, the error, and what the client gets.
  abbrev pub Handled : Type 0
  Handled = Outcome (List ℕ) H Observed × Option String × Option Delivered

  abbrev rejected : String → Handled
  rejected reason = (transient_outcome reason, some reason, none)

  unfoldable pub usage_of : List ℕ → Observed
  unfolding apply_usage_node new_token_usage fill_usage_cost
  usage_of body =
      let (updated, tokens) = apply_usage_node ((doc body).node "usage") true no_tokens in
      record {
        billing = record {
          usage = fill_usage_cost format_price (new_token_usage ((doc body).text "model") tokens);
          tokens = tokens;
        };
        first_event_ms = some elapsed;
        first_token_ms = some elapsed;
      }

  -- `writer` is `none` without a client to write to, or how many bytes of the body that client takes before
  -- its write fails; the error of that write is ignored.
  unfoldable pub succeeded : Option ℕ → List ℕ → Handled
  unfolding usage_of first_bytes
  succeeded writer body = (
    record {
      kind = success;
      status = status;
      body = elim writer [ none ↦ some body | some n ↦ none ];
      headers = some headers;
      reason = "";
      retry_after = pos 0;
      usage = some (usage_of body);
    },
    none,
    elim writer [
      | none ↦ none
      | some n ↦ some (record {
        content_type = content_type headers;
        status = status;
        body = first_bytes n body;
      })
    ],
  )

  unfoldable pub handle_non_stream_response : Option ℕ → List ℕ → Option String → Handled
  unfolding read_limited transient_outcome succeeded
  handle_non_stream_response writer bytes failure =
      elim (read_limited (max_non_stream_response_size + 1) bytes failure) [
        | err e ↦ rejected (String.◌++◌ "读取上游响应失败: " e)
        | ok body ↦
            if ltb max_non_stream_response_size (length body)
            then rejected "上游非流式响应过大"
            else succeeded writer body
      ]
