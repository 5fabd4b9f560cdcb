-- ===== src/Forward/Whole.antt =====
-- A request without a stream: its answer goes to `handleNonStreamResponse`, so that the forwarding has
-- no part that is an argument but the network, the gate and the reading of JSON.
use airgate_claude.Prelude.{
  ℕ, List, Option, String, refl, arith, Bool-cases, inl, inr, ltb, length, ◌+◌,
}
use airgate_claude.Errors.{Outcome, transient_outcome}
use airgate_claude.Forward.{Gateway}
use airgate_claude.Forward.Dispatch.{Handlers, forward_http}
use airgate_claude.Forward.Tokens.{IsValidSidecar}
use airgate_claude.Forward.Verdicts.{
  Result-cases, Consistent, ConsistentAnswer, forward_http-Consistent_if,
}
use airgate_claude.Stream.{Doc}
use airgate_claude.Stream.Events.{Observed}
use airgate_claude.Stream.Single.{
  max_non_stream_response_size, read_limited, succeeded, handle_non_stream_response,
}
use airgate_claude.TokenManager.{Account}
use airgate_claude.TokenManager.Refresh.{Attempt}

-- An upstream answer: its status, headers and bytes, and the error that ends them, if any.
pub record Response (H : Type 0) : Type 0 where
  pub status : ℕ
  pub headers : H
  pub bytes : List ℕ
  pub failure : Option String

module _ {H : Type 0} (content_type : H → String) (doc : List ℕ → Doc) (format_price : ℕ → String)
    (elapsed : ℕ) (writer : Option ℕ) where
  unfoldable pub answer_whole : Response H → Outcome (List ℕ) H Observed × Option String
  unfolding handle_non_stream_response
  answer_whole r =
      let h =
        handle_non_stream_response content_type doc format_price elapsed r.status r.headers writer
          r.bytes r.failure in
      (h.0, h.1)

  -- The handlers of a request without a stream.
  abbrev pub whole :
      Handlers (List ℕ) H Observed (Response H) → Handlers (List ℕ) H Observed (Response H)
  whole e = record e { on_answer = answer_whole }

  answer_whole-Consistent :
      (e : Handlers (List ℕ) H Observed (Response H)) → ConsistentAnswer (whole e)
  unfolding answer_whole handle_non_stream_response transient_outcome succeeded
  answer_whole-Consistent e r =
      elim (Result-cases (read_limited (max_non_stream_response_size + 1) r.bytes r.failure)) [
        | inr (x, q) ↦ rw q (λ h. refl)
        | inl (body, q) ↦ elim (Bool-cases (ltb max_non_stream_response_size (length body))) [
          | inl b ↦ rw q (rw b (λ h. refl))
          | inr b ↦ rw q (rw b (λ h. ground (arith, h)))
        ]
      ]

  -- For a request without a stream, whatever its path and the type of its account: the forwarding does not
  -- panic if the sidecar is valid, and when it returns an error its outcome is no success, whether the
  -- token, the request, the upstream or the body of its answer failed.
  pub forward_http-Consistent :
      (e : Handlers (List ℕ) H Observed (Response H)) (now : ℕ) (env : ℕ → Attempt)
      (gate : Option (Outcome (List ℕ) H Observed)) (path body : String) (a : Account) (g : Gateway)
      → IsValidSidecar g.sidecar
      → Consistent (whole e) (forward_http (whole e) now env gate path body a g)
  forward_http-Consistent e now env gate path body a g v =
      forward_http-Consistent_if (whole e) now env gate path body a g (answer_whole-Consistent e) v
