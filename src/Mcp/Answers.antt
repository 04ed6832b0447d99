-- ===== src/Mcp/Answers.antt =====
-- What a client of mcp/server.go may rely on.
use xmc.Prelude.{
  ℕ, Bool, true, false, not, ◌||◌, Option, none, some, [], ◌∷◌, ◌++◌, ◌≡◌, ◌≢◌, ◌⊎◌, refl, ap, Text,
  codes, text_eq, is_some, is_empty, Bool-cases, Option-cases, inl, inr,
}
use xmc.Errors.{plain, error_text}
use xmc.Backends.{Bytes}
use xmc.Mcp.{
  failure, panic_error, code_parse_error, code_invalid_request, code_internal_error, RpcRequest,
  RpcError, RpcResponse, Codec, Server, Tool, ToolResult, Handled, returned, refused, panicked,
  Result, tool_result, find_tool, run_tool, tool_outcome, call_tool, tools_call, encode_error,
  encode, response_of, route, handle_request, handle,
}

-- The id that a response must carry.
abbrev pub id_of : Option RpcRequest → Option Bytes
id_of none = none
id_of (some req) = req.id

-- Whether no answer is owed.
abbrev pub is_notification : Option RpcRequest → Bool
is_notification none = false
is_notification (some req) = not (is_some req.id)

-- The bytes are a response with that id and either a result or an error.
pub record Answer (codec : Codec) (id : Option Bytes) (b : Bytes) : Type 0 where
  pub response : RpcResponse
  pub is_written : codec.marshal response ≡ some b
  pub same_id : response.id ≡ id
  pub one_of : is_some response.result ≡ not (is_some response.error)

module _ (codec : Codec) (s : Server) where
  -- What is written is nothing or a response.
  abbrev Good : Option Bytes → Bytes → Type 0
  Good id b = b ≢ [] → Answer codec id b

  encode_error-Answer :
      (id : Option Bytes) (e : RpcError) → Good id (encode_error codec s id e.code e.message)
  unfolding encode_error
  encode_error-Answer id e = go (Option-cases (codec.marshal _))
    where
      r : RpcResponse
      r = record { id = id; result = none; error = some e }

      go :
          (codec.marshal r ≡ none) ⊎ ((b : Bytes) × (codec.marshal r ≡ some b))
          → Good id (elim (codec.marshal r) [ none ↦ [] | some b ↦ b ])
      go (inl e') = rw e' (λ ne. absurd (ne refl))
      go (inr (b, e')) =
          rw e' (λ ne. record { response = r; is_written = e'; same_id = refl; one_of = refl })

  encode-Answer :
      (r : RpcResponse) → is_some r.result ≡ not (is_some r.error) → Good r.id (encode codec s r)
  unfolding encode
  encode-Answer r h = elim (Option-cases (codec.marshal r)) [
    | inl e ↦
        rw (e, encode)
          (encode_error-Answer r.id
            (record { code = code_internal_error; message = codes "failed to encode response" }))
    | inr (b, e) ↦
        rw (e, encode) (λ ne. record { response = r; is_written = e; same_id = refl; one_of = h })
  ]

  routed-Answer :
      (id : Bytes) (o : Result ⊎ RpcError)
      → Good (some id) (encode codec s (response_of codec s (some id) o))
  routed-Answer id (inl r) = encode-Answer (response_of codec s (some id) (inl r)) refl
  routed-Answer id (inr e) = encode-Answer (response_of codec s (some id) (inr e)) refl

  handle_request-Answer :
      (now : ℕ) (req : RpcRequest) (id : Option Bytes)
      → Good id (handle_request codec s now req id).0
  unfolding handle_request
  handle_request-Answer now req none = λ ne. absurd (ne refl)
  handle_request-Answer now req (some id) =
      elim (Bool-cases (not (text_eq req.jsonrpc (codes "2.0")) || is_empty req.method)) [
        | inl bad ↦ rw bad (
            encode_error-Answer (some id)
              (record { code = code_invalid_request; message = codes "invalid request" }))
        | inr good ↦ rw good (routed-Answer id (route codec s now req.method req.params))
      ]

  -- Whatever is written for a message is a response that carries the message's id, none if the
  -- message cannot be read, and has either a result or an error.
  pub handle-Answer :
      (now : ℕ) (raw : Bytes)
      → (handle codec s now raw).0 ≢ []
      → Answer codec (id_of (codec.read_request raw)) (handle codec s now raw).0
  unfolding handle
  handle-Answer now raw = elim (Option-cases (codec.read_request raw)) [
    | inl e ↦
        rw (e, handle)
          (encode_error-Answer none
            (record { code = code_parse_error; message = codes "parse error" }))
    | inr (req, e) ↦ rw (e, handle) (handle_request-Answer now req req.id)
  ]

  request_silent :
      (now : ℕ) (req : RpcRequest) (id : Option Bytes)
      → (handle_request codec s now req id).1 ≡ not (is_some id)
  unfolding handle_request
  request_silent now req none = refl
  request_silent now req (some id) =
      elim (Bool-cases (not (text_eq req.jsonrpc (codes "2.0")) || is_empty req.method)) [
        | inl bad ↦ rw bad
        | inr good ↦ rw good
      ]

  -- No answer is owed exactly to a message that can be read and has no id.
  pub handle_silent :
      (now : ℕ) (raw : Bytes)
      → (handle codec s now raw).1 ≡ is_notification (codec.read_request raw)
  unfolding handle handle_request
  handle_silent now raw = elim (Option-cases (codec.read_request raw)) [
    | inl e ↦ rw (e, handle)
    | inr (req, e) ↦ rw (e, handle) (request_silent now req req.id)
  ]

  -- What a call must come to: the handler's own result; or when it failed or panicked a result
  -- that is marked as an error, whose one text is that of the error, or the tool's name and why.
  abbrev pub ToolSays : Tool → Handled → ToolResult → Type 0
  ToolSays t (returned own) r = r ≡ own
  ToolSays t (refused e) r =
      (r.is_error ≡ true) × (r.content ≡ error_text e ∷ []) × (r.structured_content ≡ none)
  ToolSays t (panicked why) r =
      (r.is_error ≡ true)
      × (r.content
          ≡ error_text (plain (codes "tool " ++ (t.name ++ (codes " panicked: " ++ why)))) ∷ [])
      × (r.structured_content ≡ none)

  -- A call of a registered tool is never a protocol error: when the handler returns, its result is
  -- handed back as it is; when it fails or panics, the result is marked as an error, has the text of
  -- the error or of the panic alone, and no structured value.
  pub tools_call-result :
      (now : ℕ) (params args : Bytes) (name : Text) (t : Tool)
      → codec.read_call params ≡ some (name, args)
      → find_tool name s.by_name ≡ some t
      → (r : ToolResult) × (tools_call codec s now params ≡ inl (tool_result r))
        × ToolSays t (t.handler now args) r
  unfolding tools_call call_tool run_tool tool_outcome
  tools_call-result now params args name t e f =
      rw (e, tools_call)
        (rw (f, call_tool)
          (let (r, same, kind) = outcome (t.handler now args) refl in
            (r, ap (λ x. inl x) same, kind)))
    where
      outcome :
          (h : Handled)
          → t.handler now args ≡ h
          → (r : ToolResult) × (tool_outcome (run_tool t now args) ≡ tool_result r) × ToolSays t h r
      outcome (returned r) k = (r, rw (k, run_tool), refl)
      outcome (refused x) k = (failure x, rw (k, run_tool), (refl, refl, refl))
      outcome (panicked why) k = (failure (panic_error t why), rw (k, run_tool), (refl, refl, refl))
