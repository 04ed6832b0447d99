-- ===== src/Mcp.antt =====
-- mcp/server.go: the tool registry and the dispatch of JSON-RPC messages. encoding/json is a
-- parameter (Codec). A tool's handler is a function of the moment of the call, a number, and of its
-- arguments, so the broker behind it may answer each call differently.
mod Message
pub mod Registry
pub mod Answers
pub mod Transport
pub mod Tools
use xmc.Prelude.{
  ℕ, Bool, true, false, not, ◌&&◌, ◌||◌, Option, none, some, List, [], ◌∷◌, ◌++◌, Text, codes,
  text_eq, is_some, is_empty, any, map, ℤ, negsuc, if◌then◌else◌, ◌⊎◌, inl, inr,
}
use xmc.Errors.{GoError, plain, error_text}
use xmc.Values.{Value, string, array, object, Items, no_items, item, Fields, no_fields, field}
use xmc.Backends.{Bytes}
pub use xmc.Mcp.Message.{
  protocol_version, supported_versions, RpcRequest, RpcError, code_parse_error,
  code_invalid_request, code_method_not_found, code_invalid_params, code_internal_error, ToolResult,
  Handled, Tool, Result, RpcResponse, Codec, Server, returned, refused, panicked, value,
  tool_result,
}

abbrev pub new_server : Text → Text → Server
new_server name version = record { name = name; version = version; tools = []; by_name = [] }

abbrev pub find_tool : Text → List (Text × Tool) → Option Tool
find_tool name [] = none
find_tool name ((n, t) ∷ rest) = if text_eq n name then some t else find_tool name rest

abbrev pub put_tool : Tool → List (Text × Tool) → List (Text × Tool)
put_tool t [] = (t.name, t) ∷ []
put_tool t ((n, u) ∷ rest) = if text_eq n t.name then (n, t) ∷ rest else (n, u) ∷ put_tool t rest

-- AddTool
unfoldable pub add_tool : Server → Tool → Server
add_tool s t = record s {
  tools = if is_some (find_tool t.name s.by_name) then s.tools else s.tools ++ t ∷ [];
  by_name = put_tool t s.by_name;
}

abbrev pub fault : ℤ → Text → Result ⊎ RpcError
fault code message = inr (record { code = code; message = message })

-- The first test is `len(t.Annotations) > 0`.
abbrev pub with_annotations : Fields → Fields
with_annotations no_fields = no_fields
with_annotations (field k v fs) = field (codes "annotations") (object (field k v fs)) no_fields

abbrev pub tool_entry : Tool → Value
tool_entry t = object (
    field (codes "name") (string t.name) (
      field (codes "description") (string t.description)
        (field (codes "inputSchema") (object t.input_schema) (with_annotations t.annotations))))

abbrev pub entries : List Tool → Items
entries [] = no_items
entries (t ∷ ts) = item (tool_entry t) (entries ts)

unfoldable pub tools_list : Server → Result
tools_list s = value (object (field (codes "tools") (array (entries s.tools)) no_fields))

abbrev pub panic_error : Tool → Text → GoError
panic_error t why = plain (codes "tool " ++ (t.name ++ (codes " panicked: " ++ why)))

abbrev pub failure : GoError → ToolResult
failure e = record { content = error_text e ∷ []; is_error = true; structured_content = none }

-- runTool: a panic is an error.
unfoldable pub run_tool : Tool → ℕ → Bytes → ToolResult ⊎ GoError
run_tool t now args = elim (t.handler now args) [
  | returned r ↦ inl r
  | refused e ↦ inr e
  | panicked why ↦ inr (panic_error t why)
]

unfoldable pub tool_outcome : ToolResult ⊎ GoError → Result
tool_outcome (inl r) = tool_result r
tool_outcome (inr e) = tool_result (failure e)

module _ (codec : Codec) (s : Server) where
  unfoldable pub negotiated : Bytes → Text
  negotiated params =
      if is_empty params then protocol_version else elim (codec.read_version params) [
        | none ↦ protocol_version
        | some v ↦ if any (text_eq v) supported_versions then v else protocol_version
      ]

  unfoldable pub initialize : Bytes → Result
  unfolding negotiated
  initialize params = value (
      object (
        field (codes "protocolVersion") (string (negotiated params)) (
          field (codes "capabilities") (object (field (codes "tools") (object no_fields) no_fields))
            (field (codes "serverInfo")
              (object (
                field (codes "name") (string s.name)
                  (field (codes "version") (string s.version) no_fields)))
              no_fields))))

  unfoldable pub call_tool : ℕ → Text × Bytes → Result ⊎ RpcError
  unfolding run_tool tool_outcome
  call_tool now (name, args) = elim (find_tool name s.by_name) [
    | none ↦ fault code_invalid_params (codes "unknown tool: " ++ name)
    | some t ↦ inl (tool_outcome (run_tool t now args))
  ]

  unfoldable pub tools_call : ℕ → Bytes → Result ⊎ RpcError
  unfolding call_tool
  tools_call now params = elim (codec.read_call params) [
    | none ↦ fault code_invalid_params (codes "invalid tools/call params")
    | some call ↦ call_tool now call
  ]

  unfoldable pub route : ℕ → Text → Bytes → Result ⊎ RpcError
  unfolding initialize tools_list tools_call
  route now method params =
      if text_eq method (codes "initialize")
      then inl (initialize params)
      else if text_eq method (codes "ping")
      then inl (value (object no_fields))
      else if text_eq method (codes "tools/list")
      then inl (tools_list s)
      else if text_eq method (codes "tools/call")
      then tools_call now params
      else fault code_method_not_found (codes "method not found: " ++ method)

  -- The bytes of an error response, none if it cannot be written.
  unfoldable pub encode_error : Option Bytes → ℤ → Text → Bytes
  encode_error id code message =
      elim (codec.marshal (record {
        id = id;
        result = none;
        error = some (record { code = code; message = message });
      })) [ none ↦ [] | some b ↦ b ]

  unfoldable pub encode : RpcResponse → Bytes
  unfolding encode_error
  encode r = elim (codec.marshal r) [
    | none ↦ encode_error r.id code_internal_error (codes "failed to encode response")
    | some b ↦ b
  ]

  abbrev pub response_of : Option Bytes → Result ⊎ RpcError → RpcResponse
  response_of id (inl r) = record { id = id; result = some r; error = none }
  response_of id (inr e) = record { id = id; result = none; error = some e }

  -- What follows the parse, by the id.
  unfoldable pub handle_request : ℕ → RpcRequest → Option Bytes → Bytes × Bool
  unfolding route encode encode_error
  handle_request now req none = ([], true)
  handle_request now req (some id) =
      if not (text_eq req.jsonrpc (codes "2.0")) || is_empty req.method
      then (encode_error (some id) code_invalid_request (codes "invalid request"), false)
      else (encode (response_of (some id) (route now req.method req.params)), false)

  -- handle: the response, and whether none is owed.
  unfoldable pub handle : ℕ → Bytes → Bytes × Bool
  unfolding handle_request encode_error
  handle now raw = elim (codec.read_request raw) [
    | none ↦ (encode_error none code_parse_error (codes "parse error"), false)
    | some req ↦ handle_request now req req.id
  ]
