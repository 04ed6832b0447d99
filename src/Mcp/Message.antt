-- ===== src/Mcp/Message.antt =====
-- The data of mcp/server.go: JSON-RPC messages, tools, results and the server's registry.
use xmc.Prelude.{ℕ, Bool, Option, List, [], ◌∷◌, Text, codes, ℤ, negsuc}
use xmc.Errors.{GoError}
use xmc.Values.{Value, Fields}
use xmc.Backends.{Bytes}

abbrev pub protocol_version : Text
protocol_version = codes "2025-06-18"

abbrev pub supported_versions : List Text
supported_versions = codes "2024-11-05" ∷ codes "2025-03-26" ∷ codes "2025-06-18" ∷ []

-- A missing id is none.
pub record RpcRequest : Type 0 where
  pub jsonrpc : Text
  pub id : Option Bytes
  pub method : Text
  pub params : Bytes

pub record RpcError : Type 0 where
  pub code : ℤ
  pub message : Text

-- -32700 to -32603
abbrev pub code_parse_error : ℤ
code_parse_error = negsuc 32699

abbrev pub code_invalid_request : ℤ
code_invalid_request = negsuc 32599

abbrev pub code_method_not_found : ℤ
code_method_not_found = negsuc 32600

abbrev pub code_invalid_params : ℤ
code_invalid_params = negsuc 32601

abbrev pub code_internal_error : ℤ
code_internal_error = negsuc 32602

-- The texts of the content blocks, all of type "text".
pub record ToolResult : Type 0 where
  pub content : List Text
  pub is_error : Bool
  pub structured_content : Option Value

pub data Handled : Type 0 where
  returned : ToolResult → Handled
  refused : GoError → Handled
  panicked : Text → Handled

pub record Tool : Type 0 where
  pub name : Text
  pub description : Text
  pub input_schema : Fields
  pub annotations : Fields
  pub handler : ℕ → Bytes → Handled

-- `any` in a response.
pub data Result : Type 0 where
  value : Value → Result
  tool_result : ToolResult → Result

pub record RpcResponse : Type 0 where
  pub id : Option Bytes
  pub result : Option Result
  pub error : Option RpcError

-- encoding/json on the types that the server reads and writes.
pub record Codec : Type 0 where
  pub read_request : Bytes → Option RpcRequest
  pub read_version : Bytes → Option Text
  pub read_call : Bytes → Option (Text × Bytes)
  pub marshal : RpcResponse → Option Bytes

-- byName is an association list, a name once.
pub record Server : Type 0 where
  pub name : Text
  pub version : Text
  pub tools : List Tool
  pub by_name : List (Text × Tool)
