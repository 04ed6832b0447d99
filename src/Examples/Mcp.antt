-- ===== src/Examples/Mcp.antt =====
-- The theorems on mcp/server.go at a concrete server.
use xmc.Prelude.{
  true, false, Option, none, some, List, [], ◌∷◌, ◌≡◌, ◌≢◌, refl, Text, codes, text_eq, is_some,
  if◌then◌else◌, inl,
}
use xmc.Errors.{plain}
use xmc.Values.{no_fields}
use xmc.Backends.{Bytes}
use xmc.Mcp.{
  RpcRequest, Codec, Server, Tool, ToolResult, Handled, returned, refused, panicked, tool_result,
  new_server, find_tool, add_tool, tools_call, handle,
}
use xmc.Mcp.Registry.{has_name, Distinct, listed, add_tools, registered-IsRegistry, add_tool_again}
use xmc.Mcp.Answers.{id_of, Answer, handle-Answer, ToolSays, tools_call-result}
use xmc.Mcp.Transport.{
  closed, served, trim_newline, read_lines, lines_then, messages, answers, serve_stdio,
  serve_stdio-answers,
}

abbrev tool : Text → Handled → Tool
tool name h = record {
  name = name;
  description = codes "a tool";
  input_schema = no_fields;
  annotations = no_fields;
  handler = λ now args. h;
}

abbrev peeked : ToolResult
peeked = record { content = codes "[]" ∷ []; is_error = false; structured_content = none }

abbrev peek : Tool
peek = tool (codes "peek") (returned peeked)

abbrev purge : Tool
purge = tool (codes "purge") (panicked (codes "nil adapter"))

abbrev purge_again : Tool
purge_again = tool (codes "purge") (refused (plain (codes "not supported")))

abbrev server : Server
server = add_tools (new_server (codes "xmc") (codes "dev")) (peek ∷ purge ∷ [])

registered-IsRegistry_example :
    ((n : Text) → has_name n (listed server) ≡ is_some (find_tool n server.by_name))
    × Distinct (listed server)
registered-IsRegistry_example =
    registered-IsRegistry (codes "xmc") (codes "dev") (peek ∷ purge ∷ [])

purge_found : find_tool (codes "purge") server.by_name ≡ some purge
unfolding add_tool
purge_found = refl

purge_there : is_some (find_tool (codes "purge") server.by_name) ≡ true
unfolding add_tool
purge_there = refl

add_tool_again_example :
    (find_tool (codes "purge") (add_tool server purge_again).by_name ≡ some purge_again)
    × (find_tool (codes "peek") (add_tool server purge_again).by_name
        ≡ find_tool (codes "peek") server.by_name)
    × ((add_tool server purge_again).tools ≡ server.tools)
add_tool_again_example = add_tool_again server purge_again (codes "peek") purge_there refl

-- A codec for the messages of these examples: a message is its method, `ping` has no id.
abbrev request_of : Bytes → Option RpcRequest
request_of raw = some (record {
  jsonrpc = codes "2.0";
  id = if text_eq raw (codes "ping") then none else some (codes "1");
  method = raw;
  params = raw;
})

abbrev codec : Codec
codec = record {
  read_request = request_of;
  read_version = λ b. none;
  read_call = λ b. some (codes "purge", b);
  marshal = λ r. some (codes "{}");
}

call_written : (handle codec server 0 (codes "tools/call")).0 ≢ []
unfolding handle
call_written e = cc

handle-Answer_example :
    Answer codec
      (id_of (request_of (codes "tools/call")))
      (handle codec server 0 (codes "tools/call")).0
handle-Answer_example = handle-Answer codec server 0 (codes "tools/call") call_written

tools_call-result_example :
    (r : ToolResult) × (tools_call codec server 3 (codes "x") ≡ inl (tool_result r))
    × ToolSays codec server purge (purge.handler 3 (codes "x")) r
tools_call-result_example =
    tools_call-result codec server 3 (codes "x") (codes "x") (codes "purge") purge refl purge_found

abbrev input : List Bytes
input = codes "ping\r\n" ∷ codes "\n" ∷ codes "tools/list" ∷ []

serve_stdio-answers_example :
    serve_stdio codec server (λ w. none) (lines_then (read_lines input) closed) 0 []
    ≡ served none (answers codec server 0 (messages input))
serve_stdio-answers_example = serve_stdio-answers codec server input closed none refl

two_messages : messages input ≡ codes "ping" ∷ codes "tools/list" ∷ []
unfolding trim_newline
two_messages = refl
