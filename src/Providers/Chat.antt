-- ===== src/Providers/Chat.antt =====
-- HTTPProvider of pkg/providers/http_provider.go: what Chat reads of an answer.
use picoclaw.Prelude.{
  String, ◌⊎◌, inl, inr, Option, none, some, List, [], ◌∷◌, map, str_eq, if◌then◌else◌,
}
use picoclaw.Prelude.Int.{ℤ, pos, eqb_ℤ}
use picoclaw.Prelude.Text.{concat, itoa}
use picoclaw.Llm.{
  Fields, field, no_fields, text, ToolCall, FunctionCall, Message, LlmResponse, UsageInfo,
  ToolDefinition,
}
use picoclaw.Failover.{LlmError, rate_limited, other_error}
use picoclaw.Providers.Request.{
  ApiResponse, ApiToolCall, Choice, HttpProvider, HttpResponse, Transport, chat_body,
}

module _ {W : Type 0} (t : Transport W) where
  raw_or : String → Option Fields → Fields
  raw_or arguments none = field "raw" (text arguments) no_fields
  raw_or arguments (some fs) = fs

  arguments_of : String → Fields
  unfolding raw_or
  arguments_of arguments =
      if str_eq arguments "" then no_fields else raw_or arguments (t.decode_arguments arguments)

  -- Both formats of the source are read alike.
  read_call : ApiToolCall → Option FunctionCall → ToolCall
  unfolding arguments_of
  read_call tc none = record {
    id = tc.id;
    type = "";
    function = none;
    name = "";
    arguments = no_fields;
  }
  read_call tc (some fn) = record {
    id = tc.id;
    type = "";
    function = none;
    name = fn.name;
    arguments = arguments_of fn.arguments;
  }

  first_choice : Option UsageInfo → List Choice → LlmResponse
  unfolding read_call
  first_choice usage [] = record {
    content = "";
    tool_calls = [];
    finish_reason = "stop";
    usage = none;
  }
  first_choice usage (c ∷ cs) = record {
    content = c.content;
    tool_calls = map (λ tc. read_call tc tc.function) c.tool_calls;
    finish_reason = c.finish_reason;
    usage = usage;
  }

  read_response : String ⊎ ApiResponse → LlmError ⊎ LlmResponse
  unfolding first_choice
  read_response (inl e) = inl (other_error (concat ("failed to unmarshal response: " ∷ e ∷ [])))
  read_response (inr r) = inr (first_choice r.usage r.choices)

  unfoldable pub parse_response : String → LlmError ⊎ LlmResponse
  unfolding read_response
  parse_response body = read_response (t.decode_response body)

  answered : String ⊎ HttpResponse → LlmError ⊎ LlmResponse
  answered (inl e) = inl (other_error (concat ("failed to send request: " ∷ e ∷ [])))
  answered (inr r) =
      if eqb_ℤ r.status_code (pos 200)
      then parse_response r.body
      else if eqb_ℤ r.status_code (pos 429)
      then inl (
          rate_limited (record {
            status_code = r.status_code;
            body = r.body;
            retry_after = r.header "Retry-After";
            rate_limit_requests_reset = r.header "X-RateLimit-Requests-Reset";
            rate_limit_tokens_reset = r.header "X-RateLimit-Tokens-Reset";
          }))
      else inl (
          other_error (
            concat (
              "API request failed:\n  Status: "
              ∷ itoa r.status_code
              ∷ "\n  Body:   "
              ∷ r.body
              ∷ [])))

  -- An error in making or reading the request is one of sending it.
  unfoldable pub chat :
      HttpProvider
      → List Message
      → List ToolDefinition
      → String
      → Option ℤ
      → Option String
      → W
      → W × (LlmError ⊎ LlmResponse)
  unfolding answered
  chat p messages tools model max_tokens temperature w =
      let (w', r) =
        t.do_request
          (record {
            url = concat (p.api_base ∷ "/chat/completions" ∷ []);
            authorization =
                if str_eq p.api_key "" then none else some (concat ("Bearer " ∷ p.api_key ∷ []));
            body = chat_body messages tools model max_tokens temperature;
          })
          w in
      if str_eq p.api_base ""
      then (w, inl (other_error "API base not configured"))
      else (w', answered r)
