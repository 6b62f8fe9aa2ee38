-- ===== src/Llm.antt =====
-- pkg/providers/types.go: messages, tool calls and responses of a language model.
use picoclaw.Prelude.{Bool, String, Option, List}
use picoclaw.Prelude.Int.{ℤ}

-- What encoding/json puts into an `interface{}`; a number is kept as its decimal text.
mutual
  -- The entries of a map[string]interface{}.
  pub data Fields : Type 0 where
    field : String → Value → Fields → Fields
    no_fields : Fields

  pub data Value : Type 0 where
    object : Fields → Value
    array : Items → Value
    text number : String → Value
    boolean : Bool → Value
    null : Value

  pub data Items : Type 0 where
    item : Value → Items → Items
    no_items : Items

pub record FunctionCall : Type 0 where
  pub name : String
  pub arguments : String

pub record ToolCall : Type 0 where
  pub id : String
  pub type : String
  pub function : Option FunctionCall
  pub name : String
  pub arguments : Fields

pub record MediaImage : Type 0 where
  pub mime_type : String
  pub base64_data : String

pub record Message : Type 0 where
  pub role : String
  pub content : String
  pub tool_calls : List ToolCall
  pub tool_call_id : String
  pub media : List MediaImage

pub record UsageInfo : Type 0 where
  pub prompt_tokens : ℤ
  pub completion_tokens : ℤ
  pub total_tokens : ℤ

pub record LlmResponse : Type 0 where
  pub content : String
  pub tool_calls : List ToolCall
  pub finish_reason : String
  pub usage : Option UsageInfo

-- ToolDefinition with the fields of its ToolFunctionDefinition.
pub record ToolDefinition : Type 0 where
  pub type : String
  pub name : String
  pub description : String
  pub parameters : Fields
