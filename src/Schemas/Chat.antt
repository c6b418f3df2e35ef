-- ===== src/Schemas/Chat.antt =====
-- src/rag/llm/chat.py: messages, tool specifications and completions.
use ai_rag.Prelude.{Text, List, Option}
use ai_rag.Schemas.Answer.{Usage}
use ai_rag.Schemas.Agent.{ToolCall, ToolSchema}

pub data Role : Type 0 where
  system user assistant tool : Role

pub record Message : Type 0 where
  pub role : Role
  pub content : Text
  pub name : Option Text
  pub tool_call_id : Option Text
  pub tool_calls : List ToolCall

pub record ToolSpec : Type 0 where
  pub name : Text
  pub description : Text
  pub parameters : ToolSchema

pub data FinishReason : Type 0 where
  stop tool_calls length content_filter : FinishReason

pub record ChatCompletion (F : Type 0) : Type 0 where
  pub message : Message
  pub usage : Usage F
  pub finish_reason : FinishReason
