-- ===== src/Permission/Types.antt =====
-- The types that lib/include/haicode/types.h and tool.h give to the permission code.
use hai_code.Base.{Bytes, ℤ, List, Bool, Option}

pub data PermissionEffect : Type 0 where
  allow deny ask : PermissionEffect

pub record PermissionRule : Type 0 where
  pub action : Bytes
  pub resource : Bytes
  pub effect : PermissionEffect

pub data SessionMode : Type 0 where
  build plan chat : SessionMode

-- `rule_index` is -1 where no rule decided.
pub record AuthorizationDecision : Type 0 where
  pub effect : PermissionEffect
  pub reason : Bytes
  pub source : Bytes
  pub rule_index : ℤ
  pub blocked : Bool

pub record PermissionSnapshot : Type 0 where
  pub configured : List PermissionRule
  pub session : List PermissionRule
  pub temporary_patterns : List PermissionRule
  pub temporary_exact : List PermissionRule

-- Without `config`, which the permission code does not read. `interrupt` is what the run's flag
-- says when it is read, where there is one.
pub record ToolContext : Type 0 where
  pub session_id : Bytes
  pub agent_id : Bytes
  pub assistant_message_id : Bytes
  pub call_id : Bytes
  pub tool_name : Bytes
  pub working_dir : Bytes
  pub mode : SessionMode
  pub interrupt : Option Bool

pub record ToolResult : Type 0 where
  pub success : Bool
  pub output : Bytes
  pub error : Bytes
  pub denied : Bool
