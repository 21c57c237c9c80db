-- ===== src/Permission/Registry/Execution.antt =====
-- What a caller of `execute` can rely on, whatever the tool does.
use hai_code.Base.{Bytes, ◌≡◌, Bool, false, Option, [], ◌∷◌, arith}
use hai_code.Util.Utf8.Valid.{IsUtf8, sanitize_utf8-IsUtf8}
use hai_code.Permission.Types.{ToolContext, ToolResult}
use hai_code.Permission.Path.{is_empty}
use hai_code.Permission.Gate.{PermissionGate}
use hai_code.Permission.Registry.{
  returned, threw, Tools, Platform, execute_impl, execute, sanitized, caught,
}

sanitized-IsUtf8 : (s : Bytes) → IsUtf8 (sanitized s)
unfolding sanitized is_empty
sanitized-IsUtf8 [] = IsUtf8.empty
sanitized-IsUtf8 (c ∷ s) = sanitize_utf8-IsUtf8 (c ∷ s)

module _ {Json : Type 0} (p : Platform Json) (offline : Bool) where
  -- Whatever a tool returns or throws, the call returns a result with well-formed texts; a throw is
  -- a failure, and a result keeps its success and its denial.
  pub execute_contract :
      (name : Bytes) (input : Json) (ctx : ToolContext) (tools : Tools Json)
      (gate : PermissionGate Json)
      → let r = execute p offline name input ctx tools gate in
        IsUtf8 r.output
        × IsUtf8 r.error
        × ((e : Option Bytes)
            → execute_impl p offline name input ctx tools gate ≡ threw e
            → r.success ≡ false)
        × ((x : ToolResult)
            → execute_impl p offline name input ctx tools gate ≡ returned x
            → (r.success ≡ x.success) × (r.denied ≡ x.denied))
  unfolding execute
  execute_contract name input ctx tools gate =
      let r = caught name (execute_impl p offline name input ctx tools gate) in
      (
        sanitized-IsUtf8 r.output,
        sanitized-IsUtf8 r.error,
        λ e h. ground arith,
        λ x h. ground arith,
      )
