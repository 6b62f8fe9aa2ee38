-- ===== src/Tools/Runs.antt =====
-- What the registry runs and how long the loop lasts: pkg/tools/registry.go and toolloop.go.
use picoclaw.Prelude.{
  ℕ, zero, suc, ◌+◌, ◌≤◌, String, ◌≡◌, inl, inr, Option, some, List, arith, str_eq, if◌then◌else◌,
  Bool-cases,
}
use picoclaw.Prelude.Int.{pos_part}
use picoclaw.Prelude.Dict.{get-put}
use picoclaw.Llm.{Fields, Message}
use picoclaw.Tools.{Tool, ToolRegistry, register, run_tool, execute_with_context}
use picoclaw.Tools.Loop.{
  ToolLoopConfig, ToolLoopResult, Outcome, failed, finished, Turn, breaks_off, answers, goes_on,
  next_turn, turn, tool_loop, run_tool_loop, result_of,
}

module _ {W Callback : Type 0} (quote : String → String) where
  -- After a tool is registered, its name runs it, and any other name does what it did before.
  pub execute_with_context-register :
      (tool : Tool W Callback) (r : ToolRegistry W Callback) (name : String) (args : Fields)
      (channel chat_id : String) (cb : Option Callback) (w : W)
      → execute_with_context quote (register tool r) name args channel chat_id cb w ≡ (
          if str_eq name tool.name
          then run_tool tool args channel chat_id cb w
          else execute_with_context quote r name args channel chat_id cb w)
  unfolding execute_with_context register
  execute_with_context-register tool r name args channel chat_id cb w =
      elim (Bool-cases (str_eq name tool.name)) [
        | inl p ↦ cc (p, get-put r tool.name name tool)
        | inr p ↦ cc (p, get-put r tool.name name tool)
      ]

module _ {W : Type 0} where
  iterations_of : Outcome W → ℕ
  iterations_of (failed w e) = 0
  iterations_of (finished w content ms n) = n

  next_turn-le :
      (k : List Message → W → Outcome W) (messages : List Message) (iteration limit : ℕ)
      (t : Turn W)
      → iteration ≤ limit
      → ((ms : List Message) (w : W) → iterations_of (k ms w) ≤ limit)
      → iterations_of (next_turn k messages iteration t) ≤ limit
  unfolding next_turn iterations_of
  next_turn-le k messages iteration limit (breaks_off w e) le rest = omega arith
  next_turn-le k messages iteration limit (answers w content) le rest = le
  next_turn-le k messages iteration limit (goes_on w ms) le rest = rest ms w

  result_of-iterations :
      (o : Outcome W) (res : ToolLoopResult)
      → (result_of o).1 ≡ some res
      → iterations_of o ≡ res.iterations
  unfolding result_of iterations_of
  result_of-iterations (failed w e) res h = absurd (cc)
  result_of-iterations (finished w content ms n) res h = ground arith

module _ {W Callback : Type 0} (quote : String → String) (marshal : Fields → String) where
  tool_loop-le :
      (config : ToolLoopConfig W Callback) (channel chat_id : String) (left iteration limit : ℕ)
      (messages : List Message) (w : W)
      → iteration + left ≤ limit
      → iterations_of (tool_loop quote marshal config channel chat_id left iteration messages w)
        ≤ limit
  unfolding tool_loop iterations_of
  tool_loop-le config channel chat_id zero iteration limit messages w le = omega arith
  tool_loop-le config channel chat_id (suc left) iteration limit messages w le =
      next_turn-le _ messages (suc iteration) limit
        (turn quote marshal config channel chat_id messages w) (omega arith)
        (λ ms v. tool_loop-le config channel chat_id left (suc iteration) limit ms v (omega arith))

  -- A run that ends without an error has made at most MaxIterations iterations, and none when that is
  -- negative.
  pub run_tool_loop-iterations :
      (config : ToolLoopConfig W Callback) (messages : List Message) (channel chat_id : String)
      (w : W) (res : ToolLoopResult)
      → (run_tool_loop quote marshal config messages channel chat_id w).1 ≡ some res
      → res.iterations ≤ pos_part config.max_iterations
  unfolding run_tool_loop
  run_tool_loop-iterations config messages channel chat_id w res h =
      let limit = pos_part config.max_iterations in
      let run = tool_loop quote marshal config channel chat_id limit 0 messages w in
      ground (
        arith,
        result_of-iterations run res h,
        tool_loop-le config channel chat_id limit 0 limit messages w (omega arith),
      )
