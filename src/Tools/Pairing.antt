-- ===== src/Tools/Pairing.antt =====
-- The conversation that pkg/tools/toolloop.go builds: every tool call is answered before the model is
-- called again.
use picoclaw.Prelude.{
  ℕ, zero, suc, String, ◌≡◌, refl, sym, ap, ◌∙◌, inl, inr, ◌&&◌, Option, none, some, List, [], ◌∷◌,
  ◌++◌, map, str_eq, eq_refl, if◌then◌else◌, Option-cases,
}
use picoclaw.Llm.{Fields, ToolCall, Message, LlmResponse, ToolDefinition}
use picoclaw.Tools.{ToolRegistry}
use picoclaw.Tools.Loop.{
  Answer, responded, refused, Chat, ToolLoopConfig, Outcome, Turn, breaks_off, answers, goes_on,
  next_turn, repeated_call, assistant_message, tool_message, run_call, run_calls, has_calls,
  after_chat, definitions, options_or_default, turn, tool_loop, run_tool_loop, result_of,
}

abbrev pub ids_of : List ToolCall → List String
ids_of tcs = map (λ tc. tc.id) tcs

-- The calls that are open after a message, when some are open before it: an open call must be answered
-- next, in the order of the calls, and a tool message must answer one.
unfoldable pub accept : List String → Message → Option (List String)
accept [] m = if str_eq m.role "tool" then none else some (ids_of m.tool_calls)
accept (id ∷ ids) m = if str_eq m.role "tool" && str_eq m.tool_call_id id then some ids else none

unfoldable pub and_then : {A B : Type 0} → Option A → (A → Option B) → Option B
and_then none f = none
and_then (some a) f = f a

unfoldable pub pending : List String → List Message → Option (List String)
unfolding accept and_then
pending ids [] = some ids
pending ids (m ∷ ms) = and_then (accept ids m) (λ ids'. pending ids' ms)

-- No call is open at the end, and none was left open on the way.
abbrev pub Paired : List Message → Type 0
Paired ms = pending [] ms ≡ some []

pub pending-append :
    (ids : List String) (xs ys : List Message)
    → pending ids (xs ++ ys) ≡ and_then (pending ids xs) (λ ids'. pending ids' ys)
unfolding pending and_then
pending-append ids [] ys = refl
pending-append ids (m ∷ ms) ys = elim (Option-cases (accept ids m)) [
  | inl p ↦ cc
  | inr (ids', p) ↦ cc (pending-append ids' ms ys)
]

pub ids_of-repeated_call :
    (marshal : Fields → String) (tcs : List ToolCall)
    → ids_of (map (repeated_call marshal) tcs) ≡ ids_of tcs
unfolding repeated_call
ids_of-repeated_call marshal [] = refl
ids_of-repeated_call marshal (tc ∷ tcs) = ap (λ ids. tc.id ∷ ids) (ids_of-repeated_call marshal tcs)

pub Paired-append :
    (marshal : Fields → String) (response : LlmResponse) (tcs : List ToolCall)
    (messages results : List Message)
    → tcs ≡ response.tool_calls
    → Paired messages
    → pending (ids_of tcs) results ≡ some []
    → Paired (messages ++ assistant_message marshal response ∷ results)
unfolding pending accept and_then assistant_message
Paired-append marshal response tcs messages results same paired closed =
    pending-append [] messages (assistant_message marshal response ∷ results)
    ∙ ap (λ o. and_then o (λ ids. pending ids (assistant_message marshal response ∷ results)))
        paired
    ∙ ap (λ ids. pending ids results)
        (ids_of-repeated_call marshal response.tool_calls ∙ ap ids_of (sym same))
    ∙ closed

goes_on_inj :
    {W : Type 0} {w w' : W} {ms ms' : List Message}
    → ◌≡◌ {A = Turn W} (goes_on w ms) (goes_on w' ms')
    → ms ≡ ms'
goes_on_inj h = cc

module _ {W Callback : Type 0} (quote : String → String) (marshal : Fields → String) where
  pending-run_calls :
      (tools : Option (ToolRegistry W Callback)) (tcs : List ToolCall) (channel chat_id : String)
      (w : W)
      → pending (ids_of tcs) (run_calls quote marshal tools tcs channel chat_id w).1 ≡ some []
  unfolding run_calls pending accept and_then tool_message
  pending-run_calls tools [] channel chat_id w = refl
  pending-run_calls tools (tc ∷ tcs) channel chat_id w =
      let w' = (run_call quote marshal tools tc channel chat_id w).0 in
      rw (eq_refl tc.id) (pending-run_calls tools tcs channel chat_id w')

  Paired-goes_on :
      (tools : Option (ToolRegistry W Callback)) (response : LlmResponse) (tcs : List ToolCall)
      (channel chat_id : String) (messages messages' : List Message) (w w' : W)
      → tcs ≡ response.tool_calls
      → Paired messages
      → has_calls quote marshal tools response tcs channel chat_id messages w ≡ goes_on w' messages'
      → Paired messages'
  unfolding has_calls
  Paired-goes_on tools response [] channel chat_id messages messages' w w' same paired h =
      absurd (cc)
  Paired-goes_on tools response (tc ∷ tcs) channel chat_id messages messages' w w' same paired h =
      rw (sym (goes_on_inj h)) (
        Paired-append marshal response (tc ∷ tcs) messages
          (run_calls quote marshal tools (tc ∷ tcs) channel chat_id w).1 same paired
          (pending-run_calls tools (tc ∷ tcs) channel chat_id w))

  Paired-after_chat :
      (tools : Option (ToolRegistry W Callback)) (channel chat_id : String)
      (messages messages' : List Message) (w' : W) (answer : W × Answer)
      → Paired messages
      → after_chat quote marshal tools channel chat_id messages answer ≡ goes_on w' messages'
      → Paired messages'
  unfolding after_chat
  Paired-after_chat tools channel chat_id messages messages' w' (w, refused e) paired h =
      absurd (cc)
  Paired-after_chat tools channel chat_id messages messages' w' (w, responded response) paired h =
      Paired-goes_on tools response response.tool_calls channel chat_id messages messages' w w' refl
        paired h

next_turn-agree :
    {W : Type 0} (k k' : List Message → W → Outcome W) (messages : List Message) (iteration : ℕ)
    (t : Turn W)
    → ((w : W) (ms : List Message) → t ≡ goes_on w ms → k ms w ≡ k' ms w)
    → next_turn k messages iteration t ≡ next_turn k' messages iteration t
unfolding next_turn
next_turn-agree k k' messages iteration (breaks_off w e) agree = refl
next_turn-agree k k' messages iteration (answers w content) agree = refl
next_turn-agree k k' messages iteration (goes_on w ms) agree = agree w ms refl

abbrev pub AgreeOnPaired : {W : Type 0} → Chat W → Chat W → Type 0
AgreeOnPaired {W = W} chat other =
    (ms : List Message) (ts : List ToolDefinition) (model : String) (options : Fields) (w : W)
    → Paired ms
    → chat ms ts model options w ≡ other ms ts model options w

module _ {W Callback : Type 0} (quote : String → String) (marshal : Fields → String) where
  tool_loop-agree :
      (config : ToolLoopConfig W Callback) (other : Chat W) (channel chat_id : String)
      (left iteration : ℕ) (messages : List Message) (w : W)
      → AgreeOnPaired config.provider other
      → Paired messages
      → tool_loop quote marshal config channel chat_id left iteration messages w
        ≡ tool_loop quote marshal
            (record config { provider = other })
            channel
            chat_id
            left
            iteration
            messages
            w
  unfolding tool_loop turn
  tool_loop-agree config other channel chat_id zero iteration messages w agree paired = refl
  tool_loop-agree config other channel chat_id (suc left) iteration messages w agree paired =
      next_turn-agree
        (λ ms v. tool_loop quote marshal config channel chat_id left (suc iteration) ms v)
        (λ ms v.
          tool_loop quote marshal (record config { provider = other }) channel chat_id left
            (suc iteration) ms v)
        messages (suc iteration) (turn quote marshal config channel chat_id messages w)
        (λ v ms goes. tool_loop-agree config other channel chat_id left (suc iteration) ms v agree (
          Paired-after_chat quote marshal config.tools channel chat_id messages ms v
            (config.provider messages (definitions quote marshal config.tools) config.model
              (options_or_default config.llm_options) w)
            paired goes))
      ∙ ap
          (λ answer.
            next_turn
              (λ ms v.
                tool_loop quote marshal (record config { provider = other }) channel chat_id left
                  (suc iteration) ms v)
              messages (suc iteration)
              (after_chat quote marshal config.tools channel chat_id messages answer))
          (agree messages (definitions quote marshal config.tools) config.model
            (options_or_default config.llm_options) w paired)

  -- The provider is asked only about conversations in which every tool call has been answered, in order:
  -- two providers that agree on those give the same run, when the run starts from such a conversation.
  pub run_tool_loop-Paired :
      (config : ToolLoopConfig W Callback) (other : Chat W) (messages : List Message)
      (channel chat_id : String) (w : W)
      → AgreeOnPaired config.provider other
      → Paired messages
      → run_tool_loop quote marshal config messages channel chat_id w
        ≡ run_tool_loop quote marshal
            (record config { provider = other })
            messages
            channel
            chat_id
            w
  unfolding run_tool_loop
  run_tool_loop-Paired config other messages channel chat_id w agree paired =
      ap result_of (tool_loop-agree config other channel chat_id _ 0 messages w agree paired)
