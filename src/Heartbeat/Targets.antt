-- ===== src/Heartbeat/Targets.antt =====
-- Where heartbeats of pkg/heartbeat/service.go go: the last channel that the agent recorded.
use picoclaw.Prelude.{
  String, ◌≡◌, refl, ◌⊎◌, inl, inr, true, false, not, ◌||◌, none, some, [], ◌∷◌, arith, str_eq,
  if◌then◌else◌,
}
use Prim.Native.String.{◌++◌ as append}
use picoclaw.Prelude.Int.{ℤ}
use picoclaw.Prelude.Text.{concat}
use picoclaw.Prelude.Strings.{is_free_of, cut_first-append}
use picoclaw.Utils.{is_internal_channel}
use package.text.Mathlib.TextLemmas.{cons-append, nil-append, append-nil as text-append-nil}
use picoclaw.State.Updates.{state-set_last_channel, saved-set_last_channel}
use picoclaw.State.{Manager, Io, Time, set_last_channel}
use picoclaw.Tools.{silent_result, error_result}
use picoclaw.Heartbeat.{
  HeartbeatService, HeartbeatHost, new_heartbeat_service, set_bus, parse_last_channel, build_prompt,
  send_response, execute_heartbeat, answer, call, gateway_handler, outcome,
}

parse_last_channel-concat :
    (channel user : String)
    → is_free_of b':' channel ≡ true
    → str_eq channel "" ≡ false
    → is_internal_channel channel ≡ false
    → str_eq user "" ≡ false
    → parse_last_channel (concat (channel ∷ ":" ∷ user ∷ [])) ≡ (channel, user)
unfolding parse_last_channel concat
parse_last_channel-concat channel user free there outside named =
    rw (cons-append ":" "" (append user ""), nil-append (append user ""), text-append-nil user)
      (rw (cut_first-append ":" channel user free) (ground arith))

-- After SetLastChannel has saved "channel:user" with no error, a service that is made and given a bus
-- sends its texts to that user, unless the channel is internal or has a colon in its name.
pub last_channel-send_response :
    {W : Type 0} (h : HeartbeatHost W) (io io' : Io) (now : Time) (m : Manager) (minutes : ℤ)
    (channel user response : String) (w : W)
    → is_free_of b':' channel ≡ true
    → str_eq channel "" ≡ false
    → is_internal_channel channel ≡ false
    → str_eq user "" ≡ false
    → (set_last_channel io now (concat (channel ∷ ":" ∷ user ∷ [])) m).1 ≡ none
    → (let disk = (set_last_channel io now (concat (channel ∷ ":" ∷ user ∷ [])) m).0.disk in
        send_response h (set_bus (new_heartbeat_service io' disk minutes true)) response w
        ≡ h.publish
            (record {
              channel = channel;
              chat_id = user;
              content = response;
              media = [];
              is_progress_update = false;
            })
            w)
unfolding send_response new_heartbeat_service set_bus
last_channel-send_response h io io' now m minutes channel user response w free there outside named
      ok =
    ground (
      arith,
      saved-set_last_channel io now m (concat (channel ∷ ":" ∷ user ∷ [])) io' ok,
      state-set_last_channel io now m (concat (channel ∷ ":" ∷ user ∷ [])),
      parse_last_channel-concat channel user free there outside named,
    )

module _ {W : Type 0} (process : String → String → String → W → W × (String ⊎ String)) where
  -- A result of the gateway's handler leads to no message.
  answer-outcome :
      (h : HeartbeatHost W) (hs : HeartbeatService) (r : W × (String ⊎ String))
      → answer h hs (outcome process r) ≡ r.0
  unfolding answer outcome silent_result error_result
  answer-outcome h hs (w, inl e) = refl
  answer-outcome h hs (w, inr response) = ground arith

  call-gateway_handler :
      (h : HeartbeatHost W) (hs : HeartbeatService) (w : W) (prompt : String)
      → call h (some (gateway_handler process)) hs (w, prompt) ≡ (
          let (channel, chat_id) = parse_last_channel hs.state.state.last_channel in
          if str_eq prompt ""
          then w
          else if str_eq channel "" || str_eq chat_id ""
          then (process prompt "cli" "direct" w).0
          else (process prompt channel chat_id w).0)
  unfolding call gateway_handler
  call-gateway_handler h hs w prompt =
      let (channel, chat_id) = parse_last_channel hs.state.state.last_channel in
      ground (
        arith,
        answer-outcome h hs (process prompt "cli" "direct" w),
        answer-outcome h hs (process prompt channel chat_id w),
      )

-- With the handler that the gateway sets, a heartbeat of a running service makes the prompt and, if there is
-- one, gives it to ProcessHeartbeat with the last channel, or with "cli" and "direct" when there is none, and
-- that is all: the service makes no message of the response or the error that comes back.
pub gateway_heartbeat_silent :
    {W : Type 0} (h : HeartbeatHost W)
    (process : String → String → String → W → W × (String ⊎ String)) (hs : HeartbeatService) (w : W)
    → execute_heartbeat h (some (gateway_handler process)) hs w ≡ (
        let (w', prompt) = build_prompt h w in
        let (channel, chat_id) = parse_last_channel hs.state.state.last_channel in
        if not hs.enabled || not hs.running
        then w
        else if str_eq prompt ""
        then w'
        else if str_eq channel "" || str_eq chat_id ""
        then (process prompt "cli" "direct" w').0
        else (process prompt channel chat_id w').0)
unfolding execute_heartbeat
gateway_heartbeat_silent h process hs w =
    ground (arith, call-gateway_handler process h hs (build_prompt h w).0 (build_prompt h w).1)
