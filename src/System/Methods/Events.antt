-- ===== src/System/Methods/Events.antt =====
-- Every event.
use dpp_bot.Base.{ℕ, Option}
use dpp_bot.Text.{Text}
use dpp_bot.Json.{JsonLib}
use dpp_bot.Task.{M}
use dpp_bot.System.{
  Event, message_arrives, voice_state_changes, timer_fires, message_is_created, reaction_is_deleted,
  messages_arrive, response_arrives, leave_runs, player_turns, handle_event,
}
use dpp_bot.System.Rules.{Rules, Holds, Holds-bind, Holds-done}
use dpp_bot.System.Methods.Talking.{
  on_message_created-Holds, on_reaction_deleted-Holds, on_messages-Holds,
}
use dpp_bot.System.Methods.Voicing.{on_voice_state_update-Holds, check_voice_channels-Holds}
use dpp_bot.System.Methods.Connecting.{leave_worker-Holds}
use dpp_bot.System.Methods.Commands.{on_message_create-Holds}
use dpp_bot.System.Methods.Callbacks.{on_response-Holds}
use dpp_bot.System.Methods.Playing.{play_round-Holds}

module _ (lib : JsonLib) (files : Text → Option ℕ) {P : (A : Type 0) → M A → Type 0}
    (r : Rules P) where
  event-Holds : (e : Event) → Holds r (handle_event lib files e)
  unfolding handle_event
  event-Holds (message_arrives draws msg) = on_message_create-Holds draws msg
  event-Holds (voice_state_changes st) = on_voice_state_update-Holds st
  event-Holds timer_fires = check_voice_channels-Holds
  event-Holds (message_is_created channel created) = on_message_created-Holds channel created
  event-Holds (reaction_is_deleted msg next is_error) = on_reaction_deleted-Holds msg next is_error
  event-Holds (messages_arrive channel ids) = on_messages-Holds channel ids
  event-Holds (response_arrives k response) = on_response-Holds lib k response
  event-Holds (leave_runs guild shard channel) = leave_worker-Holds guild shard channel
  event-Holds (player_turns polls fuel guild) =
      Holds-bind _ _ (play_round-Holds files polls fuel guild) λ round. Holds-done

  -- A property that goes through sequences and holds of the parts, holds of every event.
  pub handle_event-rule : (e : Event) → P (Unit {0}) (handle_event lib files e)
  handle_event-rule e = let h : Holds r (handle_event lib files e) = event-Holds e in h.holds
