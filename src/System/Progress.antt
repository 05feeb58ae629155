-- ===== src/System/Progress.antt =====
-- Every event comes to an end.
use dpp_bot.Base.{
  zero, suc, ◌≤◌, [], List, sym, subst, ℕ, ◌≡◌, refl, true, Option, none, some, arith,
}
use dpp_bot.Text.{Text}
use dpp_bot.Task.{
  Call, Task, Bot, Dpp, Outcome, returns, throws, deadlock, fault, start, enqueue_response,
  omakase_response, deactivate_response,
}
use dpp_bot.Task.Endings.{Returns, Returns-bind}
use dpp_bot.Json.{JsonLib}
use dpp_bot.Messages.{send_bot_message, on_message_created}
use dpp_bot.Clean.{on_messages}
use dpp_bot.Clean.Laws.{on_messages_lem}
use dpp_bot.Requests.{on_reaction_deleted}
use dpp_bot.Requests.Responses.{continue}
use dpp_bot.Requests.Answering.{enqueue_response_answered}
use dpp_bot.Dict.{find}
use dpp_bot.Connection.Leaving.{has_thread}
use dpp_bot.Requests.Ending.{Over, omakase_response-Ending}
use dpp_bot.Requests.Deactivating.{deactivate_response-Told}
use dpp_bot.Voice.Checking.{check_voice_channels_lem}
use dpp_bot.Voice.Occupancy.{on_voice_state_update_lem}
use dpp_bot.Connection.{leave_worker}
use dpp_bot.Connection.Leaving.{leave_voice_lem}
use dpp_bot.Command.Safety.{IsOver, on_message_create-IsOver}
use dpp_bot.Player.{alone, play_round}
use dpp_bot.Player.Staying.{opened-nil}
use dpp_bot.Player.Disturbed.{Considerate, Advancing, enough_polls}
use dpp_bot.Player.Lasting.{Lasts, Fits, play_round-Lasts}
use dpp_bot.Player.Safety.{Continues, play_round_safe}
use dpp_bot.System.{
  Event, message_arrives, voice_state_changes, timer_fires, message_is_created, reaction_is_deleted,
  messages_arrive, response_arrives, leave_runs, player_turns, handle_event, World, enter_world,
  world_of, IsCaused, Step, returning, throwing,
}
use dpp_bot.System.Blind.{behind, blind}
use dpp_bot.System.Methods.Events.{handle_event-rule}

Returns-IsOver : {A : Type 0} (P : A → Task → Type 0) (o : Outcome A) → Returns P o → IsOver o
Returns-IsOver P (returns a t) h = (h.0, tt)
Returns-IsOver P (throws e t) h = absurd h
Returns-IsOver P (deadlock m) h = absurd h
Returns-IsOver P fault h = absurd h

-- A response to `!omakase` finds the guild's audio thread running; a round of the audio thread has
-- fuel for the files and for the wait of a frame, while the clock gains 50 milliseconds in any ten
-- questions.
abbrev pub IsReady : (Text → Option ℕ) → (ℕ → Dpp) → Bot → Event → Type 0
IsReady files env b (response_arrives (omakase_response msg) response) =
    has_thread (find msg.guild_id b.guild_infos) ≡ true
IsReady files env b (player_turns polls fuel guild) =
    (enough_polls ≤ polls) × Fits files fuel × Advancing env
IsReady files env b e = Unit {0}

-- A round of the audio thread does not end for want of fuel.
abbrev pub IsWhole : (Text → Option ℕ) → Event → Task → Type 0
IsWhole files (player_turns polls fuel guild) t = Lasts (play_round files alone polls fuel guild t)
IsWhole files e t = Unit {0}

alone-Considerate : (guild : ℕ) → Considerate alone guild
alone-Considerate guild = record { keeps = λ n b h. h; persists = λ n b h. h }

round-IsWhole :
    (files : Text → Option ℕ) (polls fuel guild : ℕ) (t : Task)
    → t.held ≡ []
    → enough_polls ≤ polls
    → Fits files fuel
    → Advancing t.env
    → Lasts (play_round files alone polls fuel guild t)
round-IsWhole files zero fuel guild t h p f a = absurd (omega (arith, p))
round-IsWhole files (suc polls) fuel guild t h p f a =
    play_round-Lasts files alone polls fuel guild (alone-Considerate guild) p f t h a

event-IsWhole :
    (files : Text → Option ℕ) (e : Event) (t : Task)
    → t.held ≡ []
    → IsReady files t.env t.bot e
    → IsWhole files e t
event-IsWhole files (message_arrives draws msg) t h r = tt
event-IsWhole files (voice_state_changes st) t h r = tt
event-IsWhole files timer_fires t h r = tt
event-IsWhole files (message_is_created channel created) t h r = tt
event-IsWhole files (reaction_is_deleted msg next is_error) t h r = tt
event-IsWhole files (messages_arrive channel ids) t h r = tt
event-IsWhole files (response_arrives k response) t h r = tt
event-IsWhole files (leave_runs guild shard channel) t h r = tt
event-IsWhole files (player_turns polls fuel guild) t h r =
    round-IsWhole files polls fuel guild t h r.0 r.1 r.2

Over-IsOver : (guild : ℕ) (o : Outcome (Unit {0})) → Over guild o → IsOver o
Over-IsOver guild (returns a t) h = (h.0, tt)
Over-IsOver guild (throws e t) h = (h.0, tt)
Over-IsOver guild (deadlock m) h = h
Over-IsOver guild fault h = h

module _ (lib : JsonLib) (files : Text → Option ℕ) (env : ℕ → Dpp) (b : Bot) where
  -- From a bot that has made no call, every event comes to an end.
  handle_event-IsOver :
      (e : Event) → IsReady files env b e → IsOver (handle_event lib files e (start env b))
  unfolding handle_event on_message_created on_reaction_deleted on_messages continue leave_worker
      send_bot_message
  handle_event-IsOver (message_arrives draws msg) h = on_message_create-IsOver draws env b msg
  handle_event-IsOver (voice_state_changes st) h =
      Returns-IsOver _ _ (on_voice_state_update_lem env b st 0 0)
  handle_event-IsOver timer_fires h = Returns-IsOver _ _ (check_voice_channels_lem env b 0)
  handle_event-IsOver (message_is_created channel none) h = ground arith
  handle_event-IsOver (message_is_created channel (some id)) h = ground arith
  handle_event-IsOver (reaction_is_deleted msg next is_error) h = ground arith
  handle_event-IsOver (messages_arrive channel none) h = ground arith
  handle_event-IsOver (messages_arrive channel (some ids)) h =
      Returns-IsOver _ _ (on_messages_lem env b channel ids)
  handle_event-IsOver (response_arrives (enqueue_response msg front) response) h =
      Returns-IsOver _ _ (enqueue_response_answered lib env b msg front response)
  handle_event-IsOver (response_arrives (omakase_response msg) response) h =
      Over-IsOver msg.guild_id _
        ((omakase_response-Ending lib msg response).at (start env b) refl h)
  handle_event-IsOver (response_arrives (deactivate_response msg skip) response) h =
      Returns-IsOver _ _ (deactivate_response-Told lib env b msg skip response)
  handle_event-IsOver (leave_runs guild shard channel) h =
      ground (arith, leave_voice_lem env b guild shard)
  handle_event-IsOver (player_turns polls fuel guild) h =
      Returns-IsOver (λ _ t. Unit {0}) _
        (Returns-bind (Continues guild b) (λ _ t. Unit {0})
          (play_round files alone polls fuel guild) _ (start env b)
          (play_round_safe files alone polls fuel guild (start env b) (λ n c k. k) refl opened-nil)
          λ r u hu c. (hu, tt))

IsOver-behind : {A : Type 0} (old : List Call) (o : Outcome A) → IsOver o → IsOver (behind old o)
IsOver-behind old (returns a t) h = h
IsOver-behind old (throws e t) h = h
IsOver-behind old (deadlock x) h = h
IsOver-behind old fault h = h

module _ (lib : JsonLib) (files : Text → Option ℕ) (env : ℕ → Dpp) (w : World) (e : Event) where
  ends_in_world : IsReady files env w.bot e → IsOver (handle_event lib files e (enter_world env w))
  ends_in_world h =
      subst IsOver (sym ((handle_event-rule lib files blind e).at w.log (start env w.bot))) (
        IsOver-behind w.log (handle_event lib files e (start env w.bot))
          (handle_event-IsOver lib files env w.bot e h))

  outcome-Step :
      (o : Outcome (Unit {0}))
      → handle_event lib files e (enter_world env w) ≡ o
      → IsOver o
      → IsCaused w.log e
      → (v : World) × Step lib files w v
  outcome-Step (returns a u) run h c = (world_of u, returning e env u c run)
  outcome-Step (throws error u) run h c = (world_of u, throwing e env error u c run)
  outcome-Step (deadlock x) run h c = absurd h
  outcome-Step fault run h c = absurd h

  -- Whatever the state of the bot and the calls made so far, dpp's answers, the JSON and the files:
  -- every event that those calls allow ends by a return or an exception, with every lock released, and
  -- never by a second lock of a mutex by its thread, a join under the mutex that the joined thread
  -- needs, or a use of a guild entry that is gone, and so takes the client a step further. Of a
  -- response to `!omakase` that is so if the guild's audio thread runs. Of a round of the audio thread,
  -- with no other thread at work, it is so if its loops have the fuel for the largest file and for 1340
  -- polls of a frame and the clock gains 50 milliseconds in any ten questions: the round then does not
  -- run out of fuel.
  pub event_steps :
      IsCaused w.log e
      → IsReady files env w.bot e
      → IsOver (handle_event lib files e (enter_world env w))
        × IsWhole files e (enter_world env w)
        × ((v : World) × Step lib files w v)
  event_steps c h = (
    ends_in_world h,
    event-IsWhole files e (enter_world env w) refl h,
    outcome-Step (handle_event lib files e (enter_world env w)) refl (ends_in_world h) c,
  )
