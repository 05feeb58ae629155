-- ===== src/System.antt =====
-- The client as a whole (src/DiscordBotClient.cpp): what its constructor registers with dpp, what
-- dpp calls back, and the threads that it starts. An event is one method, run to its end in one
-- thread; a step is an event that its cause has made possible.
pub mod Rules
pub mod Methods
pub mod Sound
pub mod Keeping
pub mod Notes
pub mod Occupancy
pub mod Entries
pub mod Judging
pub mod Stopping
pub mod Blind
pub mod Invariant
pub mod Progress
pub mod Playback
pub mod Passes
pub mod Departure
pub mod Company
mod Tests
use dpp_bot.Base.{ℕ, Bool, Option, List, [], ◌≡◌}
use mathlib.Core.List.{Memᴰ}
use dpp_bot.Text.{Text}
use dpp_bot.Task.{
  M, Task, Bot, Dpp, Message, Continuation, Call, returns, throws, ◌>>=◌, ◌>>◌, done,
  message_create, delete_own_reaction, messages_get, request, spawn_leave, spawn_player,
}
use dpp_bot.Messages.{on_message_created}
use dpp_bot.Voice.{VoiceState, on_voice_state_update, check_voice_channels}
use dpp_bot.Connection.{leave_worker}
use dpp_bot.Json.{JsonLib}
use dpp_bot.FileLoader.{Response, on_response}
use dpp_bot.Requests.{on_reaction_deleted}
use dpp_bot.Requests.Responses.{continue}
use dpp_bot.Clean.{on_messages}
use dpp_bot.Command.{on_message_create}
use dpp_bot.Player.{play_round, alone}

-- What runs a method: the handlers of the constructor and its timer; the callbacks of
-- `message_create`, `message_delete_own_reaction`, `messages_get` and of the server calls; the
-- threads of `CheckVoiceChannels` and of `StartAudioThread`, the latter round by round.
pub data Event : Type 0 where
  message_arrives : (draws : List ℕ) → Message → Event
  voice_state_changes : VoiceState → Event
  timer_fires : Event
  message_is_created : (channel : ℕ) → Option ℕ → Event
  reaction_is_deleted : Message → (next : Text) → (is_error : Bool) → Event
  messages_arrive : (channel : ℕ) → Option (List ℕ) → Event
  response_arrives : Continuation → Response → Event
  leave_runs : (guild shard channel : ℕ) → Event
  player_turns : (polls fuel guild : ℕ) → Event

-- The calls that were made allow the event.
pub data IsCaused (log : List Call) : Event → Type 0 where
  by_user : (draws : List ℕ) (msg : Message) → IsCaused log (message_arrives draws msg)
  by_voice : (st : VoiceState) → IsCaused log (voice_state_changes st)
  by_timer : IsCaused log timer_fires
  by_message :
      (channel : ℕ) (content : Text) (created : Option ℕ)
      → Memᴰ (message_create channel content) log
      → IsCaused log (message_is_created channel created)
  by_deletion :
      (msg : Message) (next : Text) (is_error : Bool)
      → Memᴰ (delete_own_reaction msg.msg_id next) log
      → IsCaused log (reaction_is_deleted msg next is_error)
  by_listing :
      (channel count : ℕ) (ids : Option (List ℕ))
      → Memᴰ (messages_get channel count) log
      → IsCaused log (messages_arrive channel ids)
  by_request :
      (path : Text) (k : Continuation) (response : Response)
      → Memᴰ (request path k) log
      → IsCaused log (response_arrives k response)
  by_check :
      (guild shard channel : ℕ)
      → Memᴰ (spawn_leave guild shard channel) log
      → IsCaused log (leave_runs guild shard channel)
  by_start :
      (polls fuel guild : ℕ)
      → Memᴰ (spawn_player guild) log
      → IsCaused log (player_turns polls fuel guild)

-- The bot, and the calls that it has made.
pub record World : Type 0 where
  pub bot : Bot
  pub log : List Call

-- A thread that enters a method, and what it leaves behind.
abbrev pub enter_world : (ℕ → Dpp) → World → Task
enter_world env w = record { held = []; bot = w.bot; log = w.log; env = env; tick = 0 }

abbrev pub world_of : Task → World
world_of t = record { bot = t.bot; log = t.log }

-- `DiscordBotClient(token)`.
abbrev pub new_world : World
new_world = record {
  bot = record {
    guild_infos = [];
    last_bot_messages = [];
    voice_occupancy = [];
    seeded_voice_guilds = [];
  };
  log = [];
}

module _ (lib : JsonLib) (files : Text → Option ℕ) where
  unfoldable pub handle_event : Event → M (Unit {0})
  handle_event (message_arrives draws msg) = on_message_create draws msg
  handle_event (voice_state_changes st) = on_voice_state_update st
  handle_event timer_fires = check_voice_channels
  handle_event (message_is_created channel created) = on_message_created channel created
  handle_event (reaction_is_deleted msg next is_error) = on_reaction_deleted msg next is_error
  handle_event (messages_arrive channel ids) = on_messages channel ids
  handle_event (response_arrives k response) = on_response lib (continue lib k) response
  handle_event (leave_runs guild shard channel) = leave_worker guild shard channel
  handle_event (player_turns polls fuel guild) = do
    round ← play_round files alone polls fuel guild
    done

  -- A method returns, or an exception leaves it.
  pub data Step (w : World) : World → Type 0 where
    returning :
        (e : Event) (env : ℕ → Dpp) (u : Task)
        → IsCaused w.log e
        → handle_event e (enter_world env w) ≡ returns tt u
        → Step w (world_of u)
    throwing :
        (e : Event) (env : ℕ → Dpp) (error : Text) (u : Task)
        → IsCaused w.log e
        → handle_event e (enter_world env w) ≡ throws error u
        → Step w (world_of u)

  pub data Reach : World → Type 0 where
    fresh : Reach new_world
    step : (w v : World) → Reach w → Step w v → Reach v
