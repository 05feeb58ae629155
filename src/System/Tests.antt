-- ===== src/System/Tests.antt =====
-- Two steps of the client: a user's `!join`, and a round of the audio thread that it starts.
use dpp_bot.Base.{some, arith, ℕ, ◌≡◌, refl, Option, none, [], ◌∷◌}
use mathlib.Core.List.{Memᴰ}
use dpp_bot.Text.{Text, text, starts_with, to_lower, text_eq}
use dpp_bot.Task.{Task, Outcome, returns, throws, deadlock, fault, start, spawn_player}
use dpp_bot.Dict.{find, contains, update, emplace, erase}
use dpp_bot.Guild.{move_guild_info, new_guild_info}
use dpp_bot.Messages.{send_bot_message, delete_message}
use dpp_bot.Connection.{handle_join, join_member, establish, start_audio_thread}
use dpp_bot.Command.{on_message_create, handle_command, route, dispatch}
use dpp_bot.Player.{play_round, is_voice_client_safe_to_send}
use dpp_bot.System.{
  Event, message_arrives, player_turns, enter_world, world_of, new_world, handle_event, by_user,
  by_start, World, Step, returning, fresh, step,
}
use dpp_bot.System.Sound.{IsSound}
use dpp_bot.Command.Safety.{IsOver}
use dpp_bot.System.Progress.{IsWhole, event_steps}
use dpp_bot.Player.Disturbed.{Advancing}
use dpp_bot.Player.Lasting.{Fits}
use dpp_bot.System.Invariant.{Reach-IsSound}
use dpp_bot.Sample.{discord, two_guilds, command_in}
use dpp_bot.Sample.Values.{values}

abbrev no_files : Text → Option ℕ
no_files path = none

abbrev task_of : {A : Type 0} → Outcome A → Task
task_of (returns a t) = t
task_of (throws e t) = t
task_of (deadlock m) = start discord two_guilds
task_of fault = start discord two_guilds

abbrev joins : Event
joins = message_arrives [] (command_in 7 (text "!join"))

abbrev after_join : Task
after_join = task_of (handle_event values no_files joins (enter_world discord new_world))

-- The player's round in what `!join` leaves.
abbrev turns : Event
turns = player_turns 2 2 7

abbrev after_turn : Task
after_turn =
    task_of (handle_event values no_files turns (enter_world discord (world_of after_join)))

join_returns :
    handle_event values no_files joins (enter_world discord new_world) ≡ returns tt after_join
unfolding handle_event on_message_create handle_command route dispatch handle_join join_member
    establish send_bot_message delete_message find contains starts_with text to_lower
    start_audio_thread text_eq update emplace erase move_guild_info new_guild_info
join_returns = refl

turn_returns :
    handle_event values no_files turns (enter_world discord (world_of after_join))
    ≡ returns tt after_turn
unfolding handle_event on_message_create handle_command route dispatch handle_join join_member
    establish send_bot_message delete_message find contains starts_with text to_lower
    start_audio_thread text_eq update emplace erase move_guild_info new_guild_info play_round
    is_voice_client_safe_to_send
turn_returns = refl

player_started : Memᴰ (spawn_player 7) after_join.log
unfolding handle_event on_message_create handle_command route dispatch handle_join join_member
    establish send_bot_message delete_message find contains starts_with text to_lower
    start_audio_thread text_eq update emplace erase move_guild_info new_guild_info
player_started = Memᴰ.tail (Memᴰ.tail (Memᴰ.head refl))

Reach-IsSound_example : IsSound (enter_world discord (world_of after_turn))
Reach-IsSound_example =
    Reach-IsSound values no_files (world_of after_turn)
      (step (world_of after_join) (world_of after_turn)
        (step new_world (world_of after_join) fresh (
          returning joins discord after_join (by_user [] (command_in 7 (text "!join")))
            join_returns))
        (returning turns discord after_turn (by_start 2 2 7 player_started) turn_returns))
      discord

-- A round of the audio thread of guild 7, which was started.
abbrev playing : World
playing = record { bot = two_guilds; log = spawn_player 7 ∷ [] }

abbrev plays : Event
plays = player_turns 1340 10 7

abbrev some_files : Text → Option ℕ
some_files path = some 30001

fits : Fits some_files 10
fits path size h = ground (arith, h)

discord-Advancing : Advancing discord
discord-Advancing n = omega arith

event_steps_example :
    IsOver (handle_event values some_files plays (enter_world discord playing))
    × IsWhole some_files plays (enter_world discord playing)
    × ((v : World) × Step values some_files playing v)
event_steps_example =
    event_steps values some_files discord playing plays (by_start 1340 10 7 (Memᴰ.head refl))
      (omega arith, fits, discord-Advancing)
