-- ===== src/Player/Tests.antt =====
-- The player of guild 7, with files of 30001 bytes, alone and beside another thread.
use dpp_bot.Base.{none, ℕ, ◌-◌, ◌%◌, ◌≡◌, refl, true, Option, some, [], ◌∷◌, arith}
use dpp_bot.Text.{Text, text}
use dpp_bot.Dict.{find, contains}
use dpp_bot.Queue.{request_skip, handle_skip}
use dpp_bot.Task.{Message, Dpp, Bot, start, on_info}
use dpp_bot.Task.Endings.{Returns}
use dpp_bot.Player.{
  play_frames, play_round, take_front, is_voice_client_safe_to_send, play_audio_thread,
}
use dpp_bot.Player.Playing.{Calm}
use dpp_bot.Player.Disturbed.{Considerate, Advancing, SongDone, has_entry, play_frames_lem}
use dpp_bot.Player.Songs.{IsResting, Playable, PlayedAll, play_audio_thread_lem}
use dpp_bot.Player.Recovering.{IsDown, Paced, play_audio_thread-Paced}
use dpp_bot.Player.Skipping.{
  EndsSong, from_loop, from_frame, handle_skip-EndsSong, handle_skip-Skipped,
}
use dpp_bot.Player.Unsent.{Skipped}
use dpp_bot.Player.Upcoming.{upcoming}
use dpp_bot.Player.Rounds.{Closed, play_round_lem}
use dpp_bot.Sample.{discord, two_guilds, playing_info, first_song, second_song, command_in}

abbrev nobody : ℕ → Bot → Bot
nobody n b = b

abbrev files : Text → Option ℕ
files path = some 30001

calm : Calm nobody 7 0 (start discord two_guilds)
unfolding find is_voice_client_safe_to_send
calm = record {
  info = playing_info;
  alone = λ n b. refl;
  known = refl;
  not_stopped = refl;
  not_skipped = refl;
  open_voice = λ n. refl;
  no_exception = λ n. refl;
}

considerate : Considerate nobody 7
considerate = record { keeps = λ n b h. h; persists = λ n b h. h }

advancing : Advancing discord
advancing n = omega arith

entry : has_entry 7 two_guilds ≡ true
unfolding contains find
entry = refl

play_frames_lem_example :
    Returns
      (SongDone 30001 (start discord two_guilds))
      (play_frames nobody 7 0 1340 10 30001 0 (start discord two_guilds))
play_frames_lem_example =
    play_frames_lem nobody 7 0 considerate 1339 10 30001 0 (start discord two_guilds) refl entry
      advancing (omega arith) (omega arith)

play_round_lem_example :
    Returns
      (Closed 7
        (take_front first_song (second_song ∷ []) playing_info)
        (30001 - 30001 % 2)
        (first_song.file_path ∷ [])
        (start discord two_guilds))
      (play_round files nobody 1 10 7 (start discord two_guilds))
unfolding calm text
play_round_lem_example =
    play_round_lem files nobody 0 10 7 0 30001 first_song (second_song ∷ [])
      (start discord two_guilds) calm refl refl refl refl refl refl (omega arith) (omega arith)

-- Another thread asks for a skip whenever it runs.
abbrev skips : ℕ → Bot → Bot
skips n b = on_info 7 request_skip b

-- Both songs of guild 7.
resting : IsResting files nobody 0 10 7 0 (first_song ∷ second_song ∷ []) (start discord two_guilds)
unfolding calm
resting = record {
  calm = calm;
  unlocked = refl;
  own_shard = refl;
  no_current = refl;
  unrepeated = refl;
  listed = refl;
}

first_Playable : Playable files nobody 0 10 7 first_song
unfolding text
first_Playable = (30001, refl, refl, omega arith, omega arith)

second_Playable : Playable files nobody 0 10 7 second_song
unfolding text
second_Playable = (30001, refl, refl, omega arith, omega arith)

play_audio_thread_lem_example :
    Returns
      (PlayedAll files nobody 0 10 7 (first_song ∷ second_song ∷ []) (start discord two_guilds))
      (play_audio_thread files nobody 1 10 7 2 (start discord two_guilds))
play_audio_thread_lem_example =
    play_audio_thread_lem files nobody 0 10 7 0 (first_song ∷ second_song ∷ [])
      (start discord two_guilds) resting (first_Playable, (second_Playable, tt))

-- Dpp has the shard and no voice connection.
abbrev offline : ℕ → Dpp
offline n = record (discord n) { get_shard = λ s. some (record { get_voice = λ g. none }) }

down : IsDown 7 playing_info (start offline two_guilds)
unfolding find is_voice_client_safe_to_send
down = record {
  known = refl;
  unlocked = refl;
  not_stopped = refl;
  has_channel = omega arith;
  shut = λ n. refl;
  has_shard = λ n. (record { get_voice = λ g. none }, refl);
}

-- Three rounds.
play_audio_thread-Paced_example :
    Returns
      (Paced 7 playing_info (start offline two_guilds))
      (play_audio_thread files nobody 1 10 7 3 (start offline two_guilds))
play_audio_thread-Paced_example =
    play_audio_thread-Paced files 1 10 7 2 playing_info (start offline two_guilds) down

abbrev skip_message : Message
skip_message = command_in 7 (text "!skip")

seven_known : find 7 two_guilds.guild_infos ≡ some playing_info
unfolding find
seven_known = refl

-- A skip in guild 7, with 20000 bytes of some song left and no voice connection.
handle_skip-EndsSong_example :
    Returns
      (λ _ t.
        EndsSong
          (start offline t.bot)
          7
          playing_info
          (from_loop files 0 9 7 0 20000 4 (text "/songs/0.pcm"))
          (from_frame files 0 9 7 0 11520 0 true 20000 4 (text "/songs/0.pcm")))
      (handle_skip skip_message (start discord two_guilds))
handle_skip-EndsSong_example =
    handle_skip-EndsSong files 0 9 discord offline two_guilds skip_message playing_info 20000 4
      11520 0 true (text "/songs/0.pcm") seven_known refl

-- A skip between two songs.
handle_skip-Skipped_example :
    Returns
      (λ _ t.
        Returns
          (Skipped 7 (upcoming playing_info) (start discord t.bot))
          (play_round files nobody 0 10 7 (start discord t.bot)))
      (handle_skip skip_message (start discord two_guilds))
unfolding calm text
handle_skip-Skipped_example =
    handle_skip-Skipped files 0 9 discord discord two_guilds skip_message playing_info 30001
      seven_known refl calm.open_voice refl refl
