-- ===== src/System/Playback/Tests.antt =====
-- A user of guild 7 asks for a song, the server finds it, and the audio thread plays it after the two
-- that wait.
use dpp_bot.Base.{
  false, pos, ◌++◌, map, is_empty, All, ◌<◌, arith, some, true, ℕ, ◌≡◌, refl, Option, [], ◌∷◌,
}
use dpp_bot.Text.{space, is_upper, Text, text, to_lower, text_eq}
use dpp_bot.Guild.{VideoDbInfo}
use dpp_bot.Task.{Message, enqueue_response, start}
use dpp_bot.Task.Endings.{Returns}
use dpp_bot.FileLoader.{Response, on_response, parse_video_db_info, local_path}
use dpp_bot.Requests.Responses.{continue, response_items, single_item}
use dpp_bot.Player.{alone, is_voice_client_safe_to_send}
use dpp_bot.Player.Songs.{Playable}
use dpp_bot.Command.Routing.{play_verb}
use dpp_bot.Command.Asking.{to_play}
use dpp_bot.System.Playback.{Brings, IsQuiet, PlaysAll, play_to_end}
use dpp_bot.Sample.{playing_info, first_song, second_song, discord, two_guilds, command_in}
use dpp_bot.Sample.Values.{video_value, look, values}
use dpp_bot.Dict.{find}
use dpp_bot.Command.{on_message_create}

abbrev third_song : VideoDbInfo
third_song = record {
  id = [];
  title = [];
  channel_id = [];
  channel_title = [];
  thumbnail = [];
  file_path = text "/songs/3.pcm";
  duration = pos 0;
  error = [];
  success = true;
}

abbrev asking : Message
asking = command_in 7 (text "!" ++ (text "play" ++ space ∷ text "Three"))

abbrev found_video : Response
found_video = record { status = 200; body = text "video" }

brings : Brings values asking false (third_song ∷ []) [] found_video
unfolding response_items single_item parse_video_db_info local_path look text text_eq
brings = record {
  json = video_value;
  status_ok = refl;
  has_body = refl;
  parsed = refl;
  succeeds = refl;
  reads = λ t. refl;
}

quiet : IsQuiet values asking false (third_song ∷ []) [] playing_info discord
unfolding is_voice_client_safe_to_send
quiet = record {
  not_stopped = refl;
  not_skipped = refl;
  not_repeated = refl;
  no_current = refl;
  open_voice = λ n. refl;
  no_exception = λ n. refl;
}

abbrev all_files : Text → Option ℕ
all_files path = some 30001

three_Playable : All (Playable all_files alone 0 10 7) (first_song ∷ second_song ∷ third_song ∷ [])
unfolding text
three_Playable = (
  (30001, refl, refl, omega arith, omega arith),
  (
    (30001, refl, refl, omega arith, omega arith),
    ((30001, refl, refl, omega arith, omega arith), tt),
  ),
)

lower_play : map to_lower (text "play") ≡ text "play"
unfolding to_lower is_upper text
lower_play = refl

three_named : is_empty (text "Three") ≡ false
unfolding text
three_named = refl

three_bytes : All (λ c. c < 256) (text "Three")
unfolding text
three_bytes = omega arith

seven_known : find 7 two_guilds.guild_infos ≡ some playing_info
unfolding find
seven_known = refl

play_to_end_example :
    Returns
      (λ _ t.
        Returns
          (λ _ u.
            PlaysAll values asking false
              (third_song ∷ [])
              []
              all_files
              0
              10
              discord
              (first_song ∷ second_song ∷ third_song ∷ [])
              u.bot)
          (on_response values
            (continue values (enqueue_response asking false))
            found_video
            (start discord t.bot)))
      (on_message_create [] asking (start discord two_guilds))
play_to_end_example =
    play_to_end values asking false (third_song ∷ []) [] all_files 0 10 [] discord discord discord
      two_guilds playing_info play_verb (text "play") (text "Three") found_video refl refl
      lower_play to_play three_named three_bytes seven_known brings quiet three_Playable
