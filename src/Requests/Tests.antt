-- ===== src/Requests/Tests.antt =====
-- The responses of the server to concrete commands.
use dpp_bot.Task.{Message, start, deadlock, guild_infos_mutex}
use dpp_bot.Base.{◌<◌, ◌≡◌, refl, true, false, [], ◌∷◌, ◌++◌, arith, All, inr, is_empty, inl}
use dpp_bot.Text.{text, text_eq}
use dpp_bot.Dict.{find}
use dpp_bot.Task.Endings.{Returns}
use dpp_bot.FileLoader.{on_response, Response, parse_video_db_info, local_path}
use dpp_bot.Connection.Ensuring.{videos_of}
use dpp_bot.Connection.Leaving.{has_thread}
use dpp_bot.Requests.Responses.{on_omakase_response, on_enqueue_response, on_deactivate_response}
use dpp_bot.Requests.Deactivating.{Told, deactivate_response-Told}
use dpp_bot.Requests.{failed}
use dpp_bot.Requests.Partial.{reactions, omakase_partial}
use dpp_bot.Sample.Values.{
  Value, partial_value, object_value, member_then, string_value, no_members, bool_value, values,
  items_value, look,
}
use dpp_bot.Requests.Omakase.{IsVideo, playable, omakase_deadlock, omakase_appends}
use dpp_bot.Requests.Answering.{swaps, enqueue_response_answered}
use dpp_bot.Sample.{discord, two_guilds, command_in}

abbrev omakase_seven : Message
omakase_seven = command_in 7 (text "!omakase 2")

abbrev omakase_nine : Message
omakase_nine = command_in 9 (text "!omakase 2")

success : values.value_bool items_value (text "success") false ≡ inr true
unfolding look text text_eq
success = refl

has_items_key : values.contains_key items_value (text "items") ≡ true
unfolding look text text_eq
has_items_key = refl

items_array : values.is_array (values.at items_value (text "items")) ≡ true
unfolding look text text_eq
items_array = refl

items_videos : All (IsVideo values) (values.elements (values.at items_value (text "items")))
unfolding look text text_eq parse_video_db_info local_path
items_videos = ((_, refl), ((_, refl), tt))

seven_runs : has_thread (find 7 two_guilds.guild_infos) ≡ true
unfolding find
seven_runs = refl

nine_idle : has_thread (find 9 two_guilds.guild_infos) ≡ false
unfolding find
nine_idle = refl

omakase_deadlock_example :
    on_omakase_response values omakase_nine true items_value [] (start discord two_guilds)
    ≡ deadlock guild_infos_mutex
omakase_deadlock_example =
    omakase_deadlock values discord two_guilds omakase_nine items_value [] success has_items_key
      items_array items_videos nine_idle

omakase_appends_example :
    Returns
      (λ _ t.
        (videos_of (find 7 t.bot.guild_infos)
          ≡ videos_of (find 7 two_guilds.guild_infos)
            ++ playable values (values.elements (values.at items_value (text "items"))))
        × (find 9 t.bot.guild_infos ≡ find 9 two_guilds.guild_infos))
      (on_omakase_response values omakase_seven true items_value [] (start discord two_guilds))
omakase_appends_example =
    omakase_appends values discord two_guilds omakase_seven items_value [] 9 success has_items_key
      items_array items_videos seven_runs (omega arith)

-- A body that is no JSON.
abbrev broken : Response
broken = record { status = 200; body = text "oops" }

enqueue_response_answered_example :
    Returns
      (λ _ t. 0 < swaps t.log)
      (on_response values
        (on_enqueue_response values omakase_seven false)
        broken
        (start discord two_guilds))
enqueue_response_answered_example =
    enqueue_response_answered values discord two_guilds omakase_seven false broken

-- A JSON that says nothing of a success.
abbrev silent : Response
silent = record { status = 200; body = text "config" }

deactivate_response-Told_example :
    Returns
      (λ _ t. Told omakase_seven true two_guilds t)
      (on_response values
        (on_deactivate_response values omakase_seven true)
        silent
        (start discord two_guilds))
deactivate_response-Told_example =
    deactivate_response-Told values discord two_guilds omakase_seven true silent

abbrev partial : Response
partial = record { status = 200; body = text "partial" }

abbrev good_item : Value
good_item =
    object_value (member_then (text "localPath") (string_value (text "/songs/3.pcm")) no_members)

partial_body : is_empty partial.body ≡ false
unfolding text
partial_body = refl

partial_parsed : values.parse partial.body ≡ inr partial_value
unfolding text text_eq
partial_parsed = refl

partial_success : values.value_bool partial_value (text "success") false ≡ inr true
unfolding look text text_eq
partial_success = refl

partial_key : values.contains_key partial_value (text "items") ≡ true
unfolding look text text_eq
partial_key = refl

partial_array : values.is_array (values.at partial_value (text "items")) ≡ true
unfolding look text text_eq
partial_array = refl

partial_items :
    values.elements (values.at partial_value (text "items"))
    ≡ (good_item ∷ []) ++ bool_value false ∷ []
unfolding look text text_eq
partial_items = refl

good_videos : All (IsVideo values) (good_item ∷ [])
unfolding look text text_eq parse_video_db_info local_path
good_videos = ((_, refl), tt)

bad_item : parse_video_db_info values (bool_value false) ≡ inl (text "type_error")
unfolding parse_video_db_info
bad_item = refl

omakase_partial_example :
    Returns
      (λ _ t.
        (videos_of (find 7 t.bot.guild_infos)
          ≡ videos_of (find 7 two_guilds.guild_infos) ++ playable values (good_item ∷ []))
        × (reactions t.log ≡ failed ∷ []))
      (on_response values
        (on_omakase_response values omakase_seven)
        partial
        (start discord two_guilds))
omakase_partial_example =
    omakase_partial values discord two_guilds omakase_seven partial partial_value (good_item ∷ [])
      [] (bool_value false) (text "type_error") refl partial_body partial_parsed partial_success
      partial_key partial_array partial_items good_videos bad_item
