-- ===== src/Command/Tests.antt =====
-- The router and the handler of messages at concrete messages.
use dpp_bot.Base.{◌≡◌, refl, [], ◌∷◌, ◌++◌, map, false, some, ◌<◌, All, is_empty, arith}
use dpp_bot.Text.{text, space, to_lower, is_upper, Text}
use dpp_bot.Task.{start, Message, returns}
use dpp_bot.Command.{play, route, on_message_create}
use dpp_bot.Command.Routing.{p_verb, with_argument, route_typed}
use dpp_bot.Command.Asking.{asked, to_p, on_message_create-asks}
use dpp_bot.FileLoader.Url.{url_decode}
use dpp_bot.Dict.{find}
use dpp_bot.Sample.{playing_info, discord, two_guilds, command_in}
use dpp_bot.Command.Safety.{IsOver, on_message_create-IsOver}

on_message_create-IsOver_example :
    IsOver (on_message_create [] (command_in 7 (text "!join")) (start discord two_guilds))
on_message_create-IsOver_example =
    on_message_create-IsOver [] discord two_guilds (command_in 7 (text "!join"))

lower_p : map to_lower (text "P") ≡ text "p"
unfolding to_lower is_upper text
lower_p = refl

route_typed_example : route (text "P" ++ space ∷ text "Some Song") ≡ play (text "Some Song")
route_typed_example =
    route_typed (text "P" ++ space ∷ text "Some Song") (play (text "Some Song"))
      (with_argument p_verb (text "P") (text "Some Song") lower_p)

-- `!P Some Song` in guild 7.
abbrev asks : Message
asks = command_in 7 (text "!" ++ (text "P" ++ space ∷ text "Some Song"))

known : find 7 two_guilds.guild_infos ≡ some playing_info
unfolding find
known = refl

named : is_empty (text "Some Song") ≡ false
unfolding text
named = refl

song_bytes : All (λ c. c < 256) (text "Some Song")
unfolding text
song_bytes = omega arith

on_message_create-asks_example :
    (query : Text) × (on_message_create [] asks (start discord two_guilds)
      ≡ returns tt (asked discord two_guilds asks false query))
    × (url_decode query ≡ some (text "Some Song"))
on_message_create-asks_example =
    on_message_create-asks discord two_guilds asks playing_info [] p_verb (text "P")
      (text "Some Song") false refl refl lower_p to_p named song_bytes known
