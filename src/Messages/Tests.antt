-- ===== src/Messages/Tests.antt =====
-- Two messages in one channel.
use dpp_bot.Base.{◌≡◌, some, none, [], ◌∷◌, arith}
use dpp_bot.Text.{text}
use dpp_bot.Task.{start, returns, message_create, message_delete}
use dpp_bot.Messages.{on_message_created, send_bot_message, remember}
use dpp_bot.Messages.Laws.{send_twice}
use dpp_bot.Sample.{discord, two_guilds}

send_twice_example :
    (on_message_created 3 (some 71) (start discord two_guilds)
      ≡ returns tt (start discord (remember 3 71 two_guilds)))
    × (on_message_created 3 none (start discord two_guilds) ≡ returns tt (start discord two_guilds))
    × (send_bot_message 3 (text "hi") (start discord (remember 3 71 two_guilds))
        ≡ returns tt (record (start discord (remember 3 71 two_guilds)) {
          log = message_create 3 (text "hi") ∷ message_delete 71 3 ∷ [];
        }))
send_twice_example = send_twice discord two_guilds 3 71 (text "hi") (omega arith)
