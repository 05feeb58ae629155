-- ===== src/Messages/Laws.antt =====
-- What `SendBotMessage` does on every path, and how its callback feeds the next one.
use dpp_bot.Base.{ℕ, ◌≡◌, refl, false, none, some, List, [], ◌∷◌, ◌==◌, arith, if◌then◌else◌, ◌≢◌}
use dpp_bot.Text.{Text}
use dpp_bot.Dict.{find}
use dpp_bot.Dict.Laws.{find-assign}
use dpp_bot.Task.{
  Task, Call, returns, is_held, last_bot_messages_mutex, message_create, message_delete, start, Dpp,
  Bot,
}
use dpp_bot.Messages.{or_zero, send_bot_message, on_message_created, remember}

-- The calls of one `SendBotMessage`, the latest first.
abbrev pub replacing : ℕ → Text → ℕ → List Call → List Call
replacing channel message last log =
    message_create channel message ∷ (if last == 0 then log else message_delete last channel ∷ log)

abbrev pub sent : ℕ → Text → Task → Task
sent channel message t = record t {
  log = replacing channel message (or_zero (find channel t.bot.last_bot_messages)) t.log;
}

-- It posts the message and, if one of the bot's own stands in the channel, deletes that first. It
-- ends, keeps the bot's state and holds its mutex no longer, wherever the caller does not hold it.
pub send_bot_message_lem :
    (channel : ℕ) (message : Text) (t : Task)
    → is_held last_bot_messages_mutex t.held ≡ false
    → send_bot_message channel message t ≡ returns tt (sent channel message t)
unfolding send_bot_message
send_bot_message_lem channel message t h = ground arith

-- Once Discord has confirmed a message, the next one in the channel deletes exactly that message,
-- and an error leaves the record of the last message as it was.
pub send_twice :
    (env : ℕ → Dpp) (b : Bot) (channel id : ℕ) (message : Text)
    → id ≢ 0
    → (on_message_created channel (some id) (start env b)
        ≡ returns tt (start env (remember channel id b)))
      × (on_message_created channel none (start env b) ≡ returns tt (start env b))
      × (send_bot_message channel message (start env (remember channel id b))
          ≡ returns tt (record (start env (remember channel id b)) {
            log = message_create channel message ∷ message_delete id channel ∷ [];
          }))
unfolding on_message_created send_bot_message
send_twice env b channel id message h =
    (refl, refl, ground (arith, find-assign channel channel id b.last_bot_messages))
