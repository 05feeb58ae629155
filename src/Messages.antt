-- ===== src/Messages.antt =====
-- `SendBotMessage`, `DeleteMessage` and the callback of `message_create`
-- (src/DiscordBotClient.cpp): at most one message of the bot stands in each channel.
pub mod Laws
mod Tests
use dpp_bot.Base.{ℕ, Bool, true, false, not, Option, none, some, ◌==◌, if◌then◌else◌}
use dpp_bot.Text.{Text}
use dpp_bot.Dict.{find, assign}
use dpp_bot.Task.{
  read, M, Task, Bot, returns, throws, deadlock, fault, ◌>>=◌, ◌>>◌, done, when, with_lock, call,
  modify, last_bot_messages_mutex, message_create, message_delete,
}

abbrev pub or_zero : Option ℕ → ℕ
or_zero none = 0
or_zero (some id) = id

last_message_id : ℕ → M ℕ
last_message_id channel =
    with_lock last_bot_messages_mutex (read (λ b. or_zero (find channel b.last_bot_messages)))

unfoldable pub send_bot_message : ℕ → Text → M (Unit {0})
unfolding last_message_id
send_bot_message channel message = do
  last ← last_message_id channel
  when (not (last == 0)) (call (message_delete last channel))
  call (message_create channel message)

abbrev pub remember : ℕ → ℕ → Bot → Bot
remember channel id b = record b { last_bot_messages = assign channel id b.last_bot_messages }

-- What Discord answers to `message_create`: an error, or the new message's id.
unfoldable pub on_message_created : ℕ → Option ℕ → M (Unit {0})
on_message_created channel none = done
on_message_created channel (some id) =
    with_lock last_bot_messages_mutex (modify (remember channel id))

unfoldable pub delete_message : ℕ → ℕ → M (Unit {0})
delete_message msg channel = call (message_delete msg channel)
