-- ===== src/Command.antt =====
-- `on_message_create` and `HandleCommand` (src/DiscordBotClient.cpp): which handler a message runs.
pub mod Routing
pub mod Safety
pub mod Asking
mod Tests
use dpp_bot.Base.{
  String, ℕ, suc, Bool, true, false, ◌||◌, Option, none, some, List, [], ◌∷◌, map, if◌then◌else◌,
  drop,
}
use dpp_bot.Text.{Text, text, space, to_lower, text_eq, starts_with, find_char, has_char}
use dpp_bot.Task.{M, Message, ◌>>=◌, ◌>>◌, done, with_lock, modify_info, guild_infos_mutex}
use dpp_bot.Messages.{send_bot_message, delete_message}
use dpp_bot.Queue.{handle_skip, handle_repeat, handle_random, handle_remove, handle_list}
use dpp_bot.Connection.{handle_join, handle_leave, set_text_channel}
use dpp_bot.Requests.{handle_play, handle_first_play, handle_omakase, handle_delete}
use dpp_bot.Clean.{handle_clean}

pub data Command : Type 0 where
  join leave skip list random remove repeat other : Command
  play first omakase clean : Text → Command
  delete : (should_skip : Bool) → Command

-- `argsAfterFirstSpace`.
unfoldable pub args_after_first_space : Text → Text
args_after_first_space command = elim (find_char space command) [
  | none ↦ []
  | some i ↦ drop (suc i) command
]

unfoldable pub is_word : String → Text → Bool
is_word w lower = text_eq lower (text w)

unfoldable pub has_word : String → Text → Bool
has_word w lower = starts_with (text w) lower

-- The chain of tests on the command in lower case; the arguments keep their case.
unfoldable pub route_lower : Text → Text → Command
unfolding is_word has_word
route_lower lower args =
    if is_word "join" lower || is_word "j" lower
    then join
    else if is_word "leave" lower || is_word "l" lower
    then leave
    else if has_word "play " lower || has_word "p " lower
    then play args
    else if has_word "first " lower || has_word "f " lower
    then first args
    else if is_word "skip" lower || is_word "s" lower
    then skip
    else if is_word "omakase" lower || has_word "omakase " lower
    then omakase args
    else if is_word "list" lower
    then list
    else if is_word "random" lower
    then random
    else if is_word "remove" lower || has_word "remove " lower
    then remove
    else if is_word "delete" lower || has_word "delete " lower
    then delete (has_char b's' (map to_lower args))
    else if is_word "repeat" lower
    then repeat
    else if is_word "clean" lower || has_word "clean " lower
    then clean args
    else other

unfoldable pub route : Text → Command
unfolding route_lower args_after_first_space
route command = route_lower (map to_lower command) (args_after_first_space command)

-- A handler, after which the message with the command is deleted.
unfoldable pub then_delete : Message → M (Unit {0}) → M (Unit {0})
then_delete msg handler = do handler; delete_message msg.msg_id msg.channel_id

-- `draws` are the random numbers for `!random`.
unfoldable pub dispatch : List ℕ → Command → Message → M (Unit {0})
unfolding then_delete
dispatch draws join msg = then_delete msg (handle_join msg)
dispatch draws leave msg = do
  handle_leave msg
  then_delete msg (send_bot_message msg.channel_id (text "잘자용"))
dispatch draws (play args) msg = handle_play args msg
dispatch draws (first args) msg = handle_first_play args msg
dispatch draws skip msg = then_delete msg (handle_skip msg)
dispatch draws (omakase args) msg = then_delete msg (handle_omakase args msg)
dispatch draws list msg = then_delete msg (handle_list msg)
dispatch draws random msg = then_delete msg (handle_random draws msg)
dispatch draws remove msg = then_delete msg (handle_remove msg)
dispatch draws (delete should_skip) msg = then_delete msg (handle_delete msg should_skip)
dispatch draws repeat msg = then_delete msg (handle_repeat msg)
dispatch draws (clean args) msg = handle_clean args msg
dispatch draws other msg = done

-- The channel is noted before the command runs; a guild with no entry has nothing to note it in.
unfoldable pub handle_command : List ℕ → Text → Message → M (Unit {0})
unfolding route dispatch
handle_command draws command msg = do
  with_lock guild_infos_mutex (modify_info msg.guild_id (set_text_channel msg.channel_id))
  dispatch draws (route command) msg

unfoldable pub on_message_create : List ℕ → Message → M (Unit {0})
unfolding handle_command
on_message_create draws msg =
    if msg.author_is_bot
    then done
    else if starts_with (text "!") msg.content
    then handle_command draws (drop 1 msg.content) msg
    else done
