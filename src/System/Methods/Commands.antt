-- ===== src/System/Methods/Commands.antt =====
-- The handlers of messages.
use dpp_bot.Base.{ℕ, suc, Bool, Option, none, some, List, ℤ, drop}
use dpp_bot.Text.{Text, text, space, find_char, stoi}
use dpp_bot.Task.{Message}
use dpp_bot.Messages.{send_bot_message, delete_message}
use dpp_bot.Queue.{
  handle_skip, handle_repeat, handle_random, handle_remove, handle_list, remove_parsed,
  remove_video, send_list_message,
}
use dpp_bot.FileLoader.{request_server}
use dpp_bot.Clean.{handle_clean}
use dpp_bot.Requests.{
  join_first, request_and_enqueue, handle_play, handle_first_play, handle_omakase, handle_delete,
}
use dpp_bot.Command.{
  Command, join, leave, skip, list, random, remove, repeat, other, play, first, omakase, clean,
  delete, then_delete, dispatch, handle_command, on_message_create,
}
use dpp_bot.System.Rules.{Rules, Holds, rules}
use dpp_bot.Task.{M}
use dpp_bot.System.Methods.Talking.{send_bot_message-Holds}
use dpp_bot.System.Methods.Connecting.{handle_join-Holds, handle_leave-Holds}

module _ {P : (A : Type 0) → M A → Type 0} {r : Rules P} where
  pub handle_skip-Holds : (msg : Message) → Holds r (handle_skip msg)
  unfolding handle_skip
  handle_skip-Holds msg = search (rules, send_bot_message-Holds)

  handle_repeat-Holds : (msg : Message) → Holds r (handle_repeat msg)
  unfolding handle_repeat
  handle_repeat-Holds msg = search (rules, send_bot_message-Holds) depth 12

  handle_random-Holds : (draws : List ℕ) (msg : Message) → Holds r (handle_random draws msg)
  unfolding handle_random
  handle_random-Holds draws msg = search (rules, send_bot_message-Holds) depth 12

  remove_video-Holds : (msg : Message) (index : ℤ) → Holds r (remove_video msg index)
  unfolding remove_video
  remove_video-Holds msg index = search (rules, send_bot_message-Holds) depth 12

  remove_parsed-Holds : (msg : Message) (parsed : Option ℤ) → Holds r (remove_parsed msg parsed)
  unfolding remove_parsed
  remove_parsed-Holds msg none = search (rules, send_bot_message-Holds)
  remove_parsed-Holds msg (some index) = search (rules, send_bot_message-Holds, remove_video-Holds)

  handle_remove-Holds : (msg : Message) → Holds r (handle_remove msg)
  unfolding handle_remove
  handle_remove-Holds msg =
      elim (find_char space (drop 1 msg.content))
        as (λ o. Holds r (elim o [
          | none ↦ send_bot_message msg.channel_id (text "인덱스를 입력해주세요. 예: !remove 1")
          | some i ↦ remove_parsed msg (stoi (drop (suc i) (drop 1 msg.content)))
        ])) [
          | none ↦ send_bot_message-Holds _ _
          | some i ↦ remove_parsed-Holds msg (stoi (drop (suc i) (drop 1 msg.content)))
        ]

  pub send_list_message-Holds : (channel guild : ℕ) → Holds r (send_list_message channel guild)
  unfolding send_list_message
  send_list_message-Holds channel guild = search (rules, send_bot_message-Holds) depth 12

  handle_list-Holds : (msg : Message) → Holds r (handle_list msg)
  unfolding handle_list
  handle_list-Holds msg = send_list_message-Holds _ _

  join_first-Holds : (msg : Message) → Holds r (join_first msg)
  unfolding join_first
  join_first-Holds msg = search (rules, handle_join-Holds)

  request-Holds :
      (query : Text) (msg : Message) (front : Bool) → Holds r (request_and_enqueue query msg front)
  unfolding request_and_enqueue request_server
  request-Holds query msg front = search (rules, join_first-Holds)

  handle_play-Holds : (args : Text) (msg : Message) → Holds r (handle_play args msg)
  unfolding handle_play
  handle_play-Holds args msg = search (rules, request-Holds)

  handle_first_play-Holds : (args : Text) (msg : Message) → Holds r (handle_first_play args msg)
  unfolding handle_first_play
  handle_first_play-Holds args msg = search (rules, request-Holds, send_bot_message-Holds)

  handle_omakase-Holds : (args : Text) (msg : Message) → Holds r (handle_omakase args msg)
  unfolding handle_omakase request_server
  handle_omakase-Holds args msg = search (rules, join_first-Holds)

  handle_delete-Holds :
      (msg : Message) (should_skip : Bool) → Holds r (handle_delete msg should_skip)
  unfolding handle_delete request_server
  handle_delete-Holds msg should_skip = search (rules, send_bot_message-Holds) depth 12

  handle_clean-Holds : (args : Text) (msg : Message) → Holds r (handle_clean args msg)
  unfolding handle_clean
  handle_clean-Holds args msg = search (rules, send_bot_message-Holds)

ruleset command_rules = (
  rules, send_bot_message-Holds, handle_join-Holds, handle_leave-Holds, handle_skip-Holds,
  handle_repeat-Holds, handle_random-Holds, handle_remove-Holds, handle_list-Holds,
  handle_play-Holds, handle_first_play-Holds, handle_omakase-Holds, handle_delete-Holds,
  handle_clean-Holds,
)

module _ {P : (A : Type 0) → M A → Type 0} {r : Rules P} where
  dispatch-Holds : (draws : List ℕ) (c : Command) (msg : Message) → Holds r (dispatch draws c msg)
  unfolding dispatch then_delete delete_message
  dispatch-Holds draws join msg = search command_rules
  dispatch-Holds draws leave msg = search command_rules
  dispatch-Holds draws (play args) msg = search command_rules
  dispatch-Holds draws (first args) msg = search command_rules
  dispatch-Holds draws skip msg = search command_rules
  dispatch-Holds draws (omakase args) msg = search command_rules
  dispatch-Holds draws list msg = search command_rules
  dispatch-Holds draws random msg = search command_rules
  dispatch-Holds draws remove msg = search command_rules
  dispatch-Holds draws (delete should_skip) msg = search command_rules
  dispatch-Holds draws repeat msg = search command_rules
  dispatch-Holds draws (clean args) msg = search command_rules
  dispatch-Holds draws other msg = search command_rules

  pub on_message_create-Holds :
      (draws : List ℕ) (msg : Message) → Holds r (on_message_create draws msg)
  unfolding on_message_create handle_command
  on_message_create-Holds draws msg = search (rules, dispatch-Holds) depth 12
