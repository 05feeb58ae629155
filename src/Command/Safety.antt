-- ===== src/Command/Safety.antt =====
-- Every message is handled to an end, whatever it holds and whatever state the bot is in.
use dpp_bot.Base.{
  ℕ, suc, ◌≡◌, refl, Bool, true, false, Option, none, some, List, [], arith, inl, inr, Option-cases,
  Bool-cases, ℤ, drop, is_empty,
}
use dpp_bot.Text.{Text, text, space, find_char, stoi}
use dpp_bot.Dict.{find, contains}
use dpp_bot.Task.{
  M, Task, Bot, Dpp, Message, Outcome, returns, throws, deadlock, fault, start, ◌>>◌, on_info,
}
use dpp_bot.Task.Endings.{Ends, Ends-map}
use dpp_bot.Messages.{send_bot_message, delete_message}
use dpp_bot.Queue.{
  handle_skip, handle_repeat, handle_random, handle_remove, handle_list, remove_parsed,
  remove_video, send_list_message,
}
use dpp_bot.Connection.{handle_join, handle_leave, set_text_channel}
use dpp_bot.Connection.Joining.{handle_join_lem}
use dpp_bot.Connection.Leaving.{leave_voice_lem}
use dpp_bot.Requests.{
  join_first, request_and_enqueue, handle_play, handle_first_play, handle_omakase, handle_delete,
}
use dpp_bot.FileLoader.{request_server}
use dpp_bot.Clean.{handle_clean}
use dpp_bot.Command.{
  Command, join, leave, skip, list, random, remove, repeat, other, play, first, omakase, clean,
  delete, route, then_delete, dispatch, handle_command, on_message_create,
}

-- An end by a return or an exception, with no lock held.
abbrev pub IsOver : {A : Type 0} → Outcome A → Type 0
IsOver = Ends (λ t. Unit {0})

IsOver-then :
    {B : Type 0} (m : M (Unit {0})) (k : M B) (t : Task)
    → IsOver (m t)
    → ((u : Task) → u.held ≡ [] → IsOver (k u))
    → IsOver ((m >> k) t)
IsOver-then {B} m k t h next = go (m t) h
  where
    go :
        (o : Outcome (Unit {0}))
        → IsOver o
        → IsOver (elim o [
          | returns a u ↦ k u
          | throws e u ↦ throws e u
          | deadlock x ↦ deadlock x
          | fault ↦ fault
        ])
    go (returns a u) p = next u p.0
    go (throws e u) p = p
    go (deadlock x) p = p
    go fault p = p

module _ (env : ℕ → Dpp) (b : Bot) (msg : Message) where
  join-IsOver : IsOver (handle_join msg (start env b))
  join-IsOver =
      Ends-map _ (λ t. Unit {0}) (λ t p. tt) (handle_join msg (start env b))
        (handle_join_lem env b msg (suc msg.guild_id) (omega arith))

  leave-IsOver : IsOver (handle_leave msg (start env b))
  unfolding handle_leave
  leave-IsOver = rw (leave_voice_lem env b msg.guild_id msg.shard_id) (refl, tt)

  skip-IsOver : IsOver (handle_skip msg (start env b))
  unfolding handle_skip send_bot_message
  skip-IsOver = elim (Option-cases (find msg.guild_id b.guild_infos)) [
    | inl e ↦ ground arith
    | inr (info, e) ↦ ground arith
  ]

  repeat-IsOver : IsOver (handle_repeat msg (start env b))
  unfolding handle_repeat send_bot_message
  repeat-IsOver = elim (Option-cases (find msg.guild_id b.guild_infos)) [
    | inl e ↦ ground arith
    | inr (info, e) ↦ ground arith
  ]

  random-IsOver : (draws : List ℕ) → IsOver (handle_random draws msg (start env b))
  unfolding handle_random send_bot_message
  random-IsOver draws = elim (Option-cases (find msg.guild_id b.guild_infos)) [
    | inl e ↦ ground arith
    | inr (info, e) ↦ ground arith
  ]

  list-IsOver : IsOver (handle_list msg (start env b))
  unfolding handle_list send_list_message send_bot_message
  list-IsOver = elim (Option-cases (find msg.guild_id b.guild_infos)) [
    | inl e ↦ ground arith
    | inr (info, e) ↦ ground arith
  ]

  remove_video-IsOver : (index : ℤ) → IsOver (remove_video msg index (start env b))
  unfolding remove_video send_bot_message
  remove_video-IsOver index = elim (Option-cases (find msg.guild_id b.guild_infos)) [
    | inl e ↦ ground arith
    | inr (info, e) ↦ ground arith
  ]

  remove_parsed-IsOver : (parsed : Option ℤ) → IsOver (remove_parsed msg parsed (start env b))
  unfolding remove_parsed send_bot_message
  remove_parsed-IsOver none = ground arith
  remove_parsed-IsOver (some index) = ground (arith, remove_video-IsOver index)

  remove-IsOver : IsOver (handle_remove msg (start env b))
  unfolding handle_remove send_bot_message
  remove-IsOver = elim (Option-cases (find_char space (drop 1 msg.content))) [
    | inl e ↦ ground arith
    | inr (i, e) ↦ ground (arith, remove_parsed-IsOver (stoi (drop (suc i) (drop 1 msg.content))))
  ]

  join_first-IsOver : IsOver (join_first msg (start env b))
  unfolding join_first contains
  join_first-IsOver = ground (arith, join-IsOver)

  request-IsOver :
      (query : Text) (front : Bool) → IsOver (request_and_enqueue query msg front (start env b))
  unfolding request_and_enqueue request_server
  request-IsOver query front =
      IsOver-then (join_first msg) _ (start env b) join_first-IsOver λ u hu. (hu, tt)

  delete-IsOver : (should_skip : Bool) → IsOver (handle_delete msg should_skip (start env b))
  unfolding handle_delete send_bot_message request_server
  delete-IsOver should_skip = elim (Option-cases (find msg.guild_id b.guild_infos)) [
    | inl e ↦ ground arith
    | inr (info, e) ↦ elim (Bool-cases (is_empty info.current_play.id)) [
      | inl p ↦ ground arith
      | inr p ↦ ground arith
    ]
  ]

  omakase-IsOver : (args : Text) → IsOver (handle_omakase args msg (start env b))
  unfolding handle_omakase request_server
  omakase-IsOver args =
      IsOver-then (join_first msg) _ (start env b) join_first-IsOver λ u hu. (hu, tt)

  clean-IsOver : (args : Text) → IsOver (handle_clean args msg (start env b))
  unfolding handle_clean send_bot_message
  clean-IsOver args = ground arith

  play-IsOver : (args : Text) → IsOver (handle_play args msg (start env b))
  unfolding handle_play
  play-IsOver args = ground (arith, request-IsOver args false)

  first-IsOver : (args : Text) → IsOver (handle_first_play args msg (start env b))
  unfolding handle_first_play send_bot_message
  first-IsOver args = ground (arith, request-IsOver args true)

  deleting-IsOver :
      (h : M (Unit {0})) → IsOver (h (start env b)) → IsOver (then_delete msg h (start env b))
  unfolding then_delete delete_message
  deleting-IsOver h p = IsOver-then h _ (start env b) p λ u hu. (hu, tt)

  said_and_deleted :
      (t : Task)
      → t.held ≡ []
      → IsOver (then_delete msg (send_bot_message msg.channel_id (text "잘자용")) t)
  unfolding then_delete delete_message send_bot_message
  said_and_deleted t h = ground arith

  dispatch-IsOver : (draws : List ℕ) (c : Command) → IsOver (dispatch draws c msg (start env b))
  unfolding dispatch
  dispatch-IsOver draws join = deleting-IsOver (handle_join msg) join-IsOver
  dispatch-IsOver draws leave =
      IsOver-then (handle_leave msg) _ (start env b) leave-IsOver said_and_deleted
  dispatch-IsOver draws (play args) = play-IsOver args
  dispatch-IsOver draws (first args) = first-IsOver args
  dispatch-IsOver draws skip = deleting-IsOver (handle_skip msg) skip-IsOver
  dispatch-IsOver draws (omakase args) =
      deleting-IsOver (handle_omakase args msg) (omakase-IsOver args)
  dispatch-IsOver draws list = deleting-IsOver (handle_list msg) list-IsOver
  dispatch-IsOver draws random = deleting-IsOver (handle_random draws msg) (random-IsOver draws)
  dispatch-IsOver draws remove = deleting-IsOver (handle_remove msg) remove-IsOver
  dispatch-IsOver draws (delete should_skip) =
      deleting-IsOver (handle_delete msg should_skip) (delete-IsOver should_skip)
  dispatch-IsOver draws repeat = deleting-IsOver (handle_repeat msg) repeat-IsOver
  dispatch-IsOver draws (clean args) = clean-IsOver args
  dispatch-IsOver draws other = (refl, tt)

-- Whatever the message, the bot's state and dpp's answers, the handler of a message comes to an end,
-- by a return or an exception of dpp: it never takes a mutex that its thread holds, never joins an
-- audio thread under the mutex that this thread needs, never uses an entry of `guildInfos` that is
-- gone, and holds no lock at the end.
pub on_message_create-IsOver :
    (draws : List ℕ) (env : ℕ → Dpp) (b : Bot) (msg : Message)
    → IsOver (on_message_create draws msg (start env b))
unfolding on_message_create handle_command
on_message_create-IsOver draws env b msg =
    let noted = on_info msg.guild_id (set_text_channel msg.channel_id) b in
    ground (arith, dispatch-IsOver env noted msg draws (route (drop 1 msg.content)))
