-- ===== src/Requests.antt =====
-- The commands that ask the local server (src/DiscordBotClient.cpp): `HandlePlayCommand`,
-- `HandleFirstPlayCommand`, `RequestAndEnqueue`, `HandleOmakaseCommand`, `HandleDeleteCommand`, each
-- with the callback that the response runs.
pub mod Omakase
pub mod Enqueue
pub mod Responses
pub mod Reading
pub mod Answering
pub mod Deactivating
pub mod Partial
pub mod Ending
mod Tests
use dpp_bot.Base.{
  ℕ, Bool, true, false, not, ◌&&◌, Option, none, some, List, [], ◌∷◌, ◌++◌, ◌==◌, if◌then◌else◌,
  ◌⊎◌, inl, inr, ℤ, pos, is_positive, is_empty, length, int_of_size,
}
use dpp_bot.Text.{Text, text, stoi, int_to_string, to_string}
use dpp_bot.Dict.{find, contains}
use dpp_bot.Guild.{VideoDbInfo, GuildInfo}
use dpp_bot.Task.{
  read, M, Message, Continuation, enqueue_response, omakase_response, deactivate_response, returns,
  ◌>>=◌, ◌>>◌, done, return, when, with_lock, call, find_info, modify_info, guild_infos_mutex,
  list_mutex, add_reaction, delete_own_reaction, reply,
}
use dpp_bot.Messages.{send_bot_message, delete_message}
use dpp_bot.Queue.{on_videos, handle_skip, send_list_message}
use dpp_bot.Connection.{handle_join, ensure_guild_info, start_audio_thread}
use dpp_bot.Json.{JsonLib, lift}
use dpp_bot.FileLoader.{url_encode, request_server, parse_video_db_info}

abbrev pub working : Text
working = text "🔃"

abbrev pub failed : Text
failed = text "❌"

abbrev pub succeeded : Text
succeeded = text "✅"

-- `message_delete_own_reaction(msg, "🔃", …)`, whose callback adds the next reaction.
abbrev pub swap_reaction : Message → Text → M (Unit {0})
swap_reaction msg next = call (delete_own_reaction msg.msg_id next)

unfoldable pub on_reaction_deleted : Message → Text → (is_error : Bool) → M (Unit {0})
on_reaction_deleted msg next is_error = when (not is_error) (call (add_reaction msg.msg_id next))

-- `!join` first, in a guild that has no entry.
unfoldable pub join_first : Message → M (Unit {0})
join_first msg = do
  known ← with_lock guild_infos_mutex (read (λ b. contains msg.guild_id b.guild_infos))
  when (not known) (handle_join msg)

unfoldable pub request_and_enqueue : Text → Message → Bool → M (Unit {0})
unfolding join_first
request_and_enqueue query msg insert_front = do
  join_first msg
  call (add_reaction msg.msg_id working)
  request_server (text "/process?q=" ++ url_encode query) (enqueue_response msg insert_front)

unfoldable pub handle_play : Text → Message → M (Unit {0})
unfolding request_and_enqueue
handle_play args msg =
    if is_empty args then call (reply msg.msg_id (text "?")) else request_and_enqueue args msg false

unfoldable pub handle_first_play : Text → Message → M (Unit {0})
unfolding request_and_enqueue
handle_first_play args msg =
    if is_empty args
    then send_bot_message msg.channel_id (text "검색어를 입력해주세요.")
    else request_and_enqueue args msg true

-- The count of `!omakase`: thirty, unless the argument is a positive number.
unfoldable pub omakase_count : Text → ℤ
omakase_count args =
    if is_empty args
    then pos 30
    else elim (stoi args) [ none ↦ pos 30 | some n ↦ if is_positive n then n else pos 30 ]

unfoldable pub handle_omakase : Text → Message → M (Unit {0})
unfolding join_first omakase_count
handle_omakase args msg = do
  join_first msg
  call (add_reaction msg.msg_id working)
  request_server (text "/getrandom?count=" ++ int_to_string (omakase_count args))
      (omakase_response msg)

-- `currentPlay.id` of the guild, or `none` once the user was told that it has no entry.
current_video_id : Message → M (Option Text)
current_video_id msg = with_lock guild_infos_mutex do
  it ← find_info msg.guild_id
  elim it [
    | none ↦ do send_bot_message msg.channel_id (text "채널 스레드가 존재하지 않음."); return none
    | some info ↦ return (some info.current_play.id)
  ]

unfoldable pub handle_delete : Message → Bool → M (Unit {0})
unfolding current_video_id
handle_delete msg should_skip = do
  current ← current_video_id msg
  elim current [
    | none ↦ done
    | some id ↦
        if is_empty id
        then send_bot_message msg.channel_id (text "현재 재생 중인 노래가 없습니다.")
        else request_server (text "/deactivate?id=" ++ url_encode id)
            (deactivate_response msg should_skip)
  ]
