-- ===== src/Queue.antt =====
-- The commands on a guild's play list (src/DiscordBotClient.cpp): `HandleSkipCommand`,
-- `HandleRepeatCommand`, `HandleRandomCommand`, `HandleRemoveCommand` and `SendListMessage`.
pub mod Laws
pub mod Listing
pub mod Overlap
mod Tests
use dpp_bot.Base.{
  ℕ, zero, suc, ◌+◌, ◌-◌, Bool, true, false, not, Option, none, some, List, [], ◌∷◌, ◌++◌, ◌==◌,
  ltb, if◌then◌else◌, ℤ, pos, negsuc, is_positive, pos_part, leb_ℤ, int_of_size, length, drop,
  get_elem?, erase_at, insert_at, is_empty,
}
use Prim.Native.Nat.{min}
use dpp_bot.Text.{Text, text, space, find_char, stoi, to_string, int_to_string}
use dpp_bot.Guild.{GuildInfo, VideoDbInfo}
use dpp_bot.Task.{
  M, Task, Bot, Message, returns, throws, deadlock, fault, ◌>>=◌, ◌>>◌, done, with_lock, find_info,
  modify, modify_info, return, when, deref, guild_infos_mutex, list_mutex,
}
use dpp_bot.Messages.{send_bot_message}

-- The videos that the play list has after a change of it.
abbrev pub on_videos : (List VideoDbInfo → List VideoDbInfo) → GuildInfo → GuildInfo
on_videos f info = record info { video_lists = f info.video_lists }

abbrev pub request_skip : GuildInfo → GuildInfo
request_skip info = record info { skip_requested = true }

unfoldable pub handle_skip : Message → M (Unit {0})
handle_skip msg = with_lock guild_infos_mutex do
  it ← find_info msg.guild_id
  elim it [ none ↦ done | some info ↦ modify_info msg.guild_id request_skip ]
  send_bot_message msg.channel_id (text "넘김")

abbrev set_repeat : Bool → GuildInfo → GuildInfo
set_repeat b info = record info { repeat_current = b }

unfoldable pub handle_repeat : Message → M (Unit {0})
handle_repeat msg = with_lock guild_infos_mutex do
  it ← find_info msg.guild_id
  elim it [
    | none ↦ send_bot_message msg.channel_id (text "채널 스레드가 존재하지 않음.")
    | some info ↦ do
      modify_info msg.guild_id (set_repeat (not info.repeat_current))
      send_bot_message msg.channel_id
          (if not info.repeat_current then text "반복 재생 켜짐" else text "반복 재생 꺼짐")
  ]

-- `std::shuffle`: each video goes to the place that the generator's next draw says.
unfoldable pub shuffle {ℓ} : {A : Type ℓ} → List ℕ → List A → List A
shuffle ds [] = []
shuffle [] (x ∷ xs) = x ∷ xs
shuffle (d ∷ ds) (x ∷ xs) = insert_at d x (shuffle ds xs)

-- `draws` stand for the random numbers of `std::mt19937`.
unfoldable pub handle_random : List ℕ → Message → M (Unit {0})
unfolding shuffle
handle_random draws msg = with_lock guild_infos_mutex do
  it ← find_info msg.guild_id
  elim it [
    | none ↦ send_bot_message msg.channel_id (text "재생 목록이 없음")
    | some info ↦ with_lock (list_mutex msg.guild_id) (
        if is_empty info.video_lists then send_bot_message msg.channel_id (text "섞을 노래가 없음") else do
          modify_info msg.guild_id (on_videos (shuffle draws))
          send_bot_message msg.channel_id (text "랜덤 재생"))
  ]

abbrev title_at : ℕ → List VideoDbInfo → Text
title_at i videos = elim (get_elem? videos i) [ none ↦ [] | some video ↦ video.title ]

-- Whether the guild has an entry; if not, the user is told so.
unfoldable pub require_guild : Message → M Bool
require_guild msg = with_lock guild_infos_mutex do
  it ← find_info msg.guild_id
  elim it [
    | none ↦ do send_bot_message msg.channel_id (text "채널 스레드가 존재하지 않음."); return false
    | some info ↦ return true
  ]

-- The part of `HandleRemoveCommand` under `listMutex`.
unfoldable pub erase_video : Message → ℤ → M (Unit {0})
erase_video msg index = with_lock (list_mutex msg.guild_id) do
  info ← deref msg.guild_id
  if leb_ℤ index (int_of_size (length info.video_lists))
      then (do
        modify_info msg.guild_id (on_videos (erase_at (pos_part index - 1)))
        send_bot_message msg.channel_id (
            text "[ "
            ++ (title_at (pos_part index - 1) info.video_lists ++ text " ] 가 목록에서 제거되었습니다.")))
      else send_bot_message msg.channel_id (text "유효하지 않은 인덱스")

unfoldable pub remove_video : Message → ℤ → M (Unit {0})
unfolding require_guild erase_video
remove_video msg index = do found ← require_guild msg; when found (erase_video msg index)

-- The same with other threads, which run after `guildInfosMutex` is released and before `listMutex`
-- is taken; `others` is what they make of the bot.
unfoldable pub remove_beside : (Bot → Bot) → Message → ℤ → M (Unit {0})
unfolding require_guild erase_video
remove_beside others msg index = do
  found ← require_guild msg
  modify others
  when found (erase_video msg index)

unfoldable pub remove_parsed : Message → Option ℤ → M (Unit {0})
remove_parsed msg none = send_bot_message msg.channel_id (text "유효하지 않은 인덱스입니다.")
remove_parsed msg (some index) =
    if is_positive index
    then remove_video msg index
    else send_bot_message msg.channel_id (text "인덱스는 1 이상이어야 합니다.")

-- The router calls it on a content that begins with "!", so that `substr(1)` is in range.
unfoldable pub handle_remove : Message → M (Unit {0})
unfolding remove_parsed
handle_remove msg =
    let command = drop 1 msg.content in
    elim (find_char space command) [
      | none ↦ send_bot_message msg.channel_id (text "인덱스를 입력해주세요. 예: !remove 1")
      | some i ↦ remove_parsed msg (stoi (drop (suc i) command))
    ]

-- How many lines the loop `for (i = 0; i < min(5, listSize - startIndex); i++)` writes.
unfoldable pub show_count : ℤ → ℕ → ℕ
show_count (pos size) start = min 5 (size - start)
show_count (negsuc n) start = 0

-- The lines of that loop from its round `i` on.
unfoldable pub list_lines : ℕ → ℕ → List VideoDbInfo → Text
list_lines zero i videos = []
list_lines (suc n) i [] = []
list_lines (suc n) i (video ∷ videos) =
    to_string (i + 1) ++ (text " : " ++ (video.title ++ (text "\n" ++ list_lines n (i + 1) videos)))

-- The title on top, and where the list begins that stands below it.
unfoldable pub current_title : GuildInfo → Text × ℕ
current_title info =
    if not (is_empty info.current_play.title)
    then (info.current_play.title, 0)
    else elim info.video_lists [
      | [] ↦ (text "(재생 중인 노래 없음)", 0)
      | video ∷ videos ↦ (video.title, 1)
    ]

unfoldable pub list_message : GuildInfo → Text
unfolding show_count list_lines current_title
list_message info =
    let (title, start) = current_title info in
    let size = int_of_size (length info.video_lists) in
    text "현재\n```\n"
    ++ (title
        ++ (text "\n```다음\n```\n"
            ++ (list_lines (show_count size start) 0 (drop start info.video_lists)
                ++ (text "Count : " ++ (int_to_string size ++ text "\n```")))))

unfoldable pub send_list_message : ℕ → ℕ → M (Unit {0})
unfolding list_message
send_list_message channel guild = with_lock guild_infos_mutex do
  it ← find_info guild
  elim it [
    | none ↦ send_bot_message channel (text "재생 목록이 없습니다.")
    | some info ↦ with_lock (list_mutex guild) (send_bot_message channel (list_message info))
  ]

unfoldable pub handle_list : Message → M (Unit {0})
unfolding send_list_message
handle_list msg = send_list_message msg.channel_id msg.guild_id
