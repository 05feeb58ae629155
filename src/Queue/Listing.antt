-- ===== src/Queue/Listing.antt =====
-- The text that `!list` shows.
use Prim.Native.Nat.{min}
use dpp_bot.Base.{
  ℕ, zero, suc, ◌+◌, ◌≤◌, ◌≡◌, refl, false, true, Bool, some, List, [], ◌∷◌, ◌++◌, arith, inl, inr,
  Option-cases, ap, take, drop, int_max, length, is_empty, int_of_size, int_of_size_small,
  length-drop,
}
use dpp_bot.Text.{Text, text, to_string, int_to_string}
use dpp_bot.Dict.{find}
use dpp_bot.Guild.{GuildInfo, VideoDbInfo}
use dpp_bot.Task.{Task, Bot, Dpp, Message, returns, start, guild_infos_mutex, list_mutex}
use dpp_bot.Task.Endings.{Returns}
use dpp_bot.Messages.{send_bot_message}
use dpp_bot.Messages.Laws.{sent, send_bot_message_lem}
use dpp_bot.Queue.{show_count, list_lines, list_message, send_list_message, handle_list}

-- The play list of `!list`, line by line.
abbrev pub numbered : ℕ → List VideoDbInfo → Text
numbered i [] = []
numbered i (video ∷ videos) =
    to_string i ++ (text " : " ++ (video.title ++ (text "\n" ++ numbered (i + 1) videos)))

list_lines-numbered :
    (n i : ℕ) (videos : List VideoDbInfo) → list_lines n i videos ≡ numbered (i + 1) (take n videos)
unfolding list_lines
list_lines-numbered zero i videos = refl
list_lines-numbered (suc n) i [] = refl
list_lines-numbered (suc n) i (v ∷ vs) = rw (list_lines-numbered n (i + 1) vs)

take_all_of_min :
    (n : ℕ) (videos : List VideoDbInfo) → take (min n (length videos)) videos ≡ take n videos
take_all_of_min zero videos = ground arith
take_all_of_min (suc n) [] = ground arith
take_all_of_min (suc n) (v ∷ vs) =
    let e : min (suc n) (suc (length vs)) ≡ suc (min n (length vs)) = omega arith in
    rw e (ap (◌∷◌ v) (take_all_of_min n vs))

lines-numbered :
    (begin : ℕ) (videos : List VideoDbInfo)
    → length videos ≤ int_max
    → list_lines (show_count (int_of_size (length videos)) begin) 0 (drop begin videos)
      ≡ numbered 1 (take 5 (drop begin videos))
unfolding show_count
lines-numbered begin videos h =
    rw (int_of_size_small (length videos) h, list_lines-numbered, ← length-drop begin videos)
      (ap (numbered 1) (take_all_of_min 5 (drop begin videos)))

-- What `!list` should show of a guild: the heading, and the videos that come after it.
abbrev pub heading : Bool → VideoDbInfo → List VideoDbInfo → Text
heading false current videos = current.title
heading true current [] = text "(재생 중인 노래 없음)"
heading true current (video ∷ videos) = video.title

abbrev pub upcoming : Bool → List VideoDbInfo → List VideoDbInfo
upcoming false videos = videos
upcoming true videos = drop 1 videos

abbrev pub listing : GuildInfo → Text
listing info =
    let untitled = is_empty info.current_play.title in
    text "현재\n```\n"
    ++ (heading untitled info.current_play info.video_lists
        ++ (text "\n```다음\n```\n"
            ++ (numbered 1 (take 5 (upcoming untitled info.video_lists))
                ++ (text "Count : " ++ (to_string (length info.video_lists) ++ text "\n```")))))

list_message-listing :
    (info : GuildInfo) → length info.video_lists ≤ int_max → list_message info ≡ listing info
unfolding list_message int_to_string
list_message-listing info h = ground (
  arith,
  int_of_size_small (length info.video_lists) h,
  lines-numbered 0 info.video_lists h,
  lines-numbered 1 info.video_lists h,
)

-- `!list` posts the current video, or the first one while nothing plays, then at most five of those
-- that come after it, numbered from one, and the length of the play list. It changes nothing of the
-- bot. The list is no longer than the largest `int`.
pub handle_list_lem :
    (env : ℕ → Dpp) (b : Bot) (msg : Message) (info : GuildInfo)
    → find msg.guild_id b.guild_infos ≡ some info
    → length info.video_lists ≤ int_max
    → handle_list msg (start env b) ≡ returns tt (sent msg.channel_id (listing info) (start env b))
unfolding handle_list
handle_list_lem env b msg info e h = ground (
  arith,
  list_message-listing info h,
  send_bot_message_lem msg.channel_id (list_message info)
      (record (start env b) { held = list_mutex msg.guild_id ∷ guild_infos_mutex ∷ [] }),
)

-- Whatever the guild, posting the list returns and keeps the bot.
pub send_list_message-bot :
    (channel guild : ℕ) (t : Task)
    → t.held ≡ []
    → Returns (λ _ u. u.bot ≡ t.bot) (send_list_message channel guild t)
unfolding send_list_message send_bot_message
send_list_message-bot channel guild t h = elim (Option-cases (find guild t.bot.guild_infos)) [
  | inl e ↦ ground arith
  | inr (info, e) ↦ let m = list_message info in ground arith
]
