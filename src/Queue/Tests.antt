-- ===== src/Queue/Tests.antt =====
-- The commands on the play list of a guild with two songs.
use dpp_bot.Base.{pos, ap, length, int_max, ◌≤◌, ◌≡◌, refl, some, arith}
use dpp_bot.Text.{text}
use dpp_bot.Dict.{find}
use dpp_bot.Guild.{GuildInfo}
use dpp_bot.Task.{start, returns, fault, Bot, bot_of, on_info}
use dpp_bot.Messages.Laws.{sent}
use dpp_bot.Queue.{remove_beside, handle_remove, handle_list, on_videos}
use dpp_bot.Queue.Laws.{handle_remove_lem, removal, wanted}
use dpp_bot.Queue.Overlap.{remove_beside_leave-faults}
use dpp_bot.Connection.{leave_voice, drop_guild}
use dpp_bot.Connection.Leaving.{leave_voice_lem}
use dpp_bot.Voice.{forget}
use dpp_bot.Queue.Listing.{handle_list_lem, listing}
use dpp_bot.Sample.{discord, two_guilds, playing_info, command_in}

found : find 7 two_guilds.guild_infos ≡ some playing_info
unfolding find
found = refl

short_list :
    (info : GuildInfo)
    → find 7 two_guilds.guild_infos ≡ some info
    → length info.video_lists ≤ int_max
unfolding find
short_list info h = ground arith

handle_remove_lem_example :
    bot_of (handle_remove (command_in 7 (text "!remove 2")) (start discord two_guilds))
    ≡ some (on_info 7 (on_videos (removal (wanted (command_in 7 (text "!remove 2"))))) two_guilds)
handle_remove_lem_example =
    handle_remove_lem discord two_guilds (command_in 7 (text "!remove 2")) short_list

handle_list_lem_example :
    handle_list (command_in 7 (text "!list")) (start discord two_guilds)
    ≡ returns tt (sent 3 (listing playing_info) (start discord two_guilds))
handle_list_lem_example =
    handle_list_lem discord two_guilds (command_in 7 (text "!list")) playing_info found
      (omega arith)

abbrev left_behind : Bot
left_behind = forget 7 (drop_guild 7 two_guilds)

leave_returns : bot_of (leave_voice 7 1 (start discord two_guilds)) ≡ some left_behind
leave_returns = ap bot_of (leave_voice_lem discord two_guilds 7 1)

remove_beside_leave-faults_example :
    remove_beside
      (λ _. left_behind)
      (command_in 7 (text "!remove 2"))
      (pos 2)
      (start discord two_guilds)
    ≡ fault
remove_beside_leave-faults_example =
    remove_beside_leave-faults discord discord two_guilds left_behind
      (command_in 7 (text "!remove 2")) 1 (pos 2) playing_info found leave_returns
