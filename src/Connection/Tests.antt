-- ===== src/Connection/Tests.antt =====
-- Joining and leaving in a guild with songs in its list and a thread that runs.
use dpp_bot.Base.{◌≡◌, arith, ◌++◌}
use dpp_bot.Text.{text}
use dpp_bot.Dict.{find}
use dpp_bot.Task.{start, returns}
use dpp_bot.Task.Endings.{Ends}
use dpp_bot.Voice.{forget}
use dpp_bot.Connection.{handle_join, leave_voice, drop_guild}
use dpp_bot.Connection.Joining.{Settled, handle_join_lem}
use dpp_bot.Connection.Leaving.{leave_voice_lem, disconnect_calls, join_calls, has_thread}
use dpp_bot.Sample.{discord, two_guilds, command_in}

handle_join_lem_example :
    Ends
      (Settled (command_in 7 (text "!join")) 9 two_guilds)
      (handle_join (command_in 7 (text "!join")) (start discord two_guilds))
handle_join_lem_example =
    handle_join_lem discord two_guilds (command_in 7 (text "!join")) 9 (omega arith)

leave_voice_lem_example :
    leave_voice 7 0 (start discord two_guilds)
    ≡ returns tt (record (start discord (forget 7 (drop_guild 7 two_guilds))) {
      log =
          disconnect_calls 7 ((discord 0).get_shard 0)
          ++ join_calls 7 (has_thread (find 7 two_guilds.guild_infos));
      tick = 1;
    })
leave_voice_lem_example = leave_voice_lem discord two_guilds 7 0
