-- ===== src/Sample.antt =====
-- Concrete data for the tests and the witnesses: two guilds, their songs, messages, and what dpp
-- answers, by src/DiscordBotClient.h.
pub mod Values
use dpp_bot.Base.{
  ℕ, ◌+◌, ◌*◌, Bool, true, false, Option, none, some, List, [], ◌∷◌, pos, ◌==◌, if◌then◌else◌,
}
use dpp_bot.Text.{Text, text}
use dpp_bot.Guild.{GuildInfo, VideoDbInfo, no_video, VoiceMemberInfo, VoiceObservation, seconds}
use dpp_bot.Task.{Bot, Dpp, Message, Shard, VoiceConn, VoiceClient, DppGuild, Task}

abbrev pub first_song : VideoDbInfo
first_song = record no_video {
  id = text "a1";
  title = text "One";
  file_path = text "/songs/1.pcm";
  duration = pos 180;
}

abbrev pub second_song : VideoDbInfo
second_song = record no_video {
  id = text "b2";
  title = text "Two";
  file_path = text "/songs/2.pcm";
  duration = pos 200;
}

-- Guild 7, whose thread runs with two songs to play.
abbrev pub playing_info : GuildInfo
playing_info = record {
  shard_id = 0;
  current_play = no_video;
  video_lists = first_song ∷ second_song ∷ [];
  voice_channel_id = 40;
  skip_requested = false;
  should_stop = false;
  repeat_current = false;
  audio_thread = true;
  last_reconnect_attempt = 0;
  last_text_channel_id = 3;
  empty_tracking = false;
  empty_since = 0;
  leave_pending = false;
}

-- Guild 9, which has an entry and no thread.
abbrev pub idle_info : GuildInfo
idle_info = record playing_info { video_lists = []; audio_thread = false }

-- In guild 7 the bot, user 1, is with a person, user 5, in channel 40; user 6 is elsewhere.
abbrev pub occupied : List (ℕ × VoiceMemberInfo)
occupied =
    (1, record { channel_id = 40; is_bot = true })
    ∷ (5, record { channel_id = 40; is_bot = false })
    ∷ (6, record { channel_id = 41; is_bot = false })
    ∷ []

abbrev pub two_guilds : Bot
two_guilds = record {
  guild_infos = (7, playing_info) ∷ (9, idle_info) ∷ [];
  last_bot_messages = (3, 70) ∷ [];
  voice_occupancy = (7, occupied) ∷ [];
  seeded_voice_guilds = (7, tt) ∷ [];
}

abbrev pub command_in : ℕ → Text → Message
command_in guild content = record {
  guild_id = guild;
  channel_id = 3;
  msg_id = 100;
  author_id = 5;
  author_is_bot = false;
  author_name = text "ann";
  content = content;
  shard_id = 0;
}

abbrev pub open_client : VoiceClient
open_client = record { is_connected = true; is_ready = true; terminating = false }

abbrev pub voice : VoiceConn
voice = record { channel_id = 40; voiceclient = some open_client }

-- Discord's guilds 7 and 8 have user 5 in channel 40; the voice client is ready, nothing throws, and
-- the clock gains 20 milliseconds from one question to the next.
abbrev pub discord : ℕ → Dpp
discord n = record {
  me_id = 1;
  now = seconds 100 + n * 20000000;
  get_shard = λ s. some (record { get_voice = λ g. some voice });
  find_guild = λ g. some (record { voice_members = (1, 40) ∷ (5, 40) ∷ [] });
  find_user = λ u. some (u == 1);
  connect_member_voice = λ g u. true;
  disconnect_fails = false;
  send_fails = false;
}

-- An observation of a channel with the bot alone.
abbrev pub alone : VoiceObservation
alone = record { known = true; bot_present = true; humans = 0 }
