-- ===== src/Guild.antt =====
-- The data of src/FileLoader.h (`VideoDbInfo`) and src/DiscordBotClient.h (`GuildInfo`, its
-- constructors and its move constructor, `VoiceMemberInfo`, `VoiceObservation`).
-- Times are nanoseconds of `steady_clock`; snowflakes and shard numbers are plain numbers.
pub mod Laws
use dpp_bot.Base.{ℕ, ◌*◌, Bool, true, false, List, [], ℤ, pos}
use dpp_bot.Text.{Text}

pub record VideoDbInfo : Type 0 where
  pub id : Text
  pub title : Text
  pub channel_id : Text
  pub channel_title : Text
  pub thumbnail : Text
  pub file_path : Text
  pub duration : ℤ
  pub error : Text
  pub success : Bool

-- `VideoDbInfo()`.
abbrev pub no_video : VideoDbInfo
no_video = record {
  id = [];
  title = [];
  channel_id = [];
  channel_title = [];
  thumbnail = [];
  file_path = [];
  duration = pos 0;
  error = [];
  success = false;
}

-- `audio_thread` says whether the `std::thread` is joinable.
pub record GuildInfo : Type 0 where
  pub shard_id : ℕ
  pub current_play : VideoDbInfo
  pub video_lists : List VideoDbInfo
  pub voice_channel_id : ℕ
  pub skip_requested : Bool
  pub should_stop : Bool
  pub repeat_current : Bool
  pub audio_thread : Bool
  pub last_reconnect_attempt : ℕ
  pub last_text_channel_id : ℕ
  pub empty_tracking : Bool
  pub empty_since : ℕ
  pub leave_pending : Bool

-- `GuildInfo(shardId, voiceChannelId)`, at the time `now`.
unfoldable pub new_guild_info : ℕ → ℕ → ℕ → GuildInfo
new_guild_info shard_id voice_channel_id now = record {
  shard_id = shard_id;
  current_play = no_video;
  video_lists = [];
  voice_channel_id = voice_channel_id;
  skip_requested = false;
  should_stop = false;
  repeat_current = false;
  audio_thread = false;
  last_reconnect_attempt = now;
  last_text_channel_id = 0;
  empty_tracking = false;
  empty_since = 0;
  leave_pending = false;
}

-- The move constructor, at the time `now`: the fields that its initialiser list leaves out take
-- their default initialisers.
unfoldable pub move_guild_info : GuildInfo → ℕ → GuildInfo
move_guild_info other now = record {
  shard_id = other.shard_id;
  current_play = other.current_play;
  video_lists = other.video_lists;
  voice_channel_id = other.voice_channel_id;
  skip_requested = other.skip_requested;
  should_stop = other.should_stop;
  repeat_current = other.repeat_current;
  audio_thread = other.audio_thread;
  last_reconnect_attempt = now;
  last_text_channel_id = 0;
  empty_tracking = false;
  empty_since = 0;
  leave_pending = false;
}

pub record VoiceMemberInfo : Type 0 where
  pub channel_id : ℕ
  pub is_bot : Bool

pub record VoiceObservation : Type 0 where
  pub known : Bool
  pub bot_present : Bool
  pub humans : ℕ

abbrev pub seconds : ℕ → ℕ
seconds n = n * 1000000000
