-- ===== src/Connection.antt =====
-- Voice connections and the audio threads' life (src/DiscordBotClient.cpp): `EnsureGuildInfo`,
-- `HandleJoinCommand`, `LeaveVoice`, `HandleLeaveCommand`, `StartAudioThread`, `StopAudioThread`, the
-- worker thread of an automatic leave, and the destructor of `GuildInfo` (src/DiscordBotClient.h).
pub mod Ensuring
pub mod Leaving
pub mod JoinSteps
pub mod Joining
mod Tests
use dpp_bot.Base.{
  ℕ, Bool, true, false, not, ◌&&◌, Option, none, some, List, [], ◌∷◌, ◌==◌, if◌then◌else◌,
}
use dpp_bot.Text.{Text, text}
use dpp_bot.Dict.{Map, find, emplace, erase, contains}
use dpp_bot.Guild.{GuildInfo, new_guild_info, move_guild_info}
use dpp_bot.Task.{
  read, M, Task, Bot, Dpp, Message, VoiceConn, VoiceClient, Shard, returns, ◌>>=◌, ◌>>◌, done,
  return, when, catch, throw, with_lock, call, observe, modify, find_info, modify_info, join_thread,
  guild_infos_mutex, connect_member, disconnect_voice, stop_audio, voiceconn_disconnect,
  spawn_player,
}
use dpp_bot.Messages.{send_bot_message}
use dpp_bot.Voice.{reset_voice_tracking}

-- `shard ? shard->get_voice(guildId) : nullptr`, for the current shard object.
abbrev pub voice_of : Option Shard → ℕ → Option VoiceConn
voice_of none guild = none
voice_of (some shard) guild = shard.get_voice guild

-- `vconn->channel_id != 0 ? vconn->channel_id : 0`.
abbrev pub channel_of : VoiceConn → ℕ
channel_of vconn = if not (vconn.channel_id == 0) then vconn.channel_id else 0

abbrev pub put_guild : ℕ → GuildInfo → Bot → Bot
put_guild guild info b = record b { guild_infos = emplace guild info b.guild_infos }

abbrev pub drop_guild : ℕ → Bot → Bot
drop_guild guild b = record b { guild_infos = erase guild b.guild_infos }

-- `guildInfos.emplace(guildId, GuildInfo(shardId, channel))`: a temporary, moved into the map.
unfoldable pub emplace_guild : ℕ → ℕ → ℕ → M (Unit {0})
emplace_guild guild shard channel = do
  made ← observe
  moved ← observe
  modify (put_guild guild (move_guild_info (new_guild_info shard channel made.now) moved.now))

-- `guildInfosMutex` is held.
unfoldable pub ensure_guild_info : ℕ → ℕ → M (Unit {0})
unfolding emplace_guild
ensure_guild_info guild shard = do
  it ← find_info guild
  elim it [
    | some info ↦ done
    | none ↦ do
      d ← observe
      elim (voice_of (d.get_shard shard) guild) [
        | none ↦ emplace_guild guild shard 0
        | some vconn ↦ emplace_guild guild shard (channel_of vconn)
      ]
  ]

-- `~GuildInfo`: a thread that still runs is stopped and joined.
unfoldable pub destroy : ℕ → Option GuildInfo → M (Unit {0})
destroy guild none = done
destroy guild (some info) = when info.audio_thread (join_thread guild)

-- `guildInfos.erase(guildId)`.
unfoldable pub erase_guild : ℕ → M (Unit {0})
unfolding destroy
erase_guild guild = do it ← find_info guild; modify (drop_guild guild); destroy guild it

abbrev pub launch : GuildInfo → GuildInfo
launch info = record info { should_stop = false; audio_thread = true }

unfoldable pub start_audio_thread : ℕ → M (Unit {0})
start_audio_thread guild = with_lock guild_infos_mutex do
  it ← find_info guild
  elim it [
    | none ↦ done
    | some info ↦
        if info.audio_thread then done else do modify_info guild launch; call (spawn_player guild)
  ]

abbrev pub halt : GuildInfo → GuildInfo
halt info = record info { should_stop = true; audio_thread = false }

-- The handle moves out of the entry under the lock, and the join is outside of it.
unfoldable pub stop_audio_thread : ℕ → M (Unit {0})
stop_audio_thread guild = do
  joinable ← with_lock guild_infos_mutex do
    it ← find_info guild
    elim it [
      | none ↦ return false
      | some info ↦ do modify_info guild halt; return info.audio_thread
    ]
  when joinable (join_thread guild)

unfoldable pub disconnect : ℕ → ℕ → M (Unit {0})
disconnect guild shard = do
  d ← observe
  elim (d.get_shard shard) [
    | none ↦ done
    | some s ↦ do call (disconnect_voice guild); when d.disconnect_fails (throw [])
  ]

abbrev pub ready : Option VoiceConn → Bool
ready none = false
ready (some vconn) = elim vconn.voiceclient [ none ↦ false | some v ↦ v.is_ready ]

-- The part of `HandleJoinCommand` for a guild that has an entry.
unfoldable pub drop_connection : Message → M (Unit {0})
unfolding erase_guild stop_audio_thread
drop_connection msg = do
  stop_audio_thread msg.guild_id
  d ← observe
  when (ready (voice_of (d.get_shard msg.shard_id) msg.guild_id))
      do call (stop_audio msg.guild_id); call (voiceconn_disconnect msg.guild_id)
  with_lock guild_infos_mutex (erase_guild msg.guild_id)

abbrev pub set_text_channel : ℕ → GuildInfo → GuildInfo
set_text_channel channel info = record info { last_text_channel_id = channel }

unfoldable pub create_guild : Message → ℕ → M (Unit {0})
unfolding emplace_guild erase_guild
create_guild msg channel = with_lock guild_infos_mutex do
  erase_guild msg.guild_id
  emplace_guild msg.guild_id msg.shard_id channel
  modify_info msg.guild_id (set_text_channel msg.channel_id)

unfoldable pub connected : Message → M (Unit {0})
unfolding create_guild start_audio_thread
connected msg = do
  d ← observe
  elim (voice_of (d.get_shard msg.shard_id) msg.guild_id) [
    | none ↦ done
    | some vconn ↦ do create_guild msg (channel_of vconn); start_audio_thread msg.guild_id
  ]
  send_bot_message msg.channel_id (text "ㅎㅇ")

-- The rest of `HandleJoinCommand`, from `ResetVoiceTracking` on.
unfoldable pub establish : Message → M (Unit {0})
unfolding disconnect connected reset_voice_tracking
establish msg = do
  reset_voice_tracking msg.guild_id
  disconnect msg.guild_id msg.shard_id
  d ← observe
  call (connect_member msg.guild_id msg.author_id)
  if d.connect_member_voice msg.guild_id msg.author_id
      then connected msg
      else send_bot_message msg.channel_id (text "음성 채널 연결 실패")

unfoldable pub join_member : Message → M (Unit {0})
unfolding drop_connection establish
join_member msg = do
  existing ← with_lock guild_infos_mutex (read (λ b. contains msg.guild_id b.guild_infos))
  when existing (drop_connection msg)
  establish msg

unfoldable pub handle_join : Message → M (Unit {0})
unfolding join_member
handle_join msg = do
  d ← observe
  elim (d.find_guild msg.guild_id) [
    | none ↦ send_bot_message msg.channel_id (text "ERROR")
    | some g ↦
        if contains msg.author_id g.voice_members
        then join_member msg
        else send_bot_message msg.channel_id (text "음성채널 입장후 사용가능")
  ]

abbrev pub ask_stop : GuildInfo → GuildInfo
ask_stop info = record info { should_stop = true }

-- `it->second.shouldStop = true` does nothing for a guild with no entry.
unfoldable pub leave_voice : ℕ → ℕ → M (Unit {0})
unfolding disconnect erase_guild stop_audio_thread reset_voice_tracking
leave_voice guild shard = do
  with_lock guild_infos_mutex
      do it ← find_info guild; elim it [ none ↦ done | some info ↦ modify_info guild ask_stop ]
  catch (stop_audio_thread guild) (λ e. done)
  catch (disconnect guild shard) (λ e. done)
  with_lock guild_infos_mutex (erase_guild guild)
  reset_voice_tracking guild

unfoldable pub handle_leave : Message → M (Unit {0})
unfolding leave_voice
handle_leave msg = leave_voice msg.guild_id msg.shard_id

-- The thread that `CheckVoiceChannels` starts.
unfoldable pub leave_worker : ℕ → ℕ → ℕ → M (Unit {0})
unfolding leave_voice
leave_worker guild shard channel = do
  leave_voice guild shard
  when (not (channel == 0)) (send_bot_message channel (text "음성 채널에 아무도 없어서 나갈게요."))
