-- ===== src/Guild/Laws.antt =====
-- What the move constructor of `GuildInfo` keeps and what it resets.
use dpp_bot.Base.{ℕ, ◌≡◌, refl, false}
use dpp_bot.Guild.{GuildInfo, new_guild_info, move_guild_info}

-- What `guildInfos.emplace(id, GuildInfo(shard, channel))` stores is the object that was
-- constructed, but for the time of the last reconnect attempt, which is the time of the move.
pub move-new :
    (shard channel t now : ℕ)
    → move_guild_info (new_guild_info shard channel t) now ≡ new_guild_info shard channel now
unfolding move_guild_info new_guild_info
move-new shard channel t now = refl

-- A move of a guild in use keeps the play list, the current video and the thread, and forgets the
-- text channel for notices and all that tracks an empty voice channel.
pub move_forgets :
    (g : GuildInfo) (now : ℕ)
    → let h = move_guild_info g now in
      (h.video_lists ≡ g.video_lists)
      × (h.current_play ≡ g.current_play)
      × (h.audio_thread ≡ g.audio_thread)
      × (h.last_text_channel_id ≡ 0)
      × (h.empty_tracking ≡ false)
      × (h.leave_pending ≡ false)
unfolding move_guild_info
move_forgets g now = (refl, refl, refl, refl, refl, refl)
