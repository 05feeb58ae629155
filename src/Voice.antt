-- ===== src/Voice.antt =====
-- The count of the people in the bot's voice channel and the decision to leave an empty one
-- (src/DiscordBotClient.cpp): `OnVoiceStateUpdate`, `EnsureVoiceSeeded`, `ObserveVoice`,
-- `ResetVoiceTracking` and `CheckVoiceChannels`.
pub mod Occupancy
pub mod Observing
pub mod Grace
pub mod Deadline
pub mod Checking
pub mod Refining
pub mod Untouched
pub mod Passing
pub mod Watching
pub mod Departing
pub mod Company
pub mod Seeding
mod Tests
use dpp_bot.Base.{
  ℕ, ◌+◌, ◌-◌, Bool, true, false, not, ◌||◌, Option, none, some, List, [], ◌∷◌, ◌==◌, ltb, leb,
  if◌then◌else◌,
}
use dpp_bot.Dict.{Map, find, assign, emplace, erase, update, contains}
use dpp_bot.Guild.{GuildInfo, VoiceMemberInfo, VoiceObservation, seconds}
use dpp_bot.Task.{
  read, M, Bot, DppGuild, returns, ◌>>=◌, ◌>>◌, done, return, when, with_lock, call, observe,
  modify, find_info, modify_info, guild_infos_mutex, voice_mutex, spawn_leave,
}

-- `dpp::voicestate` of a `voice_state_update_t`.
pub record VoiceState : Type 0 where
  pub guild_id : ℕ
  pub user_id : ℕ
  pub channel_id : ℕ

-- `(u != nullptr) && u->is_bot()`.
abbrev pub cached_bot : Option Bool → Bool
cached_bot none = false
cached_bot (some is_bot) = is_bot

abbrev pub members_of : ℕ → Map (Map VoiceMemberInfo) → Map VoiceMemberInfo
members_of guild occupancy = elim (find guild occupancy) [ none ↦ [] | some members ↦ members ]

-- `voiceOccupancy[guild][user] = info`.
abbrev pub enter : ℕ → ℕ → VoiceMemberInfo → Bot → Bot
enter guild user info b = record b {
  voice_occupancy =
      assign guild (assign user info (members_of guild b.voice_occupancy)) b.voice_occupancy;
}

abbrev pub exit : ℕ → ℕ → Bot → Bot
exit guild user b = record b { voice_occupancy = update guild (erase user) b.voice_occupancy }

unfoldable pub user_is_bot : ℕ → M Bool
user_is_bot user = do d ← observe; return (cached_bot (d.find_user user))

unfoldable pub on_voice_state_update : VoiceState → M (Unit {0})
unfolding user_is_bot
on_voice_state_update st =
    if st.guild_id == 0 || st.user_id == 0
    then done
    else if st.channel_id == 0
    then with_lock voice_mutex (modify (exit st.guild_id st.user_id))
    else do
      is_bot ← user_is_bot st.user_id
      with_lock voice_mutex (
          modify
            (enter st.guild_id st.user_id (record { channel_id = st.channel_id; is_bot = is_bot })))

-- The loop over the snapshot of `voice_members`: users in no channel are left out.
unfoldable pub snapshot_entries : Map ℕ → M (Map VoiceMemberInfo)
unfolding user_is_bot
snapshot_entries [] = return []
snapshot_entries ((user, channel) ∷ members) =
    let others = snapshot_entries members in
    if channel == 0 then others else do
      is_bot ← user_is_bot user
      entries ← others
      return ((user, record { channel_id = channel; is_bot = is_bot }) ∷ entries)

-- `members.emplace(e.first, e.second)` for each entry.
unfoldable pub emplace_all : Map VoiceMemberInfo → Map VoiceMemberInfo → Map VoiceMemberInfo
emplace_all [] members = members
emplace_all ((user, info) ∷ entries) members = emplace_all entries (emplace user info members)

abbrev pub seed : ℕ → Map VoiceMemberInfo → Bot → Bot
seed guild entries b = record b {
  voice_occupancy =
      assign guild (emplace_all entries (members_of guild b.voice_occupancy)) b.voice_occupancy;
  seeded_voice_guilds = assign guild tt b.seeded_voice_guilds;
}

unfoldable pub seed_from : ℕ → DppGuild → M (Unit {0})
unfolding snapshot_entries
seed_from guild g = do
  entries ← snapshot_entries g.voice_members
  with_lock voice_mutex (modify (seed guild entries))

unfoldable pub ensure_voice_seeded : ℕ → M (Unit {0})
unfolding seed_from
ensure_voice_seeded guild = do
  seeded ← with_lock voice_mutex (read (λ b. contains guild b.seeded_voice_guilds))
  when (not seeded)
      do d ← observe; elim (d.find_guild guild) [ none ↦ done | some g ↦ seed_from guild g ]

abbrev pub unknown : VoiceObservation
unknown = record { known = false; bot_present = false; humans = 0 }

-- The loop of `ObserveVoice`, from the count `humans` on.
unfoldable pub count_humans : ℕ → ℕ → ℕ → Map VoiceMemberInfo → ℕ
count_humans me channel humans [] = humans
count_humans me channel humans ((user, info) ∷ members) =
    count_humans me channel
      (if user == me || info.is_bot
        then humans
        else if not (info.channel_id == channel)
        then humans
        else humans + 1)
      members

unfoldable pub observation : ℕ → ℕ → Bot → VoiceObservation
unfolding count_humans
observation me guild b =
    if me == 0 || not (contains guild b.seeded_voice_guilds)
    then unknown
    else elim (find guild b.voice_occupancy) [
      | none ↦ record unknown { known = true }
      | some members ↦ elim (find me members) [
        | none ↦ record unknown { known = true }
        | some self ↦ record {
          known = true;
          bot_present = true;
          humans = count_humans me self.channel_id 0 members;
        }
      ]
    ]

unfoldable pub observe_voice : ℕ → M VoiceObservation
unfolding observation
observe_voice guild = do d ← observe; with_lock voice_mutex (read (observation d.me_id guild))

abbrev pub forget : ℕ → Bot → Bot
forget guild b = record b {
  seeded_voice_guilds = erase guild b.seeded_voice_guilds;
  voice_occupancy = erase guild b.voice_occupancy;
}

unfoldable pub reset_voice_tracking : ℕ → M (Unit {0})
reset_voice_tracking guild = with_lock voice_mutex (modify (forget guild))

-- The guilds that no automatic leave is under way for, with their shards.
unfoldable pub targets : Map GuildInfo → List (ℕ × ℕ)
targets [] = []
targets ((guild, info) ∷ infos) =
    let others = targets infos in
    if info.leave_pending then others else (guild, info.shard_id) ∷ others

-- What the check makes of a guild, and the channel for the notice if it is time to leave.
unfoldable pub judge : ℕ → VoiceObservation → GuildInfo → GuildInfo × Option ℕ
judge now obs info =
    if not obs.known || (not obs.bot_present || ltb 0 obs.humans)
    then (record info { empty_tracking = false }, none)
    else if not info.empty_tracking
    then (record info { empty_tracking = true; empty_since = now }, none)
    else if leb (seconds 10) (now - info.empty_since)
    then (record info { leave_pending = true }, some info.last_text_channel_id)
    else (info, none)

-- The part of the check under `guildInfosMutex`.
unfoldable pub judge_guild : ℕ → VoiceObservation → ℕ → M (Option ℕ)
unfolding judge
judge_guild now obs guild = with_lock guild_infos_mutex do
  it ← find_info guild
  elim it [
    | none ↦ return none
    | some info ↦
        if info.leave_pending
        then return none
        else do modify_info guild (λ i. (judge now obs i).0); return (judge now obs info).1
  ]

unfoldable pub check_target : ℕ → ℕ → ℕ → M (Unit {0})
unfolding ensure_voice_seeded observe_voice judge_guild
check_target now guild shard = do
  ensure_voice_seeded guild
  obs ← observe_voice guild
  leave ← judge_guild now obs guild
  elim leave [ none ↦ done | some channel ↦ call (spawn_leave guild shard channel) ]

unfoldable pub check_targets : ℕ → List (ℕ × ℕ) → M (Unit {0})
unfolding check_target
check_targets now [] = done
check_targets now ((guild, shard) ∷ rest) = do check_target now guild shard; check_targets now rest

unfoldable pub check_voice_channels : M (Unit {0})
unfolding targets check_targets
check_voice_channels = do
  ts ← with_lock guild_infos_mutex (read (λ b. targets b.guild_infos))
  d ← observe
  check_targets d.now ts
