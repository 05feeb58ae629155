-- ===== src/Voice/Occupancy.antt =====
-- Who is where, behind an event and behind the snapshot.
use dpp_bot.Base.{
  ℕ, ◌≡◌, Bool, ◌&&◌, ◌||◌, Option, none, some, arith, inl, inr, Option-cases, ◌==◌, if◌then◌else◌,
}
use dpp_bot.Dict.{find, assign, erase}
use dpp_bot.Dict.Laws.{find-assign, find-update, find-erase, find-nil}
use dpp_bot.Guild.{VoiceMemberInfo}
use dpp_bot.Task.{Bot, Dpp, start}
use dpp_bot.Task.Endings.{Returns}
use dpp_bot.Voice.{VoiceState, cached_bot, members_of, enter, exit, on_voice_state_update}

-- What the bot knows of a user in a guild.
abbrev pub member : ℕ → ℕ → Bot → Option VoiceMemberInfo
member guild user b = elim (find guild b.voice_occupancy) [
  | none ↦ none
  | some members ↦ find user members
]

-- What an event says of its user: in no channel, or in one, as a bot if dpp's cache says so.
abbrev pub told : VoiceState → Dpp → Option VoiceMemberInfo
told st d =
    if st.channel_id == 0
    then none
    else some (record { channel_id = st.channel_id; is_bot = cached_bot (d.find_user st.user_id) })

abbrev pub is_about : VoiceState → ℕ → ℕ → Bool
is_about st guild user = st.guild_id == guild && st.user_id == user

member-enter :
    (g u guild user : ℕ) (info : VoiceMemberInfo) (b : Bot)
    → member g u (enter guild user info b)
      ≡ (if guild == g && user == u then some info else member g u b)
member-enter g u guild user info b = ground (
  arith,
  find-nil {V = VoiceMemberInfo} u,
  find-assign g guild (assign user info (members_of guild b.voice_occupancy)) b.voice_occupancy,
  find-assign u user info (members_of guild b.voice_occupancy),
)

member-exit :
    (g u guild user : ℕ) (b : Bot)
    → member g u (exit guild user b) ≡ (if guild == g && user == u then none else member g u b)
member-exit g u guild user b = elim (Option-cases (find guild b.voice_occupancy)) [
  | inl e ↦ ground (arith, find-update g guild (erase user) b.voice_occupancy)
  | inr (ms, e) ↦
      ground (arith, find-update g guild (erase user) b.voice_occupancy, find-erase u user ms)
]

-- After a voice event the bot knows of the event's user what the event says, of every other user and
-- guild what it knew before, and an event without a guild or a user changes nothing. The play lists
-- and the snapshot marks stay as they were.
pub on_voice_state_update_lem :
    (env : ℕ → Dpp) (b : Bot) (st : VoiceState) (guild user : ℕ)
    → Returns
        (λ _ t.
          (member guild user t.bot ≡ (
            if st.guild_id == 0 || st.user_id == 0
            then member guild user b
            else if is_about st guild user
            then told st (env 0)
            else member guild user b))
          × (t.bot.guild_infos ≡ b.guild_infos)
          × (t.bot.seeded_voice_guilds ≡ b.seeded_voice_guilds))
        (on_voice_state_update st (start env b))
unfolding on_voice_state_update
on_voice_state_update_lem env b st guild user = ground (
  arith,
  member-enter guild user st.guild_id st.user_id
      (record { channel_id = st.channel_id; is_bot = cached_bot ((env 0).find_user st.user_id) }) b,
  member-exit guild user st.guild_id st.user_id b,
)
