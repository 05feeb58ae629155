-- ===== src/Voice/Company.antt =====
-- A person in the bot's channel is counted, and keeps the grace period from beginning.
use dpp_bot.Base.{ℕ, ◌+◌, ◌<◌, ◌≤◌, ◌≡◌, true, false, some, [], ◌∷◌, arith, ◌≢◌}
use dpp_bot.Dict.{Map, find, contains, assign}
use dpp_bot.Dict.Laws.{find-assign}
use dpp_bot.Guild.{GuildInfo, VoiceMemberInfo, VoiceObservation}
use dpp_bot.Task.{Bot, Dpp, start}
use dpp_bot.Task.Endings.{Returns}
use dpp_bot.Voice.{VoiceState, on_voice_state_update, cached_bot, count_humans, observation, judge}
use dpp_bot.Voice.Observing.{le-count_humans}
use dpp_bot.Voice.Grace.{check_once}

count_humans_pos :
    (me channel n user : ℕ) (info : VoiceMemberInfo) (m : Map VoiceMemberInfo)
    → find user m ≡ some info
    → user ≢ me
    → info.is_bot ≡ false
    → info.channel_id ≡ channel
    → n + 1 ≤ count_humans me channel n m
unfolding count_humans find
count_humans_pos me channel n user info [] f u p c = ground (arith, f)
count_humans_pos me channel n user info ((k, v) ∷ m) f u p c = ground (
  arith,
  f,
  le-count_humans me channel (n + 1) m,
  le-count_humans me channel n m,
  count_humans_pos me channel n user info m,
  count_humans_pos me channel (n + 1) user info m,
)

-- The event tells of a person who is in the channel that the bot is in.
pub record Joins (me : ℕ) (st : VoiceState) (d : Dpp) (b : Bot) : Type 0 where
  pub members : Map VoiceMemberInfo
  pub self : VoiceMemberInfo
  pub has_number : me ≢ 0
  pub of_guild : st.guild_id ≢ 0
  pub of_user : st.user_id ≢ 0
  pub of_another : st.user_id ≢ me
  pub in_a_channel : st.channel_id ≢ 0
  pub with_bot : st.channel_id ≡ self.channel_id
  pub of_person : cached_bot (d.find_user st.user_id) ≡ false
  pub seen : contains st.guild_id b.seeded_voice_guilds ≡ true
  pub found : find st.guild_id b.voice_occupancy ≡ some members
  pub here : find me members ≡ some self

abbrev pub entry_of : VoiceState → VoiceMemberInfo
entry_of st = record { channel_id = st.channel_id; is_bot = false }

-- Behind it the bot has the person among the members, and sees somebody.
pub on_voice_state_update-Joins :
    (env : ℕ → Dpp) (b : Bot) (me : ℕ) (st : VoiceState) (j : Joins me st (env 0) b)
    → Returns
        (λ _ t.
          (find st.guild_id t.bot.voice_occupancy
            ≡ some (assign st.user_id (entry_of st) j.members))
          × (t.bot.seeded_voice_guilds ≡ b.seeded_voice_guilds)
          × (t.bot.guild_infos ≡ b.guild_infos)
          × (0 < (observation me st.guild_id t.bot).humans))
        (on_voice_state_update st (start env b))
unfolding on_voice_state_update observation
on_voice_state_update-Joins env b me st j =
    let ms = assign st.user_id (entry_of st) j.members in
    ground (
      arith,
      j.found,
      j.of_guild,
      j.of_user,
      j.in_a_channel,
      j.of_person,
      j.seen,
      j.has_number,
      j.here,
      j.of_another,
      find-assign st.guild_id st.guild_id ms b.voice_occupancy,
      find-assign me st.user_id (entry_of st) j.members,
      find-assign st.user_id st.user_id (entry_of st) j.members,
      count_humans_pos me j.self.channel_id 0 st.user_id (entry_of st) ms,
      j.with_bot,
    )

pub check_once_accompanied :
    (now : ℕ) (obs : VoiceObservation) (info : GuildInfo)
    → 0 < obs.humans
    → info.leave_pending ≡ false
    → ((check_once now obs info).leave_pending ≡ false)
      × ((check_once now obs info).empty_tracking ≡ false)
unfolding check_once judge
check_once_accompanied now obs info h p = ground arith
