-- ===== src/Voice/Observing.antt =====
-- The count of `ObserveVoice`: zero exactly when the bot is alone among people.
use dpp_bot.Base.{
  ℕ, ◌+◌, ◌≤◌, ◌≡◌, refl, true, some, [], ◌∷◌, arith, inl, inr, Option-cases, ◌≢◌, ◌⊎◌, ◌↔◌, All,
}
use dpp_bot.Dict.{Map, find, contains}
use dpp_bot.Guild.{VoiceMemberInfo, VoiceObservation}
use dpp_bot.Task.{Bot}
use dpp_bot.Voice.{count_humans, observation}

-- Not a person in the channel: the bot itself, another bot, or somebody elsewhere.
abbrev pub IsNobody : ℕ → ℕ → ℕ × VoiceMemberInfo → Type 0
IsNobody me channel e = (e.0 ≡ me) ⊎ ((e.1.is_bot ≡ true) ⊎ (e.1.channel_id ≢ channel))

abbrev pub IsEmpty : VoiceObservation → Type 0
IsEmpty obs = (obs.known ≡ true) × (obs.bot_present ≡ true) × (obs.humans ≡ 0)

pub le-count_humans : (me ch n : ℕ) (ms : Map VoiceMemberInfo) → n ≤ count_humans me ch n ms
unfolding count_humans
le-count_humans me ch n [] = omega arith
le-count_humans me ch n ((u, i) ∷ ms) =
    ground (arith, le-count_humans me ch n ms, le-count_humans me ch (n + 1) ms)

count_zero :
    (me ch : ℕ) (ms : Map VoiceMemberInfo) → count_humans me ch 0 ms ≡ 0 → All (IsNobody me ch) ms
unfolding count_humans
count_zero me ch [] h = tt
count_zero me ch ((u, i) ∷ ms) h = ground (arith, le-count_humans me ch 1 ms, count_zero me ch ms)

zero_count :
    (me ch : ℕ) (ms : Map VoiceMemberInfo) → All (IsNobody me ch) ms → count_humans me ch 0 ms ≡ 0
unfolding count_humans
zero_count me ch [] h = refl
zero_count me ch ((u, i) ∷ ms) h = ground (arith, zero_count me ch ms h.1)

-- The bot has a number, its snapshot of the guild is taken, it stands in a channel of the guild, and
-- nobody but bots is in that channel.
abbrev pub IsAlone : ℕ → ℕ → Bot → Type 0
IsAlone me guild b =
    (members : Map VoiceMemberInfo) × (self : VoiceMemberInfo) × (me ≢ 0)
    × (contains guild b.seeded_voice_guilds ≡ true)
    × (find guild b.voice_occupancy ≡ some members)
    × (find me members ≡ some self)
    × All (IsNobody me self.channel_id) members

-- The observation says that the bot's channel is empty exactly when the bot is alone in it.
pub observation-IsEmpty_iff :
    (me guild : ℕ) (b : Bot) → IsEmpty (observation me guild b) ↔ IsAlone me guild b
unfolding observation
observation-IsEmpty_iff me guild b = (sound, complete)
  where
    sound : IsEmpty (observation me guild b) → IsAlone me guild b
    sound h = elim (Option-cases (find guild b.voice_occupancy)) [
      | inl e ↦ absurd (ground arith)
      | inr (ms, e) ↦ elim (Option-cases (find me ms)) [
        | inl p ↦ absurd (ground arith)
        | inr (self, p) ↦ (
          ms,
          self,
          ground arith,
          ground arith,
          e,
          p,
          count_zero me self.channel_id ms (ground arith),
        )
      ]
    ]

    complete : IsAlone me guild b → IsEmpty (observation me guild b)
    complete (ms, self, n, s, e, p, a) = ground (arith, zero_count me self.channel_id ms a)
