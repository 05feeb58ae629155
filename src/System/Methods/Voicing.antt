-- ===== src/System/Methods/Voicing.antt =====
-- Voice events and the check of the voice channels.
use dpp_bot.Base.{ℕ, Option, none, some, [], ◌∷◌, ◌==◌, not}
use dpp_bot.Dict.{Map, contains}
use dpp_bot.Task.{DppGuild, done, observe, ◌>>=◌, with_lock, voice_mutex}
use dpp_bot.Voice.{
  VoiceState, on_voice_state_update, snapshot_entries, seed_from, ensure_voice_seeded,
  observe_voice, reset_voice_tracking, user_is_bot,
}
use dpp_bot.Base.{List}
use dpp_bot.Voice.{check_target, check_targets, check_voice_channels}
use dpp_bot.System.Rules.{
  Rules, Holds, Holds-return, Holds-observe, Holds-bind, Holds-when, Holds-if, rules,
}
use dpp_bot.Task.{M, read}

module _ {P : (A : Type 0) → M A → Type 0} {r : Rules P} where
  pub reset_voice_tracking-Holds : (guild : ℕ) → Holds r (reset_voice_tracking guild)
  unfolding reset_voice_tracking
  reset_voice_tracking-Holds guild = search (rules)

  user_is_bot-Holds : (user : ℕ) → Holds r (user_is_bot user)
  unfolding user_is_bot
  user_is_bot-Holds user = search rules

  pub on_voice_state_update-Holds : (st : VoiceState) → Holds r (on_voice_state_update st)
  unfolding on_voice_state_update
  on_voice_state_update-Holds st = search (rules, user_is_bot-Holds)

  snapshot_entries-Holds : (members : Map ℕ) → Holds r (snapshot_entries members)
  unfolding snapshot_entries
  snapshot_entries-Holds [] = search rules
  snapshot_entries-Holds ((user, channel) ∷ members) =
      Holds-if (channel == 0) _ _ (snapshot_entries-Holds members) (
        Holds-bind (user_is_bot user) _ (user_is_bot-Holds user) λ is_bot.
          Holds-bind (snapshot_entries members) _ (snapshot_entries-Holds members) λ entries.
            Holds-return ((user, record { channel_id = channel; is_bot = is_bot }) ∷ entries))

  seed_from-Holds : (guild : ℕ) (g : DppGuild) → Holds r (seed_from guild g)
  unfolding seed_from
  seed_from-Holds guild g = search (rules, snapshot_entries-Holds)

  seed_found-Holds :
      (guild : ℕ) (o : Option DppGuild)
      → Holds r (elim o [ none ↦ done | some g ↦ seed_from guild g ])
  seed_found-Holds guild none = search rules
  seed_found-Holds guild (some g) = seed_from-Holds guild g

  seed_known-Holds :
      (guild : ℕ)
      → Holds r
          (do d ← observe; elim (d.find_guild guild) [ none ↦ done | some g ↦ seed_from guild g ])
  seed_known-Holds guild =
      Holds-bind observe _ Holds-observe λ d. seed_found-Holds guild (d.find_guild guild)

  pub ensure_voice_seeded-Holds : (guild : ℕ) → Holds r (ensure_voice_seeded guild)
  unfolding ensure_voice_seeded
  ensure_voice_seeded-Holds guild =
      Holds-bind (with_lock voice_mutex (read (λ b. contains guild b.seeded_voice_guilds))) _
        (search rules) λ seeded. Holds-when (not seeded) _ (seed_known-Holds guild)

  pub observe_voice-Holds : (guild : ℕ) → Holds r (observe_voice guild)
  unfolding observe_voice
  observe_voice-Holds guild = search rules

  check_target-Holds : (now guild shard : ℕ) → Holds r (check_target now guild shard)
  unfolding check_target
  check_target-Holds now guild shard =
      search (rules, ensure_voice_seeded-Holds, observe_voice-Holds)

  check_targets-Holds : (now : ℕ) (ts : List (ℕ × ℕ)) → Holds r (check_targets now ts)
  unfolding check_targets
  check_targets-Holds now [] = search rules
  check_targets-Holds now ((guild, shard) ∷ rest) =
      Holds-bind (check_target now guild shard) _ (check_target-Holds now guild shard)
        λ u. check_targets-Holds now rest

  pub check_voice_channels-Holds : Holds r check_voice_channels
  unfolding check_voice_channels
  check_voice_channels-Holds = search (rules, check_targets-Holds)
