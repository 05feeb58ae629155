-- ===== src/System/Passes.antt =====
-- Passes of `CheckVoiceChannels`, one after the other, over a guild whose occupants do not change.
use mathlib.Core.Option
use dpp_bot.Base.{ℕ, ◌+◌, ◌≡◌, refl, ap, subst, ◌∙◌, Option, some, List, [], ◌∷◌, map, arith, All}
use dpp_bot.Dict.{Map, find}
use dpp_bot.Guild.{GuildInfo, VoiceMemberInfo, VoiceObservation}
use dpp_bot.Task.{Task, Bot, Dpp, start}
use dpp_bot.Task.Endings.{Returns, Returns-map, Returns-both}
use dpp_bot.Voice.{observation, check_voice_channels}
use dpp_bot.Voice.Grace.{Check, checks, check_once}
use dpp_bot.Voice.Checking.{pending, spawns}
use dpp_bot.Voice.Passing.{Passed, check_voice_channels-Passed}
use dpp_bot.Voice.Watching.{IsWatched, check_voice_channels-Watches}

-- The passes at the times of these worlds, the latest first, as checks that all see the same.
abbrev pub same_checks : VoiceObservation → List (ℕ → Dpp) → List Check
same_checks obs envs = map (λ (env : ℕ → Dpp). ((env 0).now, obs)) envs

-- Dpp gives the bot's number in all these worlds.
abbrev pub Knows : ℕ → List (ℕ → Dpp) → Type 0
Knows me = All (λ env. (n : ℕ) → (env n).me_id ≡ me)

module _ (guild : ℕ) where
  -- `P` holds of the bot behind the passes, the latest first, each of which returns, and of the number
  -- of workers that they started for the guild.
  abbrev pub AfterPasses : List (ℕ → Dpp) → (ℕ → Bot → Type 0) → Bot → Type 0
  AfterPasses [] P b = P 0 b
  AfterPasses (env ∷ earlier) P b =
      AfterPasses earlier
        (λ n c.
          Returns (λ _ t. P (spawns guild t.log + n) t.bot) (check_voice_channels (start env c)))
        b

  pub AfterPasses-map :
      (envs : List (ℕ → Dpp)) (P Q : ℕ → Bot → Type 0) (b : Bot)
      → ((n : ℕ) (c : Bot) → P n c → Q n c)
      → AfterPasses envs P b
      → AfterPasses envs Q b
  AfterPasses-map [] P Q b f p = f 0 b p
  AfterPasses-map (env ∷ earlier) P Q b f p =
      AfterPasses-map earlier _ _ b
        (λ n c.
          Returns-map (λ _ t. P (spawns guild t.log + n) t.bot)
            (λ _ t. Q (spawns guild t.log + n) t.bot) (λ _ t. f (spawns guild t.log + n) t.bot)
            (check_voice_channels (start env c)))
        p

  observation_watched :
      (me : ℕ) (members : Option (Map VoiceMemberInfo)) (b c : Bot)
      → IsWatched guild members b
      → IsWatched guild members c
      → observation me guild c ≡ observation me guild b
  unfolding observation
  observation_watched me members b c w v =
      rw (w.has_members, w.is_seeded, v.has_members, v.is_seeded) refl

  module _ (me : ℕ) (members : Option (Map VoiceMemberInfo)) (obs : VoiceObservation) where
    -- The guild has these members, of whom the bot sees this, and its entry is `info`.
    pub record IsSteady (info : GuildInfo) (b : Bot) : Type 0 where
      pub watched : IsWatched guild members b
      pub sees : observation me guild b ≡ obs
      pub known : find guild b.guild_infos ≡ some info

    Passed-IsSteady :
        (env : ℕ → Dpp) (info : GuildInfo) (b : Bot) (t : Task)
        → ((n : ℕ) → (env n).me_id ≡ me)
        → IsSteady info b
        → IsWatched guild members t.bot
        → Passed (env 0).now guild env b t
        → IsSteady (check_once (env 0).now obs info) t.bot
    Passed-IsSteady env info b t my l w (n, e) =
        let same = observation_watched me members b t.bot l.watched w ∙ l.sees in
        record {
          watched = w;
          sees = same;
          known =
              e
              ∙ ap
                  (λ (x : ℕ).
                    Option.map (check_once (env 0).now (observation x guild t.bot))
                      (find guild b.guild_infos))
                  (my n)
              ∙ ap
                  (λ (o : VoiceObservation).
                    Option.map (check_once (env 0).now o) (find guild b.guild_infos))
                  same
              ∙ ap (Option.map (check_once (env 0).now obs)) l.known;
        }

    -- The entry went through the checks, and so many workers were started that the leave came under
    -- way, if it did.
    abbrev pub Followed : GuildInfo → List (ℕ → Dpp) → ℕ → Bot → Type 0
    Followed info envs n b =
        IsSteady (checks (same_checks obs envs) info) b
        × (n + pending (some info) ≡ pending (some (checks (same_checks obs envs) info)))

    check_voice_channels-Followed :
        (env : ℕ → Dpp) (earlier : List (ℕ → Dpp)) (info : GuildInfo) (n : ℕ) (b : Bot)
        → ((k : ℕ) → (env k).me_id ≡ me)
        → Followed info earlier n b
        → Returns
            (λ _ t. Followed info (env ∷ earlier) (spawns guild t.log + n) t.bot)
            (check_voice_channels (start env b))
    unfolding checks
    check_voice_channels-Followed env earlier info n b my (l, count) =
        let before = checks (same_checks obs earlier) info in
        Returns-map
          (λ _ t.
            IsWatched guild members t.bot
            × (Passed (env 0).now guild env b t
                × (spawns guild t.log + pending (find guild b.guild_infos)
                    ≡ pending (find guild t.bot.guild_infos))))
          (λ _ t. Followed info (env ∷ earlier) (spawns guild t.log + n) t.bot)
          (λ _ t h.
            let k = Passed-IsSteady env before b t my l h.0 h.1.0 in
            let balance =
              subst
                (λ (o : Option GuildInfo).
                  spawns guild t.log + pending o
                  ≡ pending (some (check_once (env 0).now obs before)))
                l.known (h.1.1 ∙ ap pending k.known) in
            (k, omega (arith, balance, count)))
          (check_voice_channels (start env b))
          (Returns-both (λ _ t. IsWatched guild members t.bot) _
            (check_voice_channels (start env b))
            (check_voice_channels-Watches guild members env b l.watched)
            (check_voice_channels-Passed env b guild l.watched.in_order))

    pub passes-Followed :
        (envs : List (ℕ → Dpp)) (info : GuildInfo) (b : Bot)
        → Knows me envs
        → IsSteady info b
        → AfterPasses envs (Followed info envs) b
    unfolding checks
    passes-Followed [] info b my l = (l, omega arith)
    passes-Followed (env ∷ earlier) info b my l =
        AfterPasses-map earlier (Followed info earlier) _ b
          (λ n c. check_voice_channels-Followed env earlier info n c my.0)
          (passes-Followed earlier info b my.1 l)
