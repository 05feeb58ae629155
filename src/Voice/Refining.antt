-- ===== src/Voice/Refining.antt =====
-- The check of one guild in a pass of `CheckVoiceChannels` is a step of the grace period.
use mathlib.Core.Option
use dpp_bot.Base.{
  ℕ, ◌≡◌, refl, Option, none, some, [], arith, inl, inr, Option-cases, ◌==◌, if◌then◌else◌, ap, sym,
  ◌∙◌,
}
use dpp_bot.Dict.{Map, find}
use dpp_bot.Dict.Laws.{find-update}
use dpp_bot.Guild.{GuildInfo, VoiceObservation}
use dpp_bot.Task.{M, Task, Bot, Dpp, start, call, done, spawn_leave}
use dpp_bot.Task.Endings.{Returns, Returns-bind}
use dpp_bot.Voice.{
  observation, ensure_voice_seeded, observe_voice, judge, judge_guild, check_target,
}
use dpp_bot.Voice.Grace.{check_once}
use dpp_bot.Voice.Checking.{Keeps, ensure_voice_seeded-Keeps}

-- The entry of the guild `j` behind a check of `guild` that saw `obs`, if `old` is what was there.
abbrev pub after_check : ℕ → VoiceObservation → ℕ → ℕ → Task → Option GuildInfo
after_check now obs guild j t =
    if guild == j
    then Option.map (check_once now obs) (find guild t.bot.guild_infos)
    else find j t.bot.guild_infos

-- The observation that the task's own voice data give.
abbrev pub Seen : ℕ → Task → VoiceObservation → Task → Type 0
Seen guild t obs v =
    (obs ≡ observation (t.env t.tick).me_id guild v.bot) × (v.bot.guild_infos ≡ t.bot.guild_infos)

observe_voice-Seen :
    (guild : ℕ) (t : Task) → t.held ≡ [] → Returns (Seen guild t) (observe_voice guild t)
unfolding observe_voice
observe_voice-Seen guild t h = ground arith

abbrev Judged : ℕ → VoiceObservation → ℕ → ℕ → Task → Option ℕ → Task → Type 0
Judged now obs guild j t leave u =
    (find j u.bot.guild_infos ≡ after_check now obs guild j t)
    × (u.bot.voice_occupancy ≡ t.bot.voice_occupancy)
    × (u.bot.seeded_voice_guilds ≡ t.bot.seeded_voice_guilds)

judge_guild-Judged :
    (now : ℕ) (obs : VoiceObservation) (guild j : ℕ) (t : Task)
    → t.held ≡ []
    → Returns (Judged now obs guild j t) (judge_guild now obs guild t)
unfolding judge_guild check_once
judge_guild-Judged now obs guild j t h = elim (Option-cases (find guild t.bot.guild_infos)) [
  | inl e ↦ ground arith
  | inr (info, e) ↦
      ground (arith, find-update j guild (λ (i : GuildInfo). (judge now obs i).0) t.bot.guild_infos)
]

-- For the `n`-th of dpp's answers: the guild's entry made a step on what the voice data at the end
-- say of the bot's channel, and other entries are as they were.
abbrev pub Stepped : ℕ → ℕ → ℕ → (ℕ → Dpp) → Bot → Task → Type 0
Stepped now guild j env b t =
    (n : ℕ) × (find j t.bot.guild_infos ≡ (
      if guild == j
      then Option.map (check_once now (observation (env n).me_id guild t.bot))
          (find guild b.guild_infos)
      else find j b.guild_infos))

observation_same :
    (me guild : ℕ) (b c : Bot)
    → c.voice_occupancy ≡ b.voice_occupancy
    → c.seeded_voice_guilds ≡ b.seeded_voice_guilds
    → observation me guild c ≡ observation me guild b
unfolding observation
observation_same me guild b c o s = rw (o, s) refl

stepped :
    (now guild shard j : ℕ) (env : ℕ → Dpp) (b : Bot) (leave : Option ℕ) (w : Task)
    → w.held ≡ []
    → Stepped now guild j env b w
    → Returns
        (λ _ t. Stepped now guild j env b t)
        ((elim leave as (λ k. M (Unit {0})) [
          | none ↦ done
          | some channel ↦ call (spawn_leave guild shard channel)
        ])
          w)
stepped now guild shard j env b none w h s = (h, s)
stepped now guild shard j env b (some channel) w h s = (h, s)

pub check_target-Stepped :
    (now guild shard j : ℕ) (s : Task)
    → s.held ≡ []
    → Returns (λ _ t. Stepped now guild j s.env s.bot t) (check_target now guild shard s)
unfolding check_target
check_target-Stepped now guild shard j s hs =
    Returns-bind (Keeps s) (λ _ t. Stepped now guild j s.env s.bot t) (ensure_voice_seeded guild) _
      s (ensure_voice_seeded-Keeps guild s hs)
      λ _ u hu ku.
        Returns-bind (Seen guild u) (λ _ t. Stepped now guild j s.env s.bot t) (observe_voice guild)
          _ u (observe_voice-Seen guild u hu)
          λ obs v hv kv.
            Returns-bind (Judged now obs guild j v) (λ _ t. Stepped now guild j s.env s.bot t)
              (judge_guild now obs guild) _ v (judge_guild-Judged now obs guild j v hv)
              λ leave w hw kw.
                let me = (s.env u.tick).me_id in
                let seen =
                  kv.0
                  ∙ ap (λ (e : ℕ → Dpp). observation (e u.tick).me_id guild v.bot) ku.2
                  ∙ sym (observation_same me guild v.bot w.bot kw.1 kw.2) in
                let step =
                  kw.0
                  ∙ ap (λ (o : VoiceObservation). after_check now o guild j v) seen
                  ∙ ap
                      (λ (m : Map GuildInfo).
                        if guild == j
                        then Option.map (check_once now (observation me guild w.bot)) (find guild m)
                        else find j m)
                      (kv.1 ∙ ku.1) in
                stepped now guild shard j s.env s.bot leave w hw (u.tick, step)

-- The check of one guild in a pass returns with every lock released and makes one step of the grace
-- period on the guild's entry, on what the voice data at the end say of the bot's channel, with the
-- bot's number as dpp gave it at one of its answers; every other entry is as it was.
pub check_target_lem :
    (now guild shard j : ℕ) (env : ℕ → Dpp) (b : Bot)
    → Returns (λ _ t. Stepped now guild j env b t) (check_target now guild shard (start env b))
check_target_lem now guild shard j env b = check_target-Stepped now guild shard j (start env b) refl
