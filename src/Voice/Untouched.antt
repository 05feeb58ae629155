-- ===== src/Voice/Untouched.antt =====
-- The check of one guild leaves the voice data and the entries of the others alone.
use dpp_bot.Base.{
  ℕ, suc, ◌≡◌, refl, Option, none, some, [], ◌∷◌, arith, inl, inr, Option-cases, ◌==◌, ◌∙◌, false,
}
use dpp_bot.Dict.{Map, find, contains}
use dpp_bot.Dict.Laws.{find-assign, find-update}
use dpp_bot.Guild.{GuildInfo, VoiceObservation}
use dpp_bot.Task.{M, Task, DppGuild, call, done, spawn_leave}
use dpp_bot.Task.Endings.{Returns, Returns-bind}
use dpp_bot.Voice.{
  observation, seed_from, snapshot_entries, ensure_voice_seeded, observe_voice, judge, judge_guild,
  check_target, members_of, emplace_all,
}

-- The voice data and the entry of the guild `j` are as they were, and so is dpp.
pub record Untouched (j : ℕ) (t u : Task) : Type 0 where
  pub occupancy_kept : find j u.bot.voice_occupancy ≡ find j t.bot.voice_occupancy
  pub seeded_kept : contains j u.bot.seeded_voice_guilds ≡ contains j t.bot.seeded_voice_guilds
  pub entry_kept : find j u.bot.guild_infos ≡ find j t.bot.guild_infos
  pub env_kept : u.env ≡ t.env

pub Untouched-refl : (j : ℕ) (t : Task) → Untouched j t t
Untouched-refl j t = record {
  occupancy_kept = refl;
  seeded_kept = refl;
  entry_kept = refl;
  env_kept = refl;
}

pub Untouched-trans : (j : ℕ) (t u v : Task) → Untouched j t u → Untouched j u v → Untouched j t v
Untouched-trans j t u v h k = record {
  occupancy_kept = k.occupancy_kept ∙ h.occupancy_kept;
  seeded_kept = k.seeded_kept ∙ h.seeded_kept;
  entry_kept = k.entry_kept ∙ h.entry_kept;
  env_kept = k.env_kept ∙ h.env_kept;
}

pub observation_kept :
    (me j : ℕ) (t u : Task) → Untouched j t u → observation me j u.bot ≡ observation me j t.bot
unfolding observation
observation_kept me j t u h = rw (h.occupancy_kept, h.seeded_kept) refl

-- Reading a snapshot changes nothing of the bot.
abbrev Same : {A : Type 0} → Task → A → Task → Type 0
Same t a u = (u.bot ≡ t.bot) × (u.env ≡ t.env)

snapshot_entries-Same :
    (ms : Map ℕ) (t : Task) → t.held ≡ [] → Returns (Same t) (snapshot_entries ms t)
unfolding snapshot_entries
snapshot_entries-Same [] t h = (h, (refl, refl))
snapshot_entries-Same ((u, ch) ∷ ms) t h = ground (
  arith,
  snapshot_entries-Same ms t h,
  snapshot_entries-Same ms (record t { tick = suc t.tick }) h,
)

-- Another guild's check leaves the guild `j` alone.
module _ (guild j : ℕ) (other : (guild == j) ≡ false) where
  seed_from-Untouched :
      (g : DppGuild) (t : Task)
      → t.held ≡ []
      → Returns (λ _ u. Untouched j t u) (seed_from guild g t)
  unfolding seed_from contains
  seed_from-Untouched g t h =
      Returns-bind (Same t) (λ _ u. Untouched j t u) (snapshot_entries g.voice_members) _ t
        (snapshot_entries-Same g.voice_members t h)
        λ entries u hu s. ground (
          arith,
          hu,
          s.0,
          s.1,
          find-assign j guild (emplace_all entries (members_of guild t.bot.voice_occupancy))
              t.bot.voice_occupancy,
          find-assign j guild tt t.bot.seeded_voice_guilds,
        )

  pub ensure_voice_seeded-Untouched :
      (t : Task) → t.held ≡ [] → Returns (λ _ u. Untouched j t u) (ensure_voice_seeded guild t)
  unfolding ensure_voice_seeded
  ensure_voice_seeded-Untouched t h = elim (Option-cases ((t.env t.tick).find_guild guild)) [
    | inl e ↦ ground arith
    | inr (g, e) ↦ ground (arith, seed_from-Untouched g (record t { tick = suc t.tick }) h)
  ]

  observe_voice-Untouched :
      (t : Task) → t.held ≡ [] → Returns (λ _ u. Untouched j t u) (observe_voice guild t)
  unfolding observe_voice
  observe_voice-Untouched t h = ground arith

  judge_guild-Untouched :
      (now : ℕ) (obs : VoiceObservation) (t : Task)
      → t.held ≡ []
      → Returns (λ _ u. Untouched j t u) (judge_guild now obs guild t)
  unfolding judge_guild
  judge_guild-Untouched now obs t h = elim (Option-cases (find guild t.bot.guild_infos)) [
    | inl e ↦ ground arith
    | inr (info, e) ↦
        ground
          (arith, find-update j guild (λ (i : GuildInfo). (judge now obs i).0) t.bot.guild_infos)
  ]

  pub check_target-Untouched :
      (now shard : ℕ) (t : Task)
      → t.held ≡ []
      → Returns (λ _ u. Untouched j t u) (check_target now guild shard t)
  unfolding check_target
  check_target-Untouched now shard t h =
      Returns-bind (λ _ u. Untouched j t u) (λ _ u. Untouched j t u) (ensure_voice_seeded guild) _ t
        (ensure_voice_seeded-Untouched t h)
        λ _ u hu ku.
          Returns-bind (λ _ v. Untouched j u v) (λ _ v. Untouched j t v) (observe_voice guild) _ u
            (observe_voice-Untouched u hu)
            λ obs v hv kv.
              Returns-bind (λ _ w. Untouched j v w) (λ _ w. Untouched j t w)
                (judge_guild now obs guild) _ v (judge_guild-Untouched now obs v hv)
                λ leave w hw kw.
                  told leave t w hw (Untouched-trans j t u w ku (Untouched-trans j u v w kv kw))
    where
      told :
          (leave : Option ℕ) (t w : Task)
          → w.held ≡ []
          → Untouched j t w
          → Returns
              (λ _ u. Untouched j t u)
              ((elim leave as (λ k. M (Unit {0})) [
                | none ↦ done
                | some channel ↦ call (spawn_leave guild shard channel)
              ])
                w)
      told none t w h k = (h, k)
      told (some channel) t w h k = (
        h,
        record {
          occupancy_kept = k.occupancy_kept;
          seeded_kept = k.seeded_kept;
          entry_kept = k.entry_kept;
          env_kept = k.env_kept;
        },
      )
