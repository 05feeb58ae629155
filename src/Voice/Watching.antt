-- ===== src/Voice/Watching.antt =====
-- A pass of `CheckVoiceChannels` keeps what the bot knows of who is where in a guild whose snapshot is
-- taken, and the order of the guilds.
use dpp_bot.Base.{
  ℕ, ◌≡◌, refl, Option, none, some, List, [], ◌∷◌, arith, inl, inr, Bool-cases, ◌==◌, ◌∙◌, true,
  subst, sym, ==_iff,
}
use dpp_bot.Dict.{Map, find, contains, IsOrdered}
use dpp_bot.Dict.Laws.{update-IsOrdered}
use dpp_bot.Guild.{GuildInfo, VoiceMemberInfo, VoiceObservation}
use dpp_bot.Task.{M, Task, Bot, Dpp, call, done, spawn_leave, start, returns, on_info}
use dpp_bot.Task.Endings.{Returns, Returns-bind, Returns-map, Returns-both}
use dpp_bot.Voice.{
  ensure_voice_seeded, observe_voice, judge, judge_guild, check_target, check_targets,
  check_voice_channels, targets,
}
use dpp_bot.Voice.Checking.{Keeps, ensure_voice_seeded-Keeps}
use dpp_bot.Voice.Untouched.{Untouched, ensure_voice_seeded-Untouched}

module _ (j : ℕ) (members : Option (Map VoiceMemberInfo)) where
  -- The guild's snapshot is taken, it has these members, and the guilds are in order.
  pub record IsWatched (b : Bot) : Type 0 where
    pub has_members : find j b.voice_occupancy ≡ members
    pub is_seeded : contains j b.seeded_voice_guilds ≡ true
    pub in_order : IsOrdered b.guild_infos

  abbrev pub Watches : {A : Type 0} → A → Task → Type 0
  Watches a t = IsWatched t.bot

  Untouched-IsWatched :
      (t u : Task) → IsWatched t.bot → Untouched j t u → Keeps t tt u → IsWatched u.bot
  Untouched-IsWatched t u w k e = record {
    has_members = k.occupancy_kept ∙ w.has_members;
    is_seeded = k.seeded_kept ∙ w.is_seeded;
    in_order = subst (λ (m : Map GuildInfo). IsOrdered m) (sym e.1) w.in_order;
  }

  seeded_already :
      (t : Task)
      → t.held ≡ []
      → contains j t.bot.seeded_voice_guilds ≡ true
      → ensure_voice_seeded j t ≡ returns tt t
  unfolding ensure_voice_seeded
  seeded_already t h s = ground arith

  ensure_voice_seeded-Watches :
      (guild : ℕ) (t : Task)
      → t.held ≡ []
      → IsWatched t.bot
      → Returns Watches (ensure_voice_seeded guild t)
  ensure_voice_seeded-Watches guild t h w = elim (Bool-cases (guild == j)) [
    | inl hit ↦
        subst (λ (g : ℕ). Returns Watches (ensure_voice_seeded g t)) (sym ((==_iff guild j).0 hit))
          (subst (Returns Watches) (sym (seeded_already t h w.is_seeded)) (h, w))
    | inr miss ↦
        Returns-map (λ _ u. Untouched j t u × Keeps t tt u) Watches
          (λ _ u k. Untouched-IsWatched t u w k.0 k.1) (ensure_voice_seeded guild t)
          (Returns-both (λ _ u. Untouched j t u) (Keeps t) (ensure_voice_seeded guild t)
            (ensure_voice_seeded-Untouched guild j miss t h) (ensure_voice_seeded-Keeps guild t h))
  ]

  observe_voice-Watches :
      (guild : ℕ) (t : Task)
      → t.held ≡ []
      → IsWatched t.bot
      → Returns Watches (observe_voice guild t)
  unfolding observe_voice
  observe_voice-Watches guild t h w = ground arith

  judged-IsWatched :
      (guild : ℕ) (f : GuildInfo → GuildInfo) (b : Bot)
      → IsWatched b
      → IsWatched (on_info guild f b)
  judged-IsWatched guild f b w = record {
    has_members = w.has_members;
    is_seeded = w.is_seeded;
    in_order = update-IsOrdered guild f b.guild_infos w.in_order;
  }

  judge_guild-Watches :
      (now : ℕ) (obs : VoiceObservation) (guild : ℕ) (t : Task)
      → t.held ≡ []
      → IsWatched t.bot
      → Returns Watches (judge_guild now obs guild t)
  unfolding judge_guild
  judge_guild-Watches now obs guild t h w =
      ground (arith, judged-IsWatched guild (λ (i : GuildInfo). (judge now obs i).0) t.bot w)

  told-Watches :
      (guild shard : ℕ) (leave : Option ℕ) (t : Task)
      → t.held ≡ []
      → IsWatched t.bot
      → Returns Watches (
          (elim leave as (λ k. M (Unit {0})) [
            | none ↦ done
            | some channel ↦ call (spawn_leave guild shard channel)
          ])
            t)
  told-Watches guild shard none t h w = (h, w)
  told-Watches guild shard (some channel) t h w = (h, w)

  check_target-Watches :
      (now guild shard : ℕ) (t : Task)
      → t.held ≡ []
      → IsWatched t.bot
      → Returns Watches (check_target now guild shard t)
  unfolding check_target
  check_target-Watches now guild shard t h w =
      Returns-bind Watches Watches (ensure_voice_seeded guild) _ t
        (ensure_voice_seeded-Watches guild t h w)
        λ _ u hu wu.
          Returns-bind Watches Watches (observe_voice guild) _ u
            (observe_voice-Watches guild u hu wu)
            λ obs v hv wv.
              Returns-bind Watches Watches (judge_guild now obs guild) _ v
                (judge_guild-Watches now obs guild v hv wv) (told-Watches guild shard)

  check_targets-Watches :
      (now : ℕ) (ts : List (ℕ × ℕ)) (t : Task)
      → t.held ≡ []
      → IsWatched t.bot
      → Returns Watches (check_targets now ts t)
  unfolding check_targets
  check_targets-Watches now [] t h w = (h, w)
  check_targets-Watches now ((guild, shard) ∷ ts) t h w =
      Returns-bind Watches Watches (check_target now guild shard) _ t
        (check_target-Watches now guild shard t h w) (λ _. check_targets-Watches now ts)

  pub check_voice_channels-Watches :
      (env : ℕ → Dpp) (b : Bot) → IsWatched b → Returns Watches (check_voice_channels (start env b))
  unfolding check_voice_channels
  check_voice_channels-Watches env b w =
      check_targets-Watches (env 0).now (targets b.guild_infos) (record (start env b) { tick = 1 })
        refl w
