-- ===== src/Voice/Checking.antt =====
-- A whole pass of `CheckVoiceChannels` over the guilds.
use dpp_bot.Base.{
  ℕ, suc, ◌+◌, ◌≡◌, refl, Option, none, some, List, [], ◌∷◌, arith, inl, inr, Option-cases, ◌==◌,
  if◌then◌else◌,
}
use dpp_bot.Dict.{Map, find}
use dpp_bot.Dict.Laws.{find-update}
use dpp_bot.Guild.{GuildInfo, VoiceObservation}
use dpp_bot.Task.{Task, Bot, Dpp, DppGuild, Call, spawn_leave, start}
use dpp_bot.Task.Endings.{Returns, Returns-bind}
use dpp_bot.Voice.{
  snapshot_entries, seed_from, ensure_voice_seeded, observe_voice, judge, judge_guild, check_target,
  check_targets, check_voice_channels, targets,
}

-- The task got on, with the same entries and the same calls.
abbrev pub Keeps : {A : Type 0} → Task → A → Task → Type 0
Keeps t a u = (u.log ≡ t.log) × (u.bot.guild_infos ≡ t.bot.guild_infos) × (u.env ≡ t.env)

snapshot_entries-Keeps :
    (ms : Map ℕ) (t : Task) → t.held ≡ [] → Returns (Keeps t) (snapshot_entries ms t)
unfolding snapshot_entries
snapshot_entries-Keeps [] t h = (h, (refl, refl, refl))
snapshot_entries-Keeps ((u, ch) ∷ ms) t h = ground (
  arith,
  snapshot_entries-Keeps ms t h,
  snapshot_entries-Keeps ms (record t { tick = suc t.tick }) h,
)

seed_from-Keeps :
    (guild : ℕ) (g : DppGuild) (t : Task) → t.held ≡ [] → Returns (Keeps t) (seed_from guild g t)
unfolding seed_from
seed_from-Keeps guild g t h = ground (arith, snapshot_entries-Keeps g.voice_members t h)

pub ensure_voice_seeded-Keeps :
    (guild : ℕ) (t : Task) → t.held ≡ [] → Returns (Keeps t) (ensure_voice_seeded guild t)
unfolding ensure_voice_seeded
ensure_voice_seeded-Keeps guild t h = elim (Option-cases ((t.env t.tick).find_guild guild)) [
  | inl e ↦ ground arith
  | inr (g, e) ↦ ground (arith, seed_from-Keeps guild g (record t { tick = suc t.tick }) h)
]

pub observe_voice-Keeps :
    (guild : ℕ) (t : Task) → t.held ≡ [] → Returns (Keeps t) (observe_voice guild t)
unfolding observe_voice
observe_voice-Keeps guild t h = ground arith

abbrev pub pending : Option GuildInfo → ℕ
pending none = 0
pending (some info) = if info.leave_pending then 1 else 0

abbrev pub spawns : ℕ → List Call → ℕ
spawns guild [] = 0
spawns guild (spawn_leave g shard channel ∷ log) = (if g == guild then 1 else 0) + spawns guild log
spawns guild (_ ∷ log) = spawns guild log

-- The worker threads that were started for a guild are the leaves that came under way.
abbrev Balanced : {A : Type 0} → ℕ → Task → A → Task → Type 0
Balanced j t a u =
    spawns j u.log + pending (find j t.bot.guild_infos)
    ≡ spawns j t.log + pending (find j u.bot.guild_infos)

abbrev opened : Option ℕ → ℕ
opened none = 0
opened (some channel) = 1

abbrev Judged : ℕ → ℕ → Task → Option ℕ → Task → Type 0
Judged guild j t leave u =
    (u.log ≡ t.log)
    × (pending (find j u.bot.guild_infos)
        ≡ pending (find j t.bot.guild_infos) + (if guild == j then opened leave else 0))

judge_guild-Judged :
    (now : ℕ) (obs : VoiceObservation) (guild j : ℕ) (t : Task)
    → t.held ≡ []
    → Returns (Judged guild j t) (judge_guild now obs guild t)
unfolding judge_guild judge
judge_guild-Judged now obs guild j t h = elim (Option-cases (find guild t.bot.guild_infos)) [
  | inl e ↦ ground arith
  | inr (info, e) ↦
      ground (arith, find-update j guild (λ (i : GuildInfo). (judge now obs i).0) t.bot.guild_infos)
]

check_target-Balanced :
    (now guild shard j : ℕ) (t : Task)
    → t.held ≡ []
    → Returns (Balanced j t) (check_target now guild shard t)
unfolding check_target
check_target-Balanced now guild shard j t h =
    Returns-bind (Keeps t) (Balanced j t) (ensure_voice_seeded guild) _ t
      (ensure_voice_seeded-Keeps guild t h)
      λ _ u hu ku.
        Returns-bind (Keeps u) (Balanced j t) (observe_voice guild) _ u
          (observe_voice-Keeps guild u hu)
          λ obs v hv kv.
            Returns-bind (Judged guild j v) (Balanced j t) (judge_guild now obs guild) _ v
              (judge_guild-Judged now obs guild j v hv) λ leave w hw kw. ground arith

check_targets-Balanced :
    (now j : ℕ) (ts : List (ℕ × ℕ)) (t : Task)
    → t.held ≡ []
    → Returns (Balanced j t) (check_targets now ts t)
unfolding check_targets
check_targets-Balanced now j [] t h = (h, refl)
check_targets-Balanced now j ((guild, shard) ∷ ts) t h =
    Returns-bind (Balanced j t) (Balanced j t) (check_target now guild shard) _ t
      (check_target-Balanced now guild shard j t h)
      λ _ u hu bu. ground (arith, check_targets-Balanced now j ts u hu)

-- A pass over all guilds returns, without deadlock or exception, and starts a worker thread for a
-- guild once if its leave comes under way in this pass, and otherwise not at all: the number of
-- threads started is the change of its pending flag, taken as 0 or 1.
pub check_voice_channels_lem :
    (env : ℕ → Dpp) (b : Bot) (guild : ℕ)
    → Returns
        (λ _ t.
          spawns guild t.log + pending (find guild b.guild_infos)
          ≡ pending (find guild t.bot.guild_infos))
        (check_voice_channels (start env b))
unfolding check_voice_channels
check_voice_channels_lem env b guild = ground (
  arith,
  check_targets-Balanced (env 0).now guild (targets b.guild_infos)
      (record (start env b) { tick = 1 }) refl,
)
