-- ===== src/Voice/Passing.antt =====
-- A whole pass of `CheckVoiceChannels` is a step of the grace period for each guild.
use mathlib.Core.Option
use dpp_bot.Base.{
  ℕ, ◌+◌, ◌≤◌, ◌≡◌, refl, Option, none, some, List, [], ◌∷◌, arith, inl, inr, Option-cases,
  Bool-cases, ◌==◌, if◌then◌else◌, ap, sym, ◌∙◌, true, subst, ==_iff, ◌⊎◌,
}
use dpp_bot.Dict.{Map, find, IsOrdered, Above}
use dpp_bot.Dict.Laws.{Above-IsOrdered}
use dpp_bot.Guild.{GuildInfo, VoiceObservation}
use dpp_bot.Task.{Task, Bot, Dpp, start}
use dpp_bot.Task.Endings.{Returns, Returns-bind, Returns-map, Returns-both}
use dpp_bot.Voice.{observation, check_target, check_targets, check_voice_channels, targets}
use dpp_bot.Voice.Grace.{check_once}
use dpp_bot.Voice.Checking.{pending, spawns, check_voice_channels_lem}
use dpp_bot.Voice.Refining.{Stepped, check_target-Stepped}
use dpp_bot.Voice.Untouched.{
  Untouched, Untouched-refl, Untouched-trans, observation_kept, check_target-Untouched,
}

-- How often a guild stands among the targets.
unfoldable occurs : ℕ → List (ℕ × ℕ) → ℕ
occurs j [] = 0
occurs j ((guild, shard) ∷ ts) = (if guild == j then 1 else 0) + occurs j ts

check_targets-Untouched :
    (now j : ℕ) (ts : List (ℕ × ℕ)) (t : Task)
    → occurs j ts ≡ 0
    → t.held ≡ []
    → Returns (λ _ u. Untouched j t u) (check_targets now ts t)
unfolding check_targets occurs
check_targets-Untouched now j [] t none_left h = (h, Untouched-refl j t)
check_targets-Untouched now j ((guild, shard) ∷ ts) t none_left h =
    Returns-bind (λ _ u. Untouched j t u) (λ _ u. Untouched j t u) (check_target now guild shard) _
      t (check_target-Untouched guild j (ground arith) now shard t h)
      λ _ u hu ku.
        Returns-map (λ _ v. Untouched j u v) (λ _ v. Untouched j t v)
          (λ _ v. Untouched-trans j t u v ku) (check_targets now ts u)
          (check_targets-Untouched now j ts u (ground arith) hu)

-- The entry of the guild `j` made a step of the grace period, on what the voice data at the end say.
abbrev pub Passed : ℕ → ℕ → (ℕ → Dpp) → Bot → Task → Type 0
Passed now j env b t =
    (n : ℕ) × (find j t.bot.guild_infos
      ≡ Option.map (check_once now (observation (env n).me_id j t.bot)) (find j b.guild_infos))

Passed-Untouched :
    (now j : ℕ) (env : ℕ → Dpp) (b : Bot) (t u : Task)
    → Untouched j t u
    → Passed now j env b t
    → Passed now j env b u
Passed-Untouched now j env b t u k (n, e) = (
  n,
  k.entry_kept
      ∙ e
      ∙ ap (λ (o : VoiceObservation). Option.map (check_once now o) (find j b.guild_infos))
          (sym (observation_kept (env n).me_id j t u k)),
)

hit_step :
    (now guild j : ℕ) (t u : Task)
    → (guild == j) ≡ true
    → Stepped now guild j t.env t.bot u
    → Passed now j t.env t.bot u
hit_step now guild j t u hit (n, e) =
    subst
      (λ (g : ℕ).
        find j u.bot.guild_infos ≡ (
          if guild == j
          then Option.map (check_once now (observation (t.env n).me_id g u.bot))
              (find g t.bot.guild_infos)
          else find j t.bot.guild_infos)
        → Passed now j t.env t.bot u)
      (sym ((==_iff guild j).0 hit)) (λ q. (n, ground (arith, q, hit))) e

moved_Passed :
    (now j : ℕ) (t u v : Task)
    → Untouched j t u
    → Passed now j u.env u.bot v
    → Passed now j t.env t.bot v
moved_Passed now j t u v k (n, e) = (
  n,
  e
      ∙ ap
          (λ (env : ℕ → Dpp).
            Option.map (check_once now (observation (env n).me_id j v.bot))
              (find j u.bot.guild_infos))
          k.env_kept
      ∙ ap (Option.map (check_once now (observation (t.env n).me_id j v.bot))) k.entry_kept,
)

check_targets-Passed :
    (now j : ℕ) (ts : List (ℕ × ℕ)) (t : Task)
    → occurs j ts ≡ 1
    → t.held ≡ []
    → Returns (λ _ u. Passed now j t.env t.bot u) (check_targets now ts t)
unfolding check_targets occurs
check_targets-Passed now j [] t once h = absurd (omega arith)
check_targets-Passed now j ((guild, shard) ∷ ts) t once h = elim (Bool-cases (guild == j)) [
  | inl hit ↦
      Returns-bind (λ _ u. Stepped now guild j t.env t.bot u) (λ _ u. Passed now j t.env t.bot u)
        (check_target now guild shard) _ t (check_target-Stepped now guild shard j t h)
        λ _ u hu s.
          Returns-map (λ _ v. Untouched j u v) (λ _ v. Passed now j t.env t.bot v)
            (λ _ v k. Passed-Untouched now j t.env t.bot u v k (hit_step now guild j t u hit s))
            (check_targets now ts u) (check_targets-Untouched now j ts u (ground arith) hu)
  | inr other ↦
      Returns-bind (λ _ u. Untouched j t u) (λ _ u. Passed now j t.env t.bot u)
        (check_target now guild shard) _ t (check_target-Untouched guild j other now shard t h)
        λ _ u hu k.
          Returns-map (λ _ v. Passed now j u.env u.bot v) (λ _ v. Passed now j t.env t.bot v)
            (λ _ v p. moved_Passed now j t u v k p) (check_targets now ts u)
            (check_targets-Passed now j ts u (ground arith) hu)
]

-- The targets hold a guild once if it has an entry and no leave under way, and otherwise not at all.
abbrev active : Option GuildInfo → ℕ
active none = 0
active (some info) = if info.leave_pending then 0 else 1

occurs_below :
    (n j : ℕ) (m : Map GuildInfo)
    → Above n m
    → j ≤ n
    → (find j m ≡ none) × (occurs j (targets m) ≡ 0)
unfolding find occurs targets
occurs_below n j [] a h = (refl, refl)
occurs_below n j ((k, info) ∷ m) a h = ground (arith, occurs_below k j m a.1)

occurs-targets :
    (j : ℕ) (m : Map GuildInfo) → IsOrdered m → occurs j (targets m) ≡ active (find j m)
unfolding find occurs targets
occurs-targets j [] a = refl
occurs-targets j ((k, info) ∷ m) a =
    ground (arith, occurs_below k j m a, occurs-targets j m (Above-IsOrdered k m a))

check_once-pending :
    (now : ℕ) (obs : VoiceObservation) (info : GuildInfo)
    → info.leave_pending ≡ true
    → check_once now obs info ≡ info
unfolding check_once
check_once-pending now obs info p = rw p refl

-- A guild that is passed over: it has no entry, or a leave is under way.
skipped-Passed :
    (now j : ℕ) (t u : Task)
    → active (find j t.bot.guild_infos) ≡ 0
    → Untouched j t u
    → Passed now j t.env t.bot u
skipped-Passed now j t u a k = elim (Option-cases (find j t.bot.guild_infos)) [
  | inl e ↦ (0, k.entry_kept ∙ ground (arith, e))
  | inr (info, e) ↦ (
    0,
    k.entry_kept
        ∙ ground (arith, e, check_once-pending now (observation (t.env 0).me_id j u.bot) info),
  )
]

targets-Passed :
    (now j : ℕ) (t : Task)
    → IsOrdered t.bot.guild_infos
    → t.held ≡ []
    → Returns (λ _ u. Passed now j t.env t.bot u) (check_targets now (targets t.bot.guild_infos) t)
targets-Passed now j t o h = elim (active-cases (find j t.bot.guild_infos)) [
  | inl a ↦
      Returns-map (λ _ u. Untouched j t u) (λ _ u. Passed now j t.env t.bot u)
        (λ _ u. skipped-Passed now j t u a) (check_targets now (targets t.bot.guild_infos) t)
        (check_targets-Untouched now j (targets t.bot.guild_infos) t
          (occurs-targets j t.bot.guild_infos o ∙ a) h)
  | inr a ↦
      check_targets-Passed now j (targets t.bot.guild_infos) t
        (occurs-targets j t.bot.guild_infos o ∙ a) h
]
  where
    active-cases : (e : Option GuildInfo) → (active e ≡ 0) ⊎ (active e ≡ 1)
    active-cases none = inl refl
    active-cases (some info) = elim (Bool-cases info.leave_pending) [
      | inl p ↦ inl (rw p refl)
      | inr p ↦ inr (rw p refl)
    ]

-- A pass over all guilds, whose map is in the order of its keys, returns with every lock released. It
-- makes one step of the grace period for each guild, at the time of the pass, on what the voice data
-- at its end say of the bot's channel there, with the bot's number as dpp gave it at one of its
-- answers; and it starts a worker thread for a guild once if its leave comes under way in this pass,
-- and otherwise not at all: the number of threads is the change of its pending flag, as 0 or 1.
pub check_voice_channels-Passed :
    (env : ℕ → Dpp) (b : Bot) (guild : ℕ)
    → IsOrdered b.guild_infos
    → Returns
        (λ _ t.
          Passed (env 0).now guild env b t
          × (spawns guild t.log + pending (find guild b.guild_infos)
              ≡ pending (find guild t.bot.guild_infos)))
        (check_voice_channels (start env b))
unfolding check_voice_channels
check_voice_channels-Passed env b guild o =
    Returns-both (λ _ t. Passed (env 0).now guild env b t) _ (check_voice_channels (start env b))
      (targets-Passed (env 0).now guild (record (start env b) { tick = 1 }) o refl)
      (check_voice_channels_lem env b guild)
