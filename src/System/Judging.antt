-- ===== src/System/Judging.antt =====
-- The check of a guild keeps the bot sound: a leave that comes under way gets its thread.
use dpp_bot.Base.{
  ℕ, ◌≡◌, refl, sym, subst, true, false, if◌then◌else◌, none, some, ◌∷◌, arith, ◌==◌, inl, inr,
  Option-cases, Bool-cases,
}
use dpp_bot.Dict.{find, update}
use dpp_bot.Dict.Laws.{find-update, update-IsOrdered}
use dpp_bot.Guild.{GuildInfo, VoiceObservation}
use dpp_bot.Task.{Task, returns, deadlock, on_info, is_held, guild_infos_mutex, spawn_leave}
use dpp_bot.Voice.{judge, judge_guild}
use dpp_bot.System.Sound.{IsSound, Keeps, Leaves, spawned, joined, leaving, pends}
use dpp_bot.System.Entries.{infos-IsSound}
use dpp_bot.System.Rules.{judge_and_start}

-- The check does not touch the handle and the flag of the audio thread.
judge-audio_thread :
    (now : ℕ) (obs : VoiceObservation) (info : GuildInfo)
    → (judge now obs info).0.audio_thread ≡ info.audio_thread
unfolding judge
judge-audio_thread now obs info = ground arith

judge-should_stop :
    (now : ℕ) (obs : VoiceObservation) (info : GuildInfo)
    → (judge now obs info).0.should_stop ≡ info.should_stop
unfolding judge
judge-should_stop now obs info = ground arith

-- A leave comes under way only with the answer that its thread is to be started.
judge-leave_pending :
    (now : ℕ) (obs : VoiceObservation) (info : GuildInfo)
    → (judge now obs info).1 ≡ none
    → (judge now obs info).0.leave_pending ≡ info.leave_pending
unfolding judge
judge-leave_pending now obs info e = ground arith

module _ (now : ℕ) (obs : VoiceObservation) (guild shard : ℕ) where
  abbrev judged : Task → Task
  judged t = record t { bot = on_info guild (λ i. (judge now obs i).0) t.bot }

  judge_held :
      (t : Task)
      → is_held guild_infos_mutex t.held ≡ true
      → judge_and_start now obs guild shard t ≡ deadlock guild_infos_mutex
  unfolding judge_guild
  judge_held t p = ground arith

  judge_unknown :
      (t : Task)
      → is_held guild_infos_mutex t.held ≡ false
      → find guild t.bot.guild_infos ≡ none
      → judge_and_start now obs guild shard t ≡ returns tt t
  unfolding judge_guild
  judge_unknown t p e = ground arith

  judge_pending :
      (t : Task) (info : GuildInfo)
      → is_held guild_infos_mutex t.held ≡ false
      → find guild t.bot.guild_infos ≡ some info
      → info.leave_pending ≡ true
      → judge_and_start now obs guild shard t ≡ returns tt t
  unfolding judge_guild
  judge_pending t info p e q = ground arith

  judge_waits :
      (t : Task) (info : GuildInfo)
      → is_held guild_infos_mutex t.held ≡ false
      → find guild t.bot.guild_infos ≡ some info
      → info.leave_pending ≡ false
      → (judge now obs info).1 ≡ none
      → judge_and_start now obs guild shard t ≡ returns tt (judged t)
  unfolding judge_guild
  judge_waits t info p e q r = ground arith

  judge_leaves :
      (t : Task) (info : GuildInfo) (channel : ℕ)
      → is_held guild_infos_mutex t.held ≡ false
      → find guild t.bot.guild_infos ≡ some info
      → info.leave_pending ≡ false
      → (judge now obs info).1 ≡ some channel
      → judge_and_start now obs guild shard t
        ≡ returns tt (record (judged t) { log = spawn_leave guild shard channel ∷ t.log })
  unfolding judge_guild
  judge_leaves t info channel p e q r = ground arith

  -- The entry is judged, and the log may tell of the thread that leaves.
  judged-IsSound :
      (t u : Task) (info : GuildInfo)
      → find guild t.bot.guild_infos ≡ some info
      → u.bot ≡ (judged t).bot
      → ((g : ℕ) → spawned g u.log ≡ spawned g t.log)
      → ((g : ℕ) → joined g u.log ≡ joined g t.log)
      → ((g : ℕ)
          → pends (if guild == g then some (judge now obs info).0 else find g t.bot.guild_infos)
            ≡ true
          → leaving g u.log ≡ true)
      → IsSound t
      → IsSound u
  judged-IsSound t u info p e s j l h =
      let f = λ (i : GuildInfo). (judge now obs i).0 in
      infos-IsSound t u (update guild f t.bot.guild_infos) e
        (λ g. ground (
          arith,
          h.balanced g,
          s g,
          j g,
          find-update g guild f t.bot.guild_infos,
          judge-audio_thread now obs info,
        ))
        (λ g. ground (
          arith,
          h.unasked g,
          find-update g guild f t.bot.guild_infos,
          judge-audio_thread now obs info,
          judge-should_stop now obs info,
        ))
        (λ g q. ground (arith, l g, find-update g guild f t.bot.guild_infos))
        (update-IsOrdered guild f t.bot.guild_infos h.infos_order) h

  judged-Leaves :
      (t : Task) (info : GuildInfo)
      → is_held guild_infos_mutex t.held ≡ false
      → find guild t.bot.guild_infos ≡ some info
      → info.leave_pending ≡ false
      → IsSound t
      → Leaves (judge_and_start now obs guild shard t)
  unfolding spawned joined leaving
  judged-Leaves t info p e q h = elim (Option-cases (judge now obs info).1) [
    | inl r ↦ subst Leaves (sym (judge_waits t info p e q r)) (
        judged-IsSound t (judged t) info e refl (λ g. refl) (λ g. refl)
          (λ g k. ground (arith, h.awaited g, judge-leave_pending now obs info r)) h)
    | inr (channel, r) ↦ subst Leaves (sym (judge_leaves t info channel p e q r)) (
        judged-IsSound t _ info e refl (λ g. refl) (λ g. refl) (λ g k. ground (arith, h.awaited g))
          h)
  ]

  pub judge_and_start-Keeps : Keeps (judge_and_start now obs guild shard)
  judge_and_start-Keeps = record {
    at = λ t h. elim (Bool-cases (is_held guild_infos_mutex t.held)) [
      | inl p ↦ subst Leaves (sym (judge_held t p)) tt
      | inr p ↦ elim (Option-cases (find guild t.bot.guild_infos)) [
        | inl e ↦ subst Leaves (sym (judge_unknown t p e)) h
        | inr (info, e) ↦ elim (Bool-cases info.leave_pending) [
          | inl q ↦ subst Leaves (sym (judge_pending t info p e q)) h
          | inr q ↦ judged-Leaves t info p e q h
        ]
      ]
    ];
  }
