-- ===== src/System/Stopping.antt =====
-- Stopping the audio thread keeps the bot sound, also when it was asked to stop before.
use dpp_bot.Base.{
  ℕ, if◌then◌else◌, refl, ap, sym, subst, ◌≡◌, true, false, none, some, ◌∷◌, arith, inl, inr,
  Option-cases, Bool-cases,
}
use dpp_bot.Dict.{find}
use dpp_bot.Dict.Laws.{find-update, update-update}
use dpp_bot.Guild.{GuildInfo}
use dpp_bot.Task.{Task, M, join_player, deadlock, returns, is_held, on_info, guild_infos_mutex}
use dpp_bot.Connection.{stop_audio_thread, halt, ask_stop}
use dpp_bot.System.Sound.{IsSound, Keeps, Leaves, spawned, joined, leaving}
use dpp_bot.System.Entries.{handed-IsSound}
use dpp_bot.System.Rules.{ask_and_stop}

module _ (guild : ℕ) where
  -- What `StopAudioThread` comes to, under the mutex, with no entry, and with one.
  stop_held :
      (t : Task)
      → is_held guild_infos_mutex t.held ≡ true
      → stop_audio_thread guild t ≡ deadlock guild_infos_mutex
  unfolding stop_audio_thread
  stop_held t p = ground arith

  stop_unknown :
      (t : Task)
      → is_held guild_infos_mutex t.held ≡ false
      → find guild t.bot.guild_infos ≡ none
      → stop_audio_thread guild t ≡ returns tt t
  unfolding stop_audio_thread
  stop_unknown t p e = ground arith

  stop_known :
      (t : Task) (info : GuildInfo)
      → is_held guild_infos_mutex t.held ≡ false
      → find guild t.bot.guild_infos ≡ some info
      → stop_audio_thread guild t
        ≡ returns tt (record t {
          bot = on_info guild halt t.bot;
          log = if info.audio_thread then join_player guild ∷ t.log else t.log;
        })
  unfolding stop_audio_thread
  stop_known t info p e = ground arith

  halted-IsSound :
      (t : Task) (info : GuildInfo)
      → find guild t.bot.guild_infos ≡ some info
      → IsSound t
      → IsSound (record t {
        bot = on_info guild halt t.bot;
        log = if info.audio_thread then join_player guild ∷ t.log else t.log;
      })
  unfolding spawned joined leaving
  halted-IsSound t info e h =
      handed-IsSound guild t _ info halt e refl refl refl (λ g. ground arith) (λ g. ground arith) h

  pub stop_audio_thread-Keeps : Keeps (stop_audio_thread guild)
  stop_audio_thread-Keeps = record {
    at = λ t h. elim (Bool-cases (is_held guild_infos_mutex t.held)) [
      | inl p ↦ rw (stop_held t p) tt
      | inr p ↦ elim (Option-cases (find guild t.bot.guild_infos)) [
        | inl e ↦ rw (stop_unknown t p e) h
        | inr (info, e) ↦ rw (stop_known t info p e) (halted-IsSound t info e h)
      ]
    ];
  }

  -- A thread that is asked to stop first, and joined then, is one that is only stopped.
  stopped-IsSound :
      (t : Task) (info : GuildInfo)
      → find guild t.bot.guild_infos ≡ some info
      → IsSound t
      → IsSound (record t {
        bot = on_info guild halt (on_info guild ask_stop t.bot);
        log = if info.audio_thread then join_player guild ∷ t.log else t.log;
      })
  unfolding spawned joined leaving
  stopped-IsSound t info e h =
      handed-IsSound guild t _ info halt e
        (ap (λ m. record t.bot { guild_infos = m })
          (update-update guild ask_stop halt t.bot.guild_infos))
        refl refl (λ g. ground arith) (λ g. ground arith) h

  ask_held :
      (t : Task) (k : M (Unit {0}))
      → is_held guild_infos_mutex t.held ≡ true
      → ask_and_stop guild k t ≡ deadlock guild_infos_mutex
  ask_held t k p = ground arith

  ask_unknown :
      (t : Task) (k : M (Unit {0}))
      → is_held guild_infos_mutex t.held ≡ false
      → find guild t.bot.guild_infos ≡ none
      → ask_and_stop guild k t ≡ k t
  ask_unknown t k p e = ground (arith, stop_unknown t p e)

  ask_known :
      (t : Task) (info : GuildInfo) (k : M (Unit {0}))
      → is_held guild_infos_mutex t.held ≡ false
      → find guild t.bot.guild_infos ≡ some info
      → ask_and_stop guild k t
        ≡ k (record t {
          bot = on_info guild halt (on_info guild ask_stop t.bot);
          log = if info.audio_thread then join_player guild ∷ t.log else t.log;
        })
  unfolding stop_audio_thread
  ask_known t info k p e = ground (arith, find-update guild guild ask_stop t.bot.guild_infos)

  pub stopped-Keeps : (k : M (Unit {0})) → Keeps k → Keeps (ask_and_stop guild k)
  stopped-Keeps k c = record {
    at = λ t h. elim (Bool-cases (is_held guild_infos_mutex t.held)) [
      | inl p ↦ subst Leaves (sym (ask_held t k p)) tt
      | inr p ↦ elim (Option-cases (find guild t.bot.guild_infos)) [
        | inl e ↦ subst Leaves (sym (ask_unknown t k p e)) (c.at t h)
        | inr (info, e) ↦
            subst Leaves (sym (ask_known t info k p e)) (c.at _ (stopped-IsSound t info e h))
      ]
    ];
  }
