-- ===== src/System/Entries.antt =====
-- Writes to the entries of `guildInfos` keep the bot sound: an audio thread is counted where it
-- starts, and where the entry that holds it goes.
use dpp_bot.Base.{
  ℕ, ◌+◌, if◌then◌else◌, refl, ◌≡◌, true, false, Option, none, some, ◌∷◌, arith, inl, inr,
  Option-cases, Bool-cases, ◌==◌,
}
use dpp_bot.Dict.{Map, IsOrdered, find, update, erase}
use dpp_bot.Dict.Laws.{
  find-update, find-erase, find-emplace, erase-IsOrdered, emplace-IsOrdered, update-IsOrdered,
}
use dpp_bot.Guild.{GuildInfo, new_guild_info, move_guild_info}
use dpp_bot.Task.{
  Task, M, Outcome, join_player, deadlock, returns, is_held, on_info, modify_info, spawn_player,
  modify, guild_infos_mutex, ◌>>◌, done, call,
}
use dpp_bot.Connection.{
  put_guild, emplace_guild, destroy, drop_guild, erase_guild, start_audio_thread, launch,
}
use dpp_bot.System.Sound.{IsSound, Keeps, Leaves, spawned, joined, running, asked, pends, leaving}
use dpp_bot.System.Keeping.{Keeps-lock, keeps_rules}

-- The state differs in `guildInfos`, in the log and in what no law speaks of.
pub infos-IsSound :
    (t u : Task) (infos : Map GuildInfo)
    → u.bot ≡ (record t.bot { guild_infos = infos })
    → ((g : ℕ) → spawned g u.log ≡ joined g u.log + running (find g infos))
    → ((g : ℕ) → asked (find g infos) ≡ false)
    → ((g : ℕ) → pends (find g infos) ≡ true → leaving g u.log ≡ true)
    → IsOrdered infos
    → IsSound t
    → IsSound u
infos-IsSound t u infos e b a l o h = record {
  balanced = rw e b;
  unasked = rw e a;
  awaited = rw e l;
  covered = rw e h.covered;
  infos_order = rw e o;
  messages_order = rw e h.messages_order;
  occupancy_order = rw e h.occupancy_order;
  seeded_order = rw e h.seeded_order;
}

module _ (guild : ℕ) where
  -- A write to the entry with the call that goes with it: the handle changes as the call says.
  pub handed-IsSound :
      (t u : Task) (info : GuildInfo) (f : GuildInfo → GuildInfo)
      → find guild t.bot.guild_infos ≡ some info
      → u.bot ≡ on_info guild f t.bot
      → asked (some (f info)) ≡ false
      → (f info).leave_pending ≡ info.leave_pending
      → ((g : ℕ) → leaving g u.log ≡ leaving g t.log)
      → ((g : ℕ)
          → spawned g u.log + (joined g t.log + running (if guild == g then some info else none))
            ≡ joined g u.log
              + (spawned g t.log + running (if guild == g then some (f info) else none)))
      → IsSound t
      → IsSound u
  handed-IsSound t u info f p e a k l b h =
      infos-IsSound t u (update guild f t.bot.guild_infos) e
        (λ g. ground (arith, h.balanced g, b g, find-update g guild f t.bot.guild_infos))
        (λ g. ground (arith, h.unasked g, a, find-update g guild f t.bot.guild_infos))
        (λ g q. ground (arith, h.awaited g, k, l g, find-update g guild f t.bot.guild_infos))
        (update-IsOrdered guild f t.bot.guild_infos h.infos_order) h

  start_entry-Keeps :
      (t : Task) (o : Option GuildInfo)
      → find guild t.bot.guild_infos ≡ o
      → IsSound t
      → Leaves (
          elim o as (λ x. M (Unit {0})) [
            | none ↦ done
            | some info ↦
                if info.audio_thread
                then done
                else do modify_info guild launch; call (spawn_player guild)
          ]
            t)
  unfolding spawned joined leaving
  start_entry-Keeps t none e h = h
  start_entry-Keeps t (some info) e h = elim (Bool-cases info.audio_thread) [
    | inl p ↦ rw p h
    | inr p ↦
        rw p (handed-IsSound t _ info launch e refl refl refl (λ g. refl) (λ g. ground arith) h)
  ]

  pub start_audio_thread-Keeps : Keeps (start_audio_thread guild)
  unfolding start_audio_thread
  start_audio_thread-Keeps =
      Keeps-lock guild_infos_mutex _
        (record { at = λ t h. start_entry-Keeps t (find guild t.bot.guild_infos) refl h })

  -- The entry goes, and with it its thread, which is joined.
  dropped-IsSound :
      (t u : Task) (o : Option GuildInfo)
      → find guild t.bot.guild_infos ≡ o
      → u.bot ≡ drop_guild guild t.bot
      → ((g : ℕ) → spawned g u.log ≡ spawned g t.log)
      → ((g : ℕ) → leaving g u.log ≡ leaving g t.log)
      → ((g : ℕ) → joined g u.log ≡ joined g t.log + (if guild == g then running o else 0))
      → IsSound t
      → IsSound u
  dropped-IsSound t u o p e s l j h =
      infos-IsSound t u (erase guild t.bot.guild_infos) e
        (λ g. ground (arith, h.balanced g, s g, j g, find-erase g guild t.bot.guild_infos))
        (λ g. ground (arith, h.unasked g, find-erase g guild t.bot.guild_infos))
        (λ g q. ground (arith, h.awaited g, l g, find-erase g guild t.bot.guild_infos))
        (erase-IsOrdered guild t.bot.guild_infos h.infos_order) h

  -- The destructor of the entry that went.
  destroy-Keeps :
      (t : Task) (o : Option GuildInfo)
      → find guild t.bot.guild_infos ≡ o
      → IsSound t
      → Leaves (destroy guild o (record t { bot = drop_guild guild t.bot }))
  unfolding destroy spawned joined leaving
  destroy-Keeps t none e h =
      dropped-IsSound t _ none e refl (λ g. refl) (λ g. refl) (λ g. ground arith) h
  destroy-Keeps t (some info) e h = elim (Bool-cases info.audio_thread) [
    | inl q ↦
        rw q
          elim (is_held guild_infos_mutex t.held)
            as (λ b. Leaves (elim b as (λ x. Outcome (Unit {0})) [
              | true ↦ deadlock guild_infos_mutex
              | false ↦
                  returns tt
                    (record t { bot = drop_guild guild t.bot; log = join_player guild ∷ t.log })
            ])) [
              | true ↦ tt
              | false ↦
                  dropped-IsSound t _ (some info) e refl (λ g. refl) (λ g. refl) (λ g. ground arith)
                    h
            ]
    | inr q ↦
        rw q (dropped-IsSound t _ (some info) e refl (λ g. refl) (λ g. refl) (λ g. ground arith) h)
  ]

  pub erase_guild-Keeps : Keeps (erase_guild guild)
  unfolding erase_guild
  erase_guild-Keeps = record { at = λ t h. destroy-Keeps t (find guild t.bot.guild_infos) refl h }

put_guild-Keeps :
    (guild shard channel made moved : ℕ)
    → Keeps (modify (put_guild guild (move_guild_info (new_guild_info shard channel made) moved)))
unfolding new_guild_info move_guild_info
put_guild-Keeps guild shard channel made moved = record {
  at = λ t h. record {
    balanced = λ g. elim (Option-cases (find guild t.bot.guild_infos)) [
      | inl p ↦ ground (
        arith,
        h.balanced g,
        h.balanced guild,
        find-emplace g guild (move_guild_info (new_guild_info shard channel made) moved)
            t.bot.guild_infos,
      )
      | inr (info, p) ↦ ground (
        arith,
        h.balanced g,
        h.balanced guild,
        find-emplace g guild (move_guild_info (new_guild_info shard channel made) moved)
            t.bot.guild_infos,
      )
    ];
    unasked = λ g. elim (Option-cases (find guild t.bot.guild_infos)) [
      | inl p ↦ ground (
        arith,
        h.unasked g,
        find-emplace g guild (move_guild_info (new_guild_info shard channel made) moved)
            t.bot.guild_infos,
      )
      | inr (info, p) ↦ ground (
        arith,
        h.unasked g,
        find-emplace g guild (move_guild_info (new_guild_info shard channel made) moved)
            t.bot.guild_infos,
      )
    ];
    awaited = λ g q. elim (Option-cases (find guild t.bot.guild_infos)) [
      | inl p ↦ ground (
        arith,
        h.awaited g,
        find-emplace g guild (move_guild_info (new_guild_info shard channel made) moved)
            t.bot.guild_infos,
      )
      | inr (info, p) ↦ ground (
        arith,
        h.awaited g,
        find-emplace g guild (move_guild_info (new_guild_info shard channel made) moved)
            t.bot.guild_infos,
      )
    ];
    covered = h.covered;
    infos_order = emplace-IsOrdered guild _ t.bot.guild_infos h.infos_order;
    messages_order = h.messages_order;
    occupancy_order = h.occupancy_order;
    seeded_order = h.seeded_order;
  };
}

pub emplace_guild-Keeps : (guild shard channel : ℕ) → Keeps (emplace_guild guild shard channel)
unfolding emplace_guild
emplace_guild-Keeps guild shard channel = search (keeps_rules, put_guild-Keeps)
