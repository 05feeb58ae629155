-- ===== src/Connection/Ensuring.antt =====
-- `EnsureGuildInfo`: there is an entry afterwards, the old one if there was one.
use dpp_bot.Base.{
  ℕ, suc, ◌≡◌, refl, Option, none, some, List, [], arith, inl, inr, Option-cases, ◌≢◌,
}
use dpp_bot.Dict.{find}
use dpp_bot.Dict.Laws.{find-emplace}
use dpp_bot.Guild.{GuildInfo, VideoDbInfo, new_guild_info, move_guild_info}
use dpp_bot.Task.{Task, returns}
use dpp_bot.Connection.{ensure_guild_info, voice_of, channel_of, put_guild}
use dpp_bot.Connection.Leaving.{has_thread}

abbrev pub videos_of : Option GuildInfo → List VideoDbInfo
videos_of none = []
videos_of (some info) = info.video_lists

-- What is known behind the call, also of another guild `j`.
pub record Ensured (guild shard j : ℕ) (t : Task) : Type 0 where
  pub after : Task
  pub info : GuildInfo
  pub ran : ensure_guild_info guild shard t ≡ returns tt after
  pub held_kept : after.held ≡ t.held
  pub log_kept : after.log ≡ t.log
  pub messages_kept : after.bot.last_bot_messages ≡ t.bot.last_bot_messages
  pub found : find guild after.bot.guild_infos ≡ some info
  pub thread_kept : info.audio_thread ≡ has_thread (find guild t.bot.guild_infos)
  pub videos_kept : info.video_lists ≡ videos_of (find guild t.bot.guild_infos)
  pub others_kept : j ≢ guild → find j after.bot.guild_infos ≡ find j t.bot.guild_infos

-- The task behind `emplace_guild`, asked for from `t`.
abbrev placed : ℕ → ℕ → ℕ → Task → Task
placed guild shard channel t = record t {
  bot =
      put_guild guild
        (move_guild_info (new_guild_info shard channel (t.env t.tick).now) (t.env (suc t.tick)).now)
        t.bot;
  tick = suc (suc t.tick);
}

emplaced :
    (guild shard channel j : ℕ) (t : Task)
    → find guild t.bot.guild_infos ≡ none
    → ensure_guild_info guild shard t
      ≡ returns tt (placed guild shard channel (record t { tick = suc t.tick }))
    → Ensured guild shard j t
unfolding new_guild_info move_guild_info
emplaced guild shard channel j t e ran =
    let u = record t { tick = suc t.tick } in
    let fresh =
      move_guild_info (new_guild_info shard channel (t.env (suc t.tick)).now)
        (t.env (suc (suc t.tick))).now in
    record {
      after = placed guild shard channel u;
      info = fresh;
      ran = ran;
      held_kept = refl;
      log_kept = refl;
      messages_kept = refl;
      found = ground (arith, find-emplace guild guild fresh t.bot.guild_infos);
      thread_kept = rw e;
      videos_kept = rw e;
      others_kept = λ ne. ground (arith, find-emplace j guild fresh t.bot.guild_infos);
    }

pub ensure-Ensured : (guild shard j : ℕ) (t : Task) → Ensured guild shard j t
unfolding ensure_guild_info
ensure-Ensured guild shard j t = elim (Option-cases (find guild t.bot.guild_infos)) [
  | inr (info, e) ↦ record {
    after = t;
    info = info;
    ran = ground arith;
    held_kept = refl;
    log_kept = refl;
    messages_kept = refl;
    found = e;
    thread_kept = rw e;
    videos_kept = rw e;
    others_kept = λ ne. refl;
  }
  | inl e ↦ elim (Option-cases (voice_of ((t.env t.tick).get_shard shard) guild)) [
    | inl v ↦ emplaced guild shard 0 j t e (ground arith)
    | inr (vconn, v) ↦ emplaced guild shard (channel_of vconn) j t e (ground arith)
  ]
]
