-- ===== src/Connection/Leaving.antt =====
-- Leaving a voice channel: what is cleaned up, and in which order.
use dpp_bot.Base.{
  ℕ, ◌≡◌, Bool, true, false, Option, none, some, List, [], ◌∷◌, ◌++◌, arith, inl, inr, Option-cases,
}
use dpp_bot.Dict.{find, update}
use dpp_bot.Dict.Laws.{find-update, erase-update}
use dpp_bot.Guild.{GuildInfo}
use dpp_bot.Task.{Bot, Dpp, Call, Shard, returns, start, join_player, disconnect_voice}
use dpp_bot.Voice.{forget}
use dpp_bot.Connection.{leave_voice, drop_guild, ask_stop, halt}

-- The audio thread of a guild, if it has one that can be joined.
abbrev pub has_thread : Option GuildInfo → Bool
has_thread none = false
has_thread (some info) = info.audio_thread

abbrev pub join_calls : ℕ → Bool → List Call
join_calls guild true = join_player guild ∷ []
join_calls guild false = []

abbrev pub disconnect_calls : ℕ → Option Shard → List Call
disconnect_calls guild none = []
disconnect_calls guild (some s) = disconnect_voice guild ∷ []

-- Leaving always ends, also when dpp throws, with no deadlock and every lock released. The audio
-- thread, if there is one, is joined before the voice connection is closed, and after it the guild
-- has no entry and nothing of its voice tracking is left.
pub leave_voice_lem :
    (env : ℕ → Dpp) (b : Bot) (guild shard : ℕ)
    → leave_voice guild shard (start env b)
      ≡ returns tt (record (start env (forget guild (drop_guild guild b))) {
        log =
            disconnect_calls guild ((env 0).get_shard shard)
            ++ join_calls guild (has_thread (find guild b.guild_infos));
        tick = 1;
      })
unfolding leave_voice
leave_voice_lem env b guild shard = elim (Option-cases (find guild b.guild_infos)) [
  | inl e ↦ ground arith
  | inr (info, e) ↦ ground (
    arith,
    find-update guild guild ask_stop b.guild_infos,
    find-update guild guild halt (update guild ask_stop b.guild_infos),
    erase-update guild ask_stop b.guild_infos,
    erase-update guild halt (update guild ask_stop b.guild_infos),
  )
]
