-- ===== src/System/Sound.antt =====
-- What holds of the bot and the log between two methods, and the methods that keep it.
use dpp_bot.Base.{
  ℕ, suc, ◌+◌, ◌≡◌, Bool, true, false, Option, none, some, List, [], ◌∷◌, arith, ◌==◌, ◌&&◌, ◌||◌,
  ◌∙◌, if◌then◌else◌,
}
use dpp_bot.Dict.{find, contains, IsOrdered}
use dpp_bot.Guild.{GuildInfo}
use dpp_bot.Task.{
  M, Task, Call, Outcome, returns, throws, deadlock, fault, spawn_player, join_player, spawn_leave,
}

-- How many audio threads of a guild the calls of a log start, and join.
unfoldable pub spawned : ℕ → List Call → ℕ
spawned g [] = 0
spawned g (spawn_player h ∷ log) = let n = spawned g log in if h == g then suc n else n
spawned g (c ∷ log) = spawned g log

unfoldable pub joined : ℕ → List Call → ℕ
joined g [] = 0
joined g (join_player h ∷ log) = let n = joined g log in if h == g then suc n else n
joined g (c ∷ log) = joined g log

-- A thread was started to leave the guild.
unfoldable pub leaving : ℕ → List Call → Bool
leaving g [] = false
leaving g (spawn_leave h shard channel ∷ log) = h == g || leaving g log
leaving g (c ∷ log) = leaving g log

-- How many audio threads an entry has.
abbrev pub running : Option GuildInfo → ℕ
running none = 0
running (some info) = if info.audio_thread then 1 else 0

-- An entry whose audio thread is asked to stop and is not joined yet.
abbrev pub asked : Option GuildInfo → Bool
asked none = false
asked (some info) = info.audio_thread && info.should_stop

-- An entry with a leave under way.
abbrev pub pends : Option GuildInfo → Bool
pends none = false
pends (some info) = info.leave_pending

-- The audio threads of each guild that were started are those that were joined and the one of its
-- entry, which is not asked to stop; a leave under way has its thread; a guild whose snapshot is
-- taken has its occupancy; the maps are in order.
pub record IsSound (t : Task) : Type 0 where
  pub balanced : (g : ℕ) → spawned g t.log ≡ joined g t.log + running (find g t.bot.guild_infos)
  pub unasked : (g : ℕ) → asked (find g t.bot.guild_infos) ≡ false
  pub awaited : (g : ℕ) → pends (find g t.bot.guild_infos) ≡ true → leaving g t.log ≡ true
  pub covered :
      (g : ℕ)
      → contains g t.bot.seeded_voice_guilds ≡ true
      → contains g t.bot.voice_occupancy ≡ true
  pub infos_order : IsOrdered t.bot.guild_infos
  pub messages_order : IsOrdered t.bot.last_bot_messages
  pub occupancy_order : IsOrdered t.bot.voice_occupancy
  pub seeded_order : IsOrdered t.bot.seeded_voice_guilds

-- An outcome that leaves a sound state; of a deadlock or a fault nothing is asked.
abbrev pub Leaves : {A : Type 0} → Outcome A → Type 0
Leaves (returns a t) = IsSound t
Leaves (throws e t) = IsSound t
Leaves (deadlock m) = Unit {0}
Leaves fault = Unit {0}

pub record Keeps {A : Type 0} (m : M A) : Type 0 where
  pub at : (t : Task) → IsSound t → Leaves (m t)

-- The state differs only in the locks, the answers and the calls that start and join no thread.
pub same-IsSound :
    (t u : Task)
    → u.bot ≡ t.bot
    → ((g : ℕ) → spawned g u.log ≡ spawned g t.log)
    → ((g : ℕ) → joined g u.log ≡ joined g t.log)
    → ((g : ℕ) → leaving g u.log ≡ leaving g t.log)
    → IsSound t
    → IsSound u
same-IsSound t u e s j l h = record {
  balanced = λ g. ground (arith, s g, j g, h.balanced g);
  unasked = rw e h.unasked;
  awaited = rw e (λ g p. l g ∙ h.awaited g p);
  covered = λ g. rw e (h.covered g);
  infos_order = rw e h.infos_order;
  messages_order = rw e h.messages_order;
  occupancy_order = rw e h.occupancy_order;
  seeded_order = rw e h.seeded_order;
}
