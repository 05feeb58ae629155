-- ===== src/Player/Safety.antt =====
-- A round of the audio thread keeps its pointer good and closes what it opens, as long as the other
-- threads keep the entry.
use dpp_bot.Base.{ℕ, suc, ◌+◌, ◌≡◌, ◌⊎◌, true, Option, some, [], arith, inl, inr, Option-cases}
use mathlib.Core.Logic.{⊎_elim}
use dpp_bot.Text.{Text}
use dpp_bot.Dict.{find, contains}
use dpp_bot.Task.{Task, Bot, Outcome, returns, throws, deadlock, fault}
use dpp_bot.Task.Endings.{Returns}
use dpp_bot.Player.{Round, exits, starves, look_up, own_shard, with_shard, play_round}
use dpp_bot.Player.Disturbed.{has_entry}
use dpp_bot.Player.Staying.{opened, closed}
use dpp_bot.Player.Finishing.{Finish, with_shard-Finish}

-- The player exits, or it found the entry, which is there for its next round; every stream is closed,
-- unless the fuel ran out in the middle of a song. `b` is the bot at the first look-up.
abbrev pub Continues : ℕ → Bot → Round → Task → Type 0
Continues guild b round t =
    ((round ≡ exits) ⊎ ((has_entry guild b ≡ true) × (has_entry guild t.bot ≡ true)))
    × ((round ≡ starves) ⊎ (opened t.log ≡ closed t.log))

Finish-Continues :
    (guild : ℕ) (b : Bot) (o : Outcome Round)
    → has_entry guild b ≡ true
    → Finish guild o
    → Returns (Continues guild b) o
Finish-Continues guild b (returns r t) e h = (
  h.0,
  (inr (e, h.1), ⊎_elim inl (λ (p : opened t.log ≡ 0 + closed t.log). inr (omega arith)) h.2),
)
Finish-Continues guild b (throws e t) g h = absurd h
Finish-Continues guild b (deadlock m) g h = absurd h
Finish-Continues guild b fault g h = absurd h

pub play_round_safe :
    (files : Text → Option ℕ) (others : ℕ → Bot → Bot) (polls fuel guild : ℕ) (t : Task)
    → ((i : ℕ) (b : Bot) → has_entry guild b ≡ true → has_entry guild (others i b) ≡ true)
    → t.held ≡ []
    → opened t.log ≡ closed t.log
    → Returns (Continues guild (others t.tick t.bot)) (play_round files others polls fuel guild t)
unfolding play_round look_up own_shard with_shard contains
play_round_safe files others polls fuel guild t keeps h o =
    let b = others t.tick t.bot in
    let c = others (suc t.tick) b in
    elim (Option-cases (find guild b.guild_infos)) [
      | inl p ↦ ground arith
      | inr (info, p) ↦ elim (Option-cases (find guild c.guild_infos)) [
        | inl q ↦ absurd (ground (arith, keeps (suc t.tick) b))
        | inr (now, q) ↦
            let u = record t { bot = c; tick = suc (suc t.tick) } in
            ground (
              arith,
              Finish-Continues guild b
                  (with_shard files others polls fuel guild (some now.shard_id) u) (ground arith)
                  (with_shard-Finish files others polls fuel guild keeps now.shard_id u h
                    (ground arith) (omega arith)),
            )
      ]
    ]
