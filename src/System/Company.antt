-- ===== src/System/Company.antt =====
-- A person who comes into the bot's channel keeps the bot there: the voice handler and the passes of
-- the timer behind it.
mod Tests
use dpp_bot.Base.{ℕ, ◌<◌, ◌≡◌, refl, sym, ap, subst, ◌∙◌, true, false, some, List, [], ◌∷◌, arith}
use dpp_bot.Dict.{Map, find, contains, assign, IsOrdered}
use dpp_bot.Guild.{GuildInfo, VoiceObservation}
use dpp_bot.Task.{Bot, Dpp, start}
use dpp_bot.Task.Endings.{Returns, Returns-map}
use dpp_bot.Voice.{VoiceState, observation, on_voice_state_update}
use dpp_bot.Voice.Grace.{checks}
use dpp_bot.Voice.Company.{Joins, entry_of, on_voice_state_update-Joins, check_once_accompanied}
use dpp_bot.System.Passes.{
  AfterPasses, AfterPasses-map, Knows, Followed, passes-Followed, same_checks,
}

checks_accompanied :
    (envs : List (ℕ → Dpp)) (obs : VoiceObservation) (info : GuildInfo)
    → 0 < obs.humans
    → info.leave_pending ≡ false
    → (checks (same_checks obs envs) info).leave_pending ≡ false
unfolding checks
checks_accompanied [] obs info h p = p
checks_accompanied (env ∷ envs) obs info h p =
    (check_once_accompanied (env 0).now obs (checks (same_checks obs envs) info) h
      (checks_accompanied envs obs info h p)).0

last_accompanied :
    (env : ℕ → Dpp) (envs : List (ℕ → Dpp)) (obs : VoiceObservation) (info : GuildInfo)
    → 0 < obs.humans
    → info.leave_pending ≡ false
    → (checks (same_checks obs (env ∷ envs)) info).empty_tracking ≡ false
unfolding checks
last_accompanied env envs obs info h p =
    (check_once_accompanied (env 0).now obs (checks (same_checks obs envs) info) h
      (checks_accompanied envs obs info h p)).1

-- No worker was started; the guild has its entry, with no leave under way and no tracking.
abbrev pub StaysIn : ℕ → ℕ → Bot → Type 0
StaysIn guild n b =
    (n ≡ 0)
    × ((info : GuildInfo) × (find guild b.guild_infos ≡ some info)
        × (info.leave_pending ≡ false)
        × (info.empty_tracking ≡ false))

-- If a voice event tells of a person who is in the channel that the bot is known to be in, and the
-- guild's entry has no leave under way, however long its channel was empty, then the event's handler
-- returns, and so does every later pass of the check, at whatever times, as long as dpp gives the bot's
-- number and no other method comes between. After any number of passes, one at least, no worker was
-- started for the guild, its entry is there with no leave under way, and the grace period begins anew.
-- The guilds are in order.
pub company_stays :
    (env last : ℕ → Dpp) (earlier : List (ℕ → Dpp)) (b : Bot) (me : ℕ) (st : VoiceState)
    (info : GuildInfo)
    → Joins me st (env 0) b
    → IsOrdered b.guild_infos
    → find st.guild_id b.guild_infos ≡ some info
    → info.leave_pending ≡ false
    → Knows me (last ∷ earlier)
    → Returns
        (λ _ t. AfterPasses st.guild_id (last ∷ earlier) (StaysIn st.guild_id) t.bot)
        (on_voice_state_update st (start env b))
company_stays env last earlier b me st info j o known calm my =
    let members = some (assign st.user_id (entry_of st) j.members) in
    Returns-map
      (λ _ t.
        (find st.guild_id t.bot.voice_occupancy ≡ members)
        × (t.bot.seeded_voice_guilds ≡ b.seeded_voice_guilds)
        × (t.bot.guild_infos ≡ b.guild_infos)
        × (0 < (observation me st.guild_id t.bot).humans))
      _
      (λ _ t k.
        let obs = observation me st.guild_id t.bot in
        AfterPasses-map st.guild_id (last ∷ earlier)
          (Followed st.guild_id me members obs info (last ∷ earlier)) (StaysIn st.guild_id) t.bot
          (λ n c f.
            let p = checks_accompanied (last ∷ earlier) obs info k.3 calm in
            (
              ground (arith, f.1, calm, p),
              (
                checks (same_checks obs (last ∷ earlier)) info,
                f.0.known,
                p,
                last_accompanied last earlier obs info k.3 calm,
              ),
            ))
          (passes-Followed st.guild_id me members obs (last ∷ earlier) info t.bot my (record {
            watched = record {
              has_members = k.0;
              is_seeded = ap (contains st.guild_id) k.1 ∙ j.seen;
              in_order = subst (λ (m : Map GuildInfo). IsOrdered m) (sym k.2) o;
            };
            sees = refl;
            known = ap (find st.guild_id) k.2 ∙ known;
          })))
      (on_voice_state_update st (start env b)) (on_voice_state_update-Joins env b me st j)
