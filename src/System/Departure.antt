-- ===== src/System/Departure.antt =====
-- From the event of the last person leaving to the bot's own leave: the voice handler, the timer's
-- passes and the worker thread.
mod Tests
use mathlib.Core.Option
use mathlib.Core.List.{map-append}
use dpp_bot.Base.{
  ℕ, ◌+◌, ◌≤◌, ◌≡◌, refl, sym, ap, subst, ◌∙◌, true, false, Option, none, some, List, [], ◌∷◌, ◌++◌,
  map, arith, All,
}
use dpp_bot.Dict.{Map, find, IsOrdered}
use dpp_bot.Dict.Laws.{find-erase}
use dpp_bot.Guild.{GuildInfo, VoiceObservation, seconds}
use dpp_bot.Task.{Task, Bot, Dpp, start}
use dpp_bot.Task.Endings.{Returns, Returns-map, Returns-both}
use dpp_bot.Voice.{VoiceState, observation, on_voice_state_update, check_voice_channels}
use dpp_bot.Voice.Observing.{IsEmpty, IsAlone, observation-IsEmpty_iff}
use dpp_bot.Voice.Grace.{Check, AllEmpty, checks, check_once}
use dpp_bot.Voice.Deadline.{long_empty_leaves}
use dpp_bot.Voice.Checking.{pending, spawns}
use dpp_bot.System.Passes.{
  AfterPasses, AfterPasses-map, Knows, Followed, passes-Followed, same_checks,
}
use dpp_bot.Voice.Passing.{Passed, check_voice_channels-Passed}
use dpp_bot.Voice.Watching.{IsWatched, check_voice_channels-Watches}
use dpp_bot.Voice.Departing.{Deserts, on_voice_state_update-IsAlone}
use dpp_bot.Connection.{leave_worker}
use dpp_bot.Connection.Leaving.{leave_voice_lem}
use dpp_bot.Messages.{send_bot_message}

-- What is seen of a channel that the bot is alone in.
abbrev pub deserted : VoiceObservation
deserted = record { known = true; bot_present = true; humans = 0 }

deserted_only : (obs : VoiceObservation) → IsEmpty obs → obs ≡ deserted
deserted_only obs e = ground (arith, e)

same_checks-AllEmpty : (envs : List (ℕ → Dpp)) → AllEmpty (same_checks deserted envs)
same_checks-AllEmpty [] = tt
same_checks-AllEmpty (env ∷ envs) = ((refl, refl, refl), same_checks-AllEmpty envs)

abbrev IsGone : ℕ → Bot → Type 0
IsGone guild b = (find guild b.guild_infos ≡ none) × (find guild b.voice_occupancy ≡ none)

leave_worker-IsGone :
    (env : ℕ → Dpp) (b : Bot) (guild shard channel : ℕ)
    → Returns (λ _ t. IsGone guild t.bot) (leave_worker guild shard channel (start env b))
unfolding leave_worker send_bot_message
leave_worker-IsGone env b guild shard channel = ground (
  arith,
  leave_voice_lem env b guild shard,
  find-erase guild guild b.guild_infos,
  find-erase guild guild b.voice_occupancy,
)

-- One worker was started, and it leaves the guild.
abbrev pub LeavesOnce : (ℕ → Dpp) → ℕ → ℕ → ℕ → ℕ → Bot → Type 0
LeavesOnce env guild shard channel n b =
    (n ≡ 1) × Returns (λ _ t. IsGone guild t.bot) (leave_worker guild shard channel (start env b))

-- If the bot knows of no person in its channel of a guild but the user of a voice event, who is not
-- there by that event, and no leave is under way, then the event's handler returns, and so does every
-- later pass of the check, as long as dpp gives the bot's number and no other method comes between.
-- If the last of the passes is at least ten seconds behind the first, exactly one worker was started
-- for the guild by then, and a worker returns, with the guild's entry and its occupancy gone. An entry
-- that is tracked already is so from no later than the first pass, and the guilds are in order.
pub deserted_leaves :
    (env env' first last : ℕ → Dpp) (recent : List (ℕ → Dpp)) (b : Bot) (me shard channel : ℕ)
    (st : VoiceState) (info : GuildInfo)
    → Deserts me st b
    → IsOrdered b.guild_infos
    → find st.guild_id b.guild_infos ≡ some info
    → info.leave_pending ≡ false
    → (info.empty_tracking ≡ true → info.empty_since ≤ (first 0).now)
    → Knows me (last ∷ (recent ++ first ∷ []))
    → (first 0).now + seconds 10 ≤ (last 0).now
    → Returns
        (λ _ t.
          AfterPasses st.guild_id
            (last ∷ (recent ++ first ∷ []))
            (LeavesOnce env' st.guild_id shard channel)
            t.bot)
        (on_voice_state_update st (start env b))
deserted_leaves env env' first last recent b me shard channel st info d o known calm tracked my
      late =
    let envs = last ∷ (recent ++ first ∷ []) in
    let leaves : (checks (same_checks deserted envs) info).leave_pending ≡ true =
      subst
        (λ (cs : List Check). (checks (((last 0).now, deserted) ∷ cs) info).leave_pending ≡ true)
        (sym (map-append _ recent (first ∷ [])))
        (long_empty_leaves (first 0).now (last 0).now deserted deserted
          (same_checks deserted recent) info (refl, refl, refl) (same_checks-AllEmpty recent)
          (refl, refl, refl) late tracked) in
    Returns-map (λ _ t. IsAlone me st.guild_id t.bot × (t.bot.guild_infos ≡ b.guild_infos)) _
      (λ _ t k.
        AfterPasses-map st.guild_id envs (Followed st.guild_id me (some k.0.0) deserted info envs)
          (LeavesOnce env' st.guild_id shard channel) t.bot
          (λ n c f. (
            ground (arith, f.1, calm, leaves),
            leave_worker-IsGone env' c st.guild_id shard channel,
          ))
          (passes-Followed st.guild_id me (some k.0.0) deserted envs info t.bot my (record {
            watched = record {
              has_members = k.0.4;
              is_seeded = k.0.3;
              in_order = subst (λ (m : Map GuildInfo). IsOrdered m) (sym k.1) o;
            };
            sees =
                deserted_only (observation me st.guild_id t.bot)
                  ((observation-IsEmpty_iff me st.guild_id t.bot).1 k.0);
            known = ap (find st.guild_id) k.1 ∙ known;
          })))
      (on_voice_state_update st (start env b)) (on_voice_state_update-IsAlone env b me st d)
