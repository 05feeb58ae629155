-- ===== src/System/Company/Tests.antt =====
-- User 6 comes into channel 40 of guild 7, where the bot is tracked as alone for long.
use dpp_bot.Base.{ℕ, ◌+◌, ◌≡◌, refl, true, some, [], ◌∷◌, arith}
use dpp_bot.Dict.{find, contains}
use dpp_bot.Guild.{GuildInfo, seconds}
use dpp_bot.Task.{Bot, Dpp, start}
use dpp_bot.Task.Endings.{Returns}
use dpp_bot.Voice.{VoiceState, on_voice_state_update}
use dpp_bot.Voice.Company.{Joins}
use dpp_bot.System.Passes.{AfterPasses}
use dpp_bot.System.Company.{StaysIn, company_stays}
use dpp_bot.Sample.{discord, two_guilds, playing_info, occupied}

abbrev tracked_info : GuildInfo
tracked_info = record playing_info { empty_tracking = true; empty_since = seconds 80 }

abbrev tracked : Bot
tracked = record two_guilds { guild_infos = (7, tracked_info) ∷ [] }

abbrev coming : VoiceState
coming = record { guild_id = 7; user_id = 6; channel_id = 40 }

abbrev later : ℕ → ℕ → Dpp
later n k = record (discord k) { now = seconds (100 + n) }

joins : Joins 1 coming (discord 0) tracked
unfolding contains find
joins = record {
  members = occupied;
  self = record { channel_id = 40; is_bot = true };
  has_number = omega arith;
  of_guild = omega arith;
  of_user = omega arith;
  of_another = omega arith;
  in_a_channel = omega arith;
  with_bot = refl;
  of_person = refl;
  seen = refl;
  found = refl;
  here = refl;
}

tracked_known : find 7 tracked.guild_infos ≡ some tracked_info
unfolding find
tracked_known = refl

-- Passes after one and after sixty seconds.
company_stays_example :
    Returns
      (λ _ t. AfterPasses 7 (later 60 ∷ later 1 ∷ []) (StaysIn 7) t.bot)
      (on_voice_state_update coming (start discord tracked))
company_stays_example =
    company_stays discord (later 60) (later 1 ∷ []) tracked 1 coming tracked_info joins tt
      tracked_known refl ((λ n. refl), ((λ n. refl), tt))
