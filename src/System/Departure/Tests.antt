-- ===== src/System/Departure/Tests.antt =====
-- User 5 leaves channel 40 of guild 7, and the bot follows.
use dpp_bot.Base.{◌++◌, arith, some, ◌+◌, inl, inr, true, ℕ, ◌≡◌, refl, [], ◌∷◌}
use dpp_bot.Guild.{seconds}
use dpp_bot.Task.{Dpp, start}
use dpp_bot.Task.Endings.{Returns}
use dpp_bot.System.Passes.{AfterPasses}
use dpp_bot.System.Departure.{LeavesOnce, deserted_leaves}
use dpp_bot.Voice.{VoiceState, on_voice_state_update}
use dpp_bot.Voice.Departing.{Deserts}
use dpp_bot.Sample.{occupied, playing_info, discord, two_guilds}
use dpp_bot.Dict.{find, contains}

seven_known : find 7 two_guilds.guild_infos ≡ some playing_info
unfolding find
seven_known = refl

-- Dpp's answers that many seconds after those of the sample.
abbrev later : ℕ → ℕ → Dpp
later n k = record (discord k) { now = seconds (100 + n) }

-- User 5 leaves channel 40 of guild 7, where the bot, user 1, stays.
abbrev leaving : VoiceState
leaving = record { guild_id = 7; user_id = 5; channel_id = 0 }

deserts : Deserts 1 leaving two_guilds
unfolding contains find
deserts = record {
  members = occupied;
  self = record { channel_id = 40; is_bot = true };
  has_number = omega arith;
  of_guild = omega arith;
  of_user = omega arith;
  of_another = omega arith;
  elsewhere = omega arith;
  seen = refl;
  found = refl;
  in_order = omega arith;
  here = refl;
  nobody_else = (inr (inl refl), (inl refl, (inr (inr (inr (omega arith))), tt)));
}

-- Passes after one, six and eleven seconds.
deserted_leaves_example :
    Returns
      (λ _ t.
        AfterPasses 7
          (later 11 ∷ ((later 6 ∷ []) ++ later 1 ∷ []))
          (LeavesOnce discord 7 0 3)
          t.bot)
      (on_voice_state_update leaving (start discord two_guilds))
deserted_leaves_example =
    deserted_leaves discord discord (later 1) (later 11) (later 6 ∷ []) two_guilds 1 0 3 leaving
      playing_info deserts (omega arith) seven_known refl (λ h. ground arith)
      ((λ n. refl), ((λ n. refl), ((λ n. refl), tt))) (omega arith)
