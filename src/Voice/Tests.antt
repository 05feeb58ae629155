-- ===== src/Voice/Tests.antt =====
-- Checks of a guild's voice channel at concrete times, and the count in a concrete channel.
use dpp_bot.Base.{◌+◌, ◌≡◌, refl, true, List, [], ◌∷◌, arith, ◌↔◌, false}
use dpp_bot.Dict.{find, contains, IsOrdered}
use dpp_bot.Voice.Seeding.{channel_known, known_or, channel_in, ensure_voice_seeded_lem}
use dpp_bot.Voice.{ensure_voice_seeded, check_voice_channels, observation, judge}
use dpp_bot.Task.{DppGuild, start}
use dpp_bot.Guild.{seconds}
use dpp_bot.Task.Endings.{Returns}
use dpp_bot.Voice.Grace.{Check, checks, check_once, LongEmpty, leave_needs_long_empty}
use dpp_bot.Voice.Checking.{pending, spawns}
use dpp_bot.Voice.Passing.{Passed, check_voice_channels-Passed}
use dpp_bot.Voice.Observing.{IsEmpty, IsAlone, observation-IsEmpty_iff}
use dpp_bot.Voice.Occupancy.{member}
use dpp_bot.Sample.{discord, two_guilds, playing_info, alone}

-- Empty at 100, at 105 and at 110 seconds.
abbrev three_checks : List Check
three_checks = (seconds 110, alone) ∷ (seconds 105, alone) ∷ (seconds 100, alone) ∷ []

left : (checks three_checks playing_info).leave_pending ≡ true
unfolding checks check_once judge
left = refl

leave_needs_long_empty_example : LongEmpty three_checks
leave_needs_long_empty_example = leave_needs_long_empty three_checks playing_info refl refl left

two_guilds-IsOrdered : IsOrdered two_guilds.guild_infos
two_guilds-IsOrdered = omega arith

check_voice_channels-Passed_example :
    Returns
      (λ _ t.
        Passed (seconds 100) 7 discord two_guilds t
        × (spawns 7 t.log + pending (find 7 two_guilds.guild_infos)
            ≡ pending (find 7 t.bot.guild_infos)))
      (check_voice_channels (start discord two_guilds))
check_voice_channels-Passed_example =
    check_voice_channels-Passed discord two_guilds 7 two_guilds-IsOrdered

observation-IsEmpty_iff_example : IsEmpty (observation 1 7 two_guilds) ↔ IsAlone 1 7 two_guilds
observation-IsEmpty_iff_example = observation-IsEmpty_iff 1 7 two_guilds

not_seen : contains 8 two_guilds.seeded_voice_guilds ≡ false
unfolding contains find
not_seen = refl

abbrev cached : DppGuild
cached = record { voice_members = (1, 40) ∷ (5, 40) ∷ [] }

ensure_voice_seeded_lem_example :
    Returns
      (λ _ t.
        (channel_known (member 8 5 t.bot)
          ≡ known_or (channel_known (member 8 5 two_guilds)) (channel_in 5 cached.voice_members))
        × (contains 8 t.bot.seeded_voice_guilds ≡ true))
      (ensure_voice_seeded 8 (start discord two_guilds))
ensure_voice_seeded_lem_example =
    ensure_voice_seeded_lem discord two_guilds 8 5 cached not_seen refl
