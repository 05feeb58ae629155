-- ===== src/Startup/Tests.antt =====
-- A configuration with a token, read twice, and a run with it.
use dpp_bot.Base.{◌≡◌, refl, false, Option, none, some, List, [], ◌∷◌, ◌↔◌}
use dpp_bot.Text.{Text, text}
use dpp_bot.Crash.{Process}
use dpp_bot.Startup.{Config, returned, main}
use dpp_bot.Startup.Reading.{ask, asked_once, get_token_lem, main_exit_iff, Succeeds, token_in}
use dpp_bot.Sample.Values.{values}

abbrev unread : Config values
unread = record { contents = values.null_json; loaded = false }

-- The file is missing, then there, then gone.
abbrev questions : List (Text × Option Text)
questions =
    (text "discord_token", none)
    ∷ (text "discord_token", some (text "config"))
    ∷ (text "discord_token", none)
    ∷ []

get_token_lem_example : ask values questions unread ≡ asked_once values questions
get_token_lem_example = get_token_lem values unread questions refl

abbrev started : Process
started = record {
  crash_log_fd = none;
  entered = false;
  handled = λ s. false;
  events = [];
  running = [];
  ended = false;
}

main_exit_iff_example :
    ((main values (λ token. returned tt) none (some (text "config")) started).0.0 ≡ 0)
    ↔ Succeeds
        (λ token. returned tt)
        (token_in values (text "discord_token") (some (text "config")))
main_exit_iff_example =
    main_exit_iff values (λ token. returned tt) none (some (text "config")) started
