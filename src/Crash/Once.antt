-- ===== src/Crash/Once.antt =====
-- A process crashes once: one report_calls, as far as it comes, whatever crashes beside it or inside the
-- handler.
use dpp_bot.Base.{ℕ, ◌≡◌, Option, List, [], ◌++◌}
use dpp_bot.Text.{Text}
use dpp_bot.Crash.{Process, Turn, signal_comes, take_turn, take_turns, install_crash_handler}
use dpp_bot.Crash.Reports.{section_of, events_on, push_all, oldest}

-- The process behind the first signal and these turns.
abbrev pub crashed : Option ℕ → ℕ → Text → List Turn → Process → Process
crashed opened sig name ms p =
    take_turns ms (take_turn (signal_comes sig name) (install_crash_handler opened p))

-- What the descriptor has to get is what it got, with what the first handler has left to write.
abbrev pub Begun : ℕ → ℕ → Text → Process → Type 0
Begun fd sig name q =
    section_of fd sig name ≡ events_on fd (push_all (oldest q.running) []) ++ events_on fd q.events
