-- ===== src/Crash/Tests.antt =====
-- A segmentation fault, and an abort inside its handler, when the header is out.
use dpp_bot.Base.{false, none, List, [], ◌∷◌}
use dpp_bot.Text.{text}
use dpp_bot.Crash.{Process, Turn, signal_comes, handler_goes_on, sigabrt}

abbrev fresh : Process
fresh = record {
  crash_log_fd = none;
  entered = false;
  handled = λ s. false;
  events = [];
  running = [];
  ended = false;
}

abbrev second : List Turn
second =
    handler_goes_on 0
    ∷ handler_goes_on 0
    ∷ signal_comes sigabrt (text "player")
    ∷ handler_goes_on 0
    ∷ handler_goes_on 0
    ∷ []
