-- ===== src/System/Notes.antt =====
-- The record of the last messages keeps its order.
use dpp_bot.Base.{ℕ}
use dpp_bot.Dict.Laws.{assign-IsOrdered}
use dpp_bot.Messages.{remember}
use dpp_bot.System.Sound.{Keeps}
use dpp_bot.Task.{modify}

pub remember-Keeps : (channel id : ℕ) → Keeps (modify (remember channel id))
remember-Keeps channel id = record {
  at = λ t h. record {
    balanced = h.balanced;
    unasked = h.unasked;
    awaited = h.awaited;
    covered = h.covered;
    infos_order = h.infos_order;
    messages_order = assign-IsOrdered channel id t.bot.last_bot_messages h.messages_order;
    occupancy_order = h.occupancy_order;
    seeded_order = h.seeded_order;
  };
}
