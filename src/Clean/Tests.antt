-- ===== src/Clean/Tests.antt =====
-- A cleaning of a channel with three messages.
use dpp_bot.Base.{◌≡◌, some, [], ◌∷◌, All}
use dpp_bot.Task.{start}
use dpp_bot.Task.Endings.{Returns}
use dpp_bot.Clean.{on_messages}
use dpp_bot.Clean.Laws.{on_messages_lem, deleted, IsAllowed}
use dpp_bot.Sample.{discord, two_guilds}

on_messages_lem_example :
    Returns
      (λ _ u. (deleted u.log ≡ 11 ∷ 12 ∷ 13 ∷ []) × All IsAllowed u.log × (u.bot ≡ two_guilds))
      (on_messages 3 (some (11 ∷ 12 ∷ 13 ∷ [])) (start discord two_guilds))
on_messages_lem_example = on_messages_lem discord two_guilds 3 (11 ∷ 12 ∷ 13 ∷ [])
