-- ===== src/System/Methods/Talking.antt =====
-- The messages of the bot, their callbacks and the callback of `!clean`.
use dpp_bot.Base.{ℕ, zero, suc, Bool, Option, none, some, List, [], ◌∷◌, ◌+◌, length, ltb}
use dpp_bot.Text.{Text}
use dpp_bot.Task.{Message}
use dpp_bot.Messages.{send_bot_message, on_message_created}
use dpp_bot.Clean.{on_messages, delete_chunks, delete_chunk}
use dpp_bot.Requests.{on_reaction_deleted}
use dpp_bot.System.Rules.{Rules, Holds, Holds-done, Holds-bind, Holds-if, rules}
use dpp_bot.Task.{M}

module _ {P : (A : Type 0) → M A → Type 0} {r : Rules P} where
  pub send_bot_message-Holds :
      (channel : ℕ) (message : Text) → Holds r (send_bot_message channel message)
  unfolding send_bot_message
  send_bot_message-Holds channel message = search rules

  pub on_message_created-Holds :
      (channel : ℕ) (created : Option ℕ) → Holds r (on_message_created channel created)
  unfolding on_message_created
  on_message_created-Holds channel none = search rules
  on_message_created-Holds channel (some id) = search rules

  pub on_reaction_deleted-Holds :
      (msg : Message) (next : Text) (is_error : Bool)
      → Holds r (on_reaction_deleted msg next is_error)
  unfolding on_reaction_deleted
  on_reaction_deleted-Holds msg next is_error = search rules

  delete_chunk-Holds : (channel : ℕ) (ids : List ℕ) → Holds r (delete_chunk channel ids)
  unfolding delete_chunk
  delete_chunk-Holds channel [] = search rules
  delete_chunk-Holds channel (id ∷ []) = search rules
  delete_chunk-Holds channel (id ∷ next ∷ ids) = search rules

  delete_chunks-Holds :
      (fuel channel : ℕ) (ids : List ℕ) (offset : ℕ)
      → Holds r (delete_chunks fuel channel ids offset)
  unfolding delete_chunks
  delete_chunks-Holds zero channel ids offset = search rules
  delete_chunks-Holds (suc fuel) channel ids offset =
      Holds-if (ltb offset (length ids)) _ _
        (Holds-bind (delete_chunk channel _) _ (delete_chunk-Holds channel _)
          λ u. delete_chunks-Holds fuel channel ids (offset + 100))
        Holds-done

  pub on_messages-Holds :
      (channel : ℕ) (answer : Option (List ℕ)) → Holds r (on_messages channel answer)
  unfolding on_messages
  on_messages-Holds channel none = search send_bot_message-Holds
  on_messages-Holds channel (some ids) = search (rules, delete_chunks-Holds)
