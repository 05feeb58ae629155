-- ===== src/Clean.antt =====
-- `HandleCleanCommand` (src/DiscordBotClient.cpp) and its callback.
pub mod Laws
mod Tests
use dpp_bot.Base.{
  ℕ, zero, suc, ◌+◌, Bool, true, false, not, Option, none, some, List, [], ◌∷◌, ◌==◌, ltb,
  if◌then◌else◌, ℤ, pos, negsuc, is_positive, pos_part, is_empty, length, take, drop,
}
use dpp_bot.Text.{Text, text, stoi}
use dpp_bot.Task.{
  M, Message, ◌>>=◌, ◌>>◌, done, call, messages_get, message_delete, message_delete_bulk,
}
use dpp_bot.Messages.{send_bot_message}

-- `std::stoi(args)`, or ten for an empty argument or one that is no number.
abbrev asked_count : Text → ℤ
asked_count args = if is_empty args then pos 10 else elim (stoi args) [ none ↦ pos 10 | some n ↦ n ]

-- `if (count <= 0) count = 10`; what is left is positive.
unfoldable pub clean_count : Text → ℕ
clean_count args = if is_positive (asked_count args) then pos_part (asked_count args) else 10

unfoldable pub handle_clean : Text → Message → M (Unit {0})
handle_clean args msg =
    if ltb 10 (clean_count args)
    then send_bot_message msg.channel_id (text "10개 이상은 삭제할 수 없습니다.")
    else call (messages_get msg.channel_id (clean_count args))

unfoldable pub delete_chunk : ℕ → List ℕ → M (Unit {0})
delete_chunk channel [] = call (message_delete_bulk [] channel)
delete_chunk channel (id ∷ []) = call (message_delete id channel)
delete_chunk channel (id ∷ next ∷ ids) = call (message_delete_bulk (id ∷ next ∷ ids) channel)

-- The loop over `offset`, in steps of a hundred.
unfoldable pub delete_chunks : ℕ → ℕ → List ℕ → ℕ → M (Unit {0})
unfolding delete_chunk
delete_chunks zero channel ids offset = done
delete_chunks (suc fuel) channel ids offset =
    let rest = delete_chunks fuel channel ids (offset + 100) in
    if ltb offset (length ids)
    then (do delete_chunk channel (take 100 (drop offset ids)); rest)
    else done

-- What Discord answers to `messages_get`: an error, or the ids of the messages. One round of the
-- loop for each message would be more than enough.
unfoldable pub on_messages : ℕ → Option (List ℕ) → M (Unit {0})
unfolding delete_chunks
on_messages channel none = send_bot_message channel (text "메시지를 가져오는 데 실패했습니다 (권한 부족일 수 있음).")
on_messages channel (some ids) =
    if is_empty ids then done else delete_chunks (length ids) channel ids 0
