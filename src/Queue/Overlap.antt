-- ===== src/Queue/Overlap.antt =====
-- `HandleRemoveCommand` beside other threads: it keeps a pointer to the guild's entry without a mutex.
use dpp_bot.Base.{ℕ, ℤ, ◌≡◌, some, arith}
use dpp_bot.Dict.{find}
use dpp_bot.Dict.Laws.{find-erase}
use dpp_bot.Guild.{GuildInfo}
use dpp_bot.Task.{Bot, Dpp, Message, Task, fault, start, bot_of}
use dpp_bot.Connection.{leave_voice}
use dpp_bot.Connection.Leaving.{leave_voice_lem}
use dpp_bot.Queue.{remove_video, remove_beside}

-- With no other thread it is the command.
remove_beside-alone :
    (msg : Message) (index : ℤ) (t : Task)
    → remove_beside (λ b. b) msg index t ≡ remove_video msg index t
unfolding remove_beside remove_video
remove_beside-alone msg index t = ground arith

-- If another thread leaves the guild after `!remove`, whatever the number that it got, has found the
-- guild's entry and before it takes the list's mutex, `!remove` uses the entry that is gone.
pub remove_beside_leave-faults :
    (env env' : ℕ → Dpp) (b left : Bot) (msg : Message) (shard : ℕ) (index : ℤ) (info : GuildInfo)
    → find msg.guild_id b.guild_infos ≡ some info
    → bot_of (leave_voice msg.guild_id shard (start env' b)) ≡ some left
    → remove_beside (λ _. left) msg index (start env b) ≡ fault
unfolding remove_beside
remove_beside_leave-faults env env' b left msg shard index info e l = ground (
  arith,
  leave_voice_lem env' b msg.guild_id shard,
  find-erase msg.guild_id msg.guild_id b.guild_infos,
)
