-- ===== src/Requests/Enqueue.antt =====
-- Where the videos of a response to `!play` and `!first` go.
use dpp_bot.Base.{ℕ, ◌≡◌, Bool, List, [], ◌∷◌, ◌++◌, arith, if◌then◌else◌, ◌≢◌}
use dpp_bot.Text.{Text}
use dpp_bot.Dict.{find}
use dpp_bot.Dict.Laws.{find-update}
use dpp_bot.Guild.{VideoDbInfo}
use dpp_bot.Task.{Bot, Dpp, Message, start, guild_infos_mutex}
use dpp_bot.Task.Endings.{Returns}
use dpp_bot.Messages.{send_bot_message, delete_message}
use dpp_bot.Queue.{on_videos}
use dpp_bot.Json.{JsonLib}
use dpp_bot.Connection.Ensuring.{ensure-Ensured, videos_of}
use dpp_bot.Requests.Responses.{enqueue_items, enqueue}

module _ (lib : JsonLib) where
  open lib use {
    Json, value_bool, value_string, contains_key, is_array, at, elements, value_int, value_json,
    object_json, null_json, parse,
  }

  -- The new videos stand before or behind those that waited, in their order, whether the guild had
  -- an entry or not; a thread that runs goes on, other guilds are as they were, and the response's
  -- handling returns with every lock released.
  pub enqueue_items_lem :
      (env : ℕ → Dpp) (b : Bot) (msg : Message) (front : Bool) (items : List VideoDbInfo)
      (summary : Text) (j : ℕ)
      → j ≢ msg.guild_id
      → Returns
          (λ _ t.
            (videos_of (find msg.guild_id t.bot.guild_infos) ≡ (
              if front
              then items ++ videos_of (find msg.guild_id b.guild_infos)
              else videos_of (find msg.guild_id b.guild_infos) ++ items))
            × (find j t.bot.guild_infos ≡ find j b.guild_infos))
          (enqueue_items lib msg front (items, summary) (start env b))
  unfolding enqueue_items send_bot_message delete_message
  enqueue_items_lem env b msg front items summary j ne =
      let r =
        ensure-Ensured msg.guild_id msg.shard_id j
          (record (start env b) { held = guild_infos_mutex ∷ [] }) in
      ground (
        arith,
        r.ran,
        r.held_kept,
        r.found,
        r.videos_kept,
        r.others_kept ne,
        find-update msg.guild_id msg.guild_id (on_videos (enqueue front items))
            r.after.bot.guild_infos,
        find-update j msg.guild_id (on_videos (enqueue front items)) r.after.bot.guild_infos,
      )
