-- ===== src/Requests/Partial.antt =====
-- The response to `!omakase` when an item throws: what stays queued, and what the user is told.
use dpp_bot.Base.{ℕ, ◌≡◌, true, false, List, [], ◌∷◌, ◌++◌, arith, inl, inr, All, is_empty}
use dpp_bot.Text.{Text, text}
use dpp_bot.Dict.{find}
use dpp_bot.Dict.Laws.{find-update}
use dpp_bot.Task.{
  Call, Bot, Dpp, Message, start, guild_infos_mutex, list_mutex, delete_own_reaction,
}
use dpp_bot.Task.Endings.{Returns}
use dpp_bot.Messages.{send_bot_message}
use dpp_bot.Queue.{on_videos}
use dpp_bot.Json.{JsonLib}
use dpp_bot.FileLoader.{Response, on_response, parse_video_db_info}
use dpp_bot.Connection.Ensuring.{ensure-Ensured, videos_of}
use dpp_bot.Requests.{failed}
use dpp_bot.Requests.Responses.{push_items, on_omakase_response}
use dpp_bot.Requests.Omakase.{IsVideo, playable, push_items-append}

-- The reactions that replace the working one, the latest first.
abbrev pub reactions : List Call → List Text
reactions [] = []
reactions (delete_own_reaction m next ∷ log) = next ∷ reactions log
reactions (_ ∷ log) = reactions log

module _ (lib : JsonLib) where
  open lib use {Json, value_bool, contains_key, is_array, at, elements, parse, null_json}

  -- If the response to `!omakase` has its items and one of them throws, then the videos in front of it
  -- that have a file stay behind the play list, and yet the callback runs a second time: it replaces
  -- the working reaction by the one of a failure and posts an error. No lock is kept.
  pub omakase_partial :
      (env : ℕ → Dpp) (b : Bot) (msg : Message) (response : Response) (json : Json)
      (good rest : List Json) (bad : Json) (e : Text)
      → response.status ≡ 200
      → is_empty response.body ≡ false
      → parse response.body ≡ inr json
      → value_bool json (text "success") false ≡ inr true
      → contains_key json (text "items") ≡ true
      → is_array (at json (text "items")) ≡ true
      → elements (at json (text "items")) ≡ good ++ bad ∷ rest
      → All (IsVideo lib) good
      → parse_video_db_info lib bad ≡ inl e
      → Returns
          (λ _ t.
            (videos_of (find msg.guild_id t.bot.guild_infos)
              ≡ videos_of (find msg.guild_id b.guild_infos) ++ playable lib good)
            × (reactions t.log ≡ failed ∷ []))
          (on_response lib (on_omakase_response lib msg) response (start env b))
  unfolding on_response on_omakase_response send_bot_message push_items
  omakase_partial env b msg response json good rest bad e st ne pa s c a items videos throws_at =
      let r =
        ensure-Ensured msg.guild_id msg.shard_id 0
          (record (start env b) { held = guild_infos_mutex ∷ [] }) in
      let u = record r.after { held = list_mutex msg.guild_id ∷ guild_infos_mutex ∷ [] } in
      ground (
        arith,
        r.ran,
        r.held_kept,
        r.found,
        r.log_kept,
        r.videos_kept,
        push_items-append lib msg good (bad ∷ rest) u videos,
        find-update msg.guild_id msg.guild_id (on_videos (λ vs. vs ++ playable lib good))
            r.after.bot.guild_infos,
      )
