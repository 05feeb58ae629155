-- ===== src/Requests/Omakase.antt =====
-- The response to `!omakase`: what is queued, and the lock that is taken twice.
use dpp_bot.Base.{
  ℕ, ◌≡◌, true, false, List, [], ◌∷◌, ◌++◌, arith, inl, inr, ◌≢◌, All, append-nil, append_assoc,
  subst, ap, ◌∙◌, ◌≡⟨◌⟩◌, ◌∎,
}
use dpp_bot.Text.{Text, text}
use dpp_bot.Dict.{find, update}
use dpp_bot.Dict.Laws.{find-update, update-update, update-id, update-ext}
use dpp_bot.Guild.{GuildInfo, VideoDbInfo}
use dpp_bot.Task.{
  Task, Bot, Dpp, Message, returns, deadlock, start, on_info, guild_infos_mutex, list_mutex,
  delete_own_reaction,
}
use dpp_bot.Task.Endings.{Returns}
use dpp_bot.Queue.{on_videos}
use dpp_bot.Queue.Listing.{send_list_message-bot}
use dpp_bot.Json.{JsonLib}
use dpp_bot.FileLoader.{parse_video_db_info}
use dpp_bot.Connection.{start_audio_thread}
use dpp_bot.Connection.Ensuring.{ensure-Ensured, videos_of}
use dpp_bot.Connection.Leaving.{has_thread}
use dpp_bot.Requests.{succeeded}
use dpp_bot.Requests.Responses.{push_items, on_omakase_response, with_path}

module _ (lib : JsonLib) where
  open lib use {Json, value_bool, contains_key, is_array, at, elements}

  abbrev pub IsVideo : Json → Type 0
  IsVideo item = (info : VideoDbInfo) × (parse_video_db_info lib item ≡ inr info)

  -- The videos with a file, in order.
  abbrev pub playable : List Json → List VideoDbInfo
  playable [] = []
  playable (item ∷ rest) = elim (parse_video_db_info lib item) [
    | inl e ↦ playable rest
    | inr info ↦ with_path lib info (playable rest)
  ]

  -- Reading items that are videos appends those with a file, whatever comes behind them.
  pub push_items-append :
      (msg : Message) (items rest : List Json) (t : Task)
      → All IsVideo items
      → push_items lib msg (items ++ rest) t
        ≡ push_items lib msg rest
            (record t { bot = on_info msg.guild_id (on_videos (λ vs. vs ++ playable items)) t.bot })
  unfolding push_items
  push_items-append msg [] rest t h =
      rw
        (update-id msg.guild_id (on_videos (λ vs. vs ++ [])) t.bot.guild_infos (λ i. rw append-nil))
  push_items-append msg (item ∷ items) rest t ((info, e), h) =
      push_items lib msg (item ∷ (items ++ rest)) t
      ≡⟨ (rw (e, push_items)) ⟩ push_items lib msg (items ++ rest) pushed
      ≡⟨ push_items-append msg items rest pushed h ⟩
        push_items lib msg rest (record t {
          bot = on_info msg.guild_id (on_videos (λ vs. vs ++ playable items)) pushed.bot;
        })
      ≡⟨ ap (λ m. push_items lib msg rest (record t { bot = record t.bot { guild_infos = m } }))
          regroup ⟩
        push_items lib msg rest
          (record t {
            bot = on_info msg.guild_id (on_videos (λ vs. vs ++ playable (item ∷ items))) t.bot;
          }) ∎
    where
      first : GuildInfo → GuildInfo
      first = on_videos (λ vs. vs ++ with_path lib info [])

      pushed : Task
      pushed = record t { bot = on_info msg.guild_id first t.bot }

      joined :
          (i : GuildInfo)
          → on_videos (λ vs. vs ++ playable items) (first i)
            ≡ on_videos (λ vs. vs ++ playable (item ∷ items)) i
      joined i = ground (arith, append_assoc i.video_lists (with_path lib info []) (playable items))

      regroup :
          update msg.guild_id
            (on_videos (λ vs. vs ++ playable items))
            (update msg.guild_id first t.bot.guild_infos)
          ≡ update msg.guild_id (on_videos (λ vs. vs ++ playable (item ∷ items))) t.bot.guild_infos
      regroup =
          update-update msg.guild_id first (on_videos (λ vs. vs ++ playable items))
            t.bot.guild_infos
          ∙ update-ext msg.guild_id _ (on_videos (λ vs. vs ++ playable (item ∷ items)))
              t.bot.guild_infos joined

  push_items_lem :
      (msg : Message) (items : List Json) (t : Task)
      → All IsVideo items
      → push_items lib msg items t
        ≡ returns tt
            (record t { bot = on_info msg.guild_id (on_videos (λ vs. vs ++ playable items)) t.bot })
  unfolding push_items
  push_items_lem msg items t h =
      subst
        (λ l.
          push_items lib msg l t
          ≡ returns tt (record t {
            bot = on_info msg.guild_id (on_videos (λ vs. vs ++ playable items)) t.bot;
          }))
        (append-nil items) (push_items-append msg items [] t h)

  -- If the guild has no audio thread that runs, for instance because it has no entry, a response that
  -- is a success with items, each of which can be read as a video, never comes to an end: the thread
  -- that handles it takes `guildInfosMutex` twice.
  pub omakase_deadlock :
      (env : ℕ → Dpp) (b : Bot) (msg : Message) (json : Json) (err : Text)
      → value_bool json (text "success") false ≡ inr true
      → contains_key json (text "items") ≡ true
      → is_array (at json (text "items")) ≡ true
      → All IsVideo (elements (at json (text "items")))
      → has_thread (find msg.guild_id b.guild_infos) ≡ false
      → on_omakase_response lib msg true json err (start env b) ≡ deadlock guild_infos_mutex
  unfolding on_omakase_response start_audio_thread
  omakase_deadlock env b msg json err s c a videos idle =
      let items = elements (at json (text "items")) in
      let r =
        ensure-Ensured msg.guild_id msg.shard_id 0
          (record (start env b) { held = guild_infos_mutex ∷ [] }) in
      let u = record r.after { held = list_mutex msg.guild_id ∷ guild_infos_mutex ∷ [] } in
      ground (
        arith,
        r.ran,
        r.held_kept,
        r.found,
        r.thread_kept,
        push_items_lem msg items u videos,
        find-update msg.guild_id msg.guild_id (on_videos (λ vs. vs ++ playable items))
            r.after.bot.guild_infos,
      )

  -- If the audio thread runs, a response that is a success with items, each of which can be read as a
  -- video, returns with every lock released, its videos that have a file stand behind the play list in
  -- their order, and the entry of every other guild is as it was.
  pub omakase_appends :
      (env : ℕ → Dpp) (b : Bot) (msg : Message) (json : Json) (err : Text) (j : ℕ)
      → value_bool json (text "success") false ≡ inr true
      → contains_key json (text "items") ≡ true
      → is_array (at json (text "items")) ≡ true
      → All IsVideo (elements (at json (text "items")))
      → has_thread (find msg.guild_id b.guild_infos) ≡ true
      → j ≢ msg.guild_id
      → Returns
          (λ _ t.
            (videos_of (find msg.guild_id t.bot.guild_infos)
              ≡ videos_of (find msg.guild_id b.guild_infos)
                ++ playable (elements (at json (text "items"))))
            × (find j t.bot.guild_infos ≡ find j b.guild_infos))
          (on_omakase_response lib msg true json err (start env b))
  unfolding on_omakase_response
  omakase_appends env b msg json err j s c a videos runs ne =
      let items = elements (at json (text "items")) in
      let r =
        ensure-Ensured msg.guild_id msg.shard_id j
          (record (start env b) { held = guild_infos_mutex ∷ [] }) in
      let u = record r.after { held = list_mutex msg.guild_id ∷ guild_infos_mutex ∷ [] } in
      let add = on_videos (λ vs. vs ++ playable items) in
      let v = record r.after {
        held = [];
        bot = on_info msg.guild_id add r.after.bot;
        log = delete_own_reaction msg.msg_id succeeded ∷ r.after.log;
      } in
      ground (
        arith,
        r.ran,
        r.held_kept,
        r.found,
        r.thread_kept,
        r.videos_kept,
        r.others_kept ne,
        push_items_lem msg items u videos,
        find-update msg.guild_id msg.guild_id add r.after.bot.guild_infos,
        find-update j msg.guild_id add r.after.bot.guild_infos,
        send_list_message-bot msg.channel_id msg.guild_id v,
      )
