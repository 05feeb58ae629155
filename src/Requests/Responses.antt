-- ===== src/Requests/Responses.antt =====
-- The callbacks that `RequestAndEnqueue`, `HandleOmakaseCommand` and `HandleDeleteCommand`
-- (src/DiscordBotClient.cpp) hand to the server call, and what they make of its JSON.
use dpp_bot.Base.{
  Bool, true, false, not, ◌&&◌, Option, none, some, List, [], ◌∷◌, ◌++◌, if◌then◌else◌, pos,
  is_empty, length, int_of_size,
}
use dpp_bot.Text.{Text, text, int_to_string, to_string}
use dpp_bot.Guild.{VideoDbInfo}
use dpp_bot.Task.{
  M, Message, Continuation, enqueue_response, omakase_response, deactivate_response, ◌>>=◌, ◌>>◌,
  done, return, when, with_lock, find_info, modify_info, guild_infos_mutex, list_mutex,
}
use dpp_bot.Messages.{send_bot_message, delete_message}
use dpp_bot.Queue.{on_videos, handle_skip, send_list_message}
use dpp_bot.Connection.{ensure_guild_info, start_audio_thread}
use dpp_bot.Json.{JsonLib, lift}
use dpp_bot.FileLoader.{parse_video_db_info}
use dpp_bot.Requests.{swap_reaction, failed, succeeded}

-- Where `RequestAndEnqueue` puts the new videos.
abbrev pub enqueue : Bool → List VideoDbInfo → List VideoDbInfo → List VideoDbInfo
enqueue insert_front items videos = if insert_front then items ++ videos else videos ++ items

module _ (lib : JsonLib) where
  open lib use {
    Json, object_json, contains_key, at, is_array, elements, value_bool, value_int, value_string,
    value_json,
  }

  abbrev pub with_path : VideoDbInfo → List VideoDbInfo → List VideoDbInfo
  with_path info items = if not (is_empty info.file_path) then info ∷ items else items

  -- The loop over `json["list"]`: videos without a file are left out.
  unfoldable pub parse_items : List Json → M (List VideoDbInfo)
  parse_items [] = return []
  parse_items (item ∷ rest) = do
    info ← lift (parse_video_db_info lib item)
    items ← parse_items rest
    return (with_path info items)

  unfoldable pub playlist_summary : Json → List VideoDbInfo → M Text
  playlist_summary json items = do
    let size = int_of_size (length items)
    total ← lift (value_int json (text "total") size)
    success_count ← lift (value_int json (text "success_count") size)
    failed_count ← lift (value_int json (text "failed_count") (pos 0))
    return (
        text "플레이리스트 "
        ++ (to_string (length items)
            ++ (text "개 추가됨 (전체: "
                ++ (int_to_string total
                    ++ (text ", 성공: "
                        ++ (int_to_string success_count
                            ++ (text ", 실패: " ++ (int_to_string failed_count ++ text ")"))))))))

  unfoldable pub list_items : Json → M (Option (List VideoDbInfo × Text))
  unfolding parse_items playlist_summary
  list_items json = do
    items ← parse_items (elements (at json (text "list")))
    summary ← playlist_summary json items
    return (some (items, summary))

  unfoldable pub single_item : Json → M (Option (List VideoDbInfo × Text))
  single_item json = do
    metadata ← lift (value_json json (text "metadata") object_json)
    info ← lift (parse_video_db_info lib metadata)
    path ← lift (value_string json (text "local_path") [])
    if is_empty path
        then return none
        else return (some (record info { file_path = path } ∷ [], info.title))

  -- The videos of a response and the text about them; `none` for a video without a file.
  unfoldable pub response_items : Json → M (Option (List VideoDbInfo × Text))
  response_items json =
      if contains_key json (text "list") && is_array (at json (text "list"))
      then list_items json
      else single_item json

  abbrev pub front_mark : Bool → Text
  front_mark insert_front = if insert_front then text " (먼저 재생)" else []

  -- What follows a response whose videos are known.
  unfoldable pub enqueue_items : Message → Bool → List VideoDbInfo × Text → M (Unit {0})
  enqueue_items msg insert_front (items, summary) = do
    with_lock guild_infos_mutex do
      ensure_guild_info msg.guild_id msg.shard_id
      with_lock (list_mutex msg.guild_id)
          (modify_info msg.guild_id (on_videos (enqueue insert_front items)))
    swap_reaction msg succeeded
    send_bot_message msg.channel_id
        (text "***" ++ (msg.author_name ++ (text "*** - " ++ (summary ++ front_mark insert_front))))
    delete_message msg.msg_id msg.channel_id

  unfoldable pub enqueue_batch : Message → Bool → Option (List VideoDbInfo × Text) → M (Unit {0})
  enqueue_batch msg insert_front none = swap_reaction msg failed
  enqueue_batch msg insert_front (some items) = enqueue_items msg insert_front items

  unfoldable pub report_error : Message → Json → M (Unit {0})
  report_error msg json = do
    swap_reaction msg failed
    error ← lift (value_string json (text "error") (text "Unknown error"))
    send_bot_message msg.channel_id (text "오류: " ++ error)

  -- What follows `json.value("success", false)`.
  unfoldable pub after_success : Message → Bool → Json → Bool → M (Unit {0})
  after_success msg insert_front json false = report_error msg json
  after_success msg insert_front json true = do
    batch ← response_items json
    enqueue_batch msg insert_front batch

  unfoldable pub on_enqueue_response : Message → Bool → Bool → Json → Text → M (Unit {0})
  on_enqueue_response msg insert_front ok json err = if not ok then swap_reaction msg failed else do
    success ← lift (value_bool json (text "success") false)
    after_success msg insert_front json success

  -- The loop over `json["items"]`, which appends each video as soon as it is read.
  unfoldable pub push_items : Message → List Json → M (Unit {0})
  push_items msg [] = done
  push_items msg (item ∷ rest) = do
    info ← lift (parse_video_db_info lib item)
    modify_info msg.guild_id (on_videos (λ videos. videos ++ with_path info []))
    push_items msg rest

  unfoldable pub has_items : Bool → Json → M Bool
  has_items false json = return false
  has_items true json = do
    success ← lift (value_bool json (text "success") false)
    return (success && (contains_key json (text "items") && is_array (at json (text "items"))))

  unfoldable pub error_text : Bool → Json → Text → M Text
  error_text false json err = return err
  error_text true json err = lift (value_string json (text "error") (text "응답에 items가 없습니다."))

  -- What follows a response that has its items. `StartAudioThread` is called under
  -- `guildInfosMutex`, as in the source.
  unfoldable pub omakase_items : Message → List Json → M (Unit {0})
  unfolding push_items
  omakase_items msg items = do
    with_lock guild_infos_mutex do
      ensure_guild_info msg.guild_id msg.shard_id
      with_lock (list_mutex msg.guild_id) (push_items msg items)
    swap_reaction msg succeeded
    with_lock guild_infos_mutex do
      it ← find_info msg.guild_id
      elim it [
        | none ↦ done
        | some info ↦ when (not info.audio_thread) (start_audio_thread msg.guild_id)
      ]
    send_list_message msg.channel_id msg.guild_id

  unfoldable pub on_omakase_response : Message → Bool → Json → Text → M (Unit {0})
  unfolding has_items error_text omakase_items
  on_omakase_response msg ok json err = do
    found ← has_items ok json
    if found then omakase_items msg (elements (at json (text "items"))) else (do
      message ← error_text ok json err
      swap_reaction msg failed
      send_bot_message msg.channel_id (text "오류: " ++ message))

  unfoldable pub refused : Bool → Json → M Bool
  refused false json = return true
  refused true json = do
    success ← lift (value_bool json (text "success") false)
    return (not success)

  unfoldable pub refusal_text : Bool → Json → Text → M Text
  refusal_text false json err = return err
  refusal_text true json err = lift (value_string json (text "error") (text "Unknown error"))

  unfoldable pub on_deactivate_response : Message → Bool → Bool → Json → Text → M (Unit {0})
  unfolding refused refusal_text
  on_deactivate_response msg should_skip ok json err = do
    no_success ← refused ok json
    if no_success
        then (do
          message ← refusal_text ok json err
          send_bot_message msg.channel_id (text "오류: " ++ message))
        else (do
          when should_skip (handle_skip msg)
          send_bot_message msg.channel_id (text "추천 비활성화됨"))

  -- The callback that a request was made with, on the response.
  unfoldable pub continue : Continuation → Bool → Json → Text → M (Unit {0})
  unfolding on_enqueue_response on_omakase_response on_deactivate_response
  continue (enqueue_response msg front) = on_enqueue_response msg front
  continue (omakase_response msg) = on_omakase_response msg
  continue (deactivate_response msg should_skip) = on_deactivate_response msg should_skip
