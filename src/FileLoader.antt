-- ===== src/FileLoader.antt =====
-- src/FileLoader.cpp: the calls of the local server and what comes back of them.
pub mod Url
use dpp_bot.Base.{
  ℕ, ◌+◌, ◌/◌, ◌%◌, ◌-◌, Bool, true, false, Option, none, some, ◌||◌, List, [], ◌∷◌, ◌++◌, ◌==◌,
  ltb, leb, if◌then◌else◌, ◌⊎◌, inl, inr, is_empty, pos,
}
use dpp_bot.Text.{Text, text, space, is_alnum, to_string}
use dpp_bot.Guild.{VideoDbInfo}
use dpp_bot.Task.{
  M, Continuation, call, request, catch, throw, return, done, ◌>>◌, open_stream, close_stream,
}
use dpp_bot.Json.{JsonLib, lift}

-- A digit of `%X`.
unfoldable pub hex_digit : ℕ → ℕ
hex_digit d = if ltb d 10 then b'0' + d else b'A' + (d - 10)

-- What one round of the loop of `UrlEncode` appends.
unfoldable pub encode_byte : ℕ → Text
encode_byte c =
    if is_alnum c || (c == b'-' || (c == b'_' || (c == b'.' || c == b'~')))
    then c ∷ []
    else if c == space
    then b'+' ∷ []
    else b'%' ∷ hex_digit (c / 16) ∷ hex_digit (c % 16) ∷ []

unfoldable pub encode_from : Text → Text → Text
encode_from encoded [] = encoded
encode_from encoded (c ∷ value) = encode_from (encoded ++ encode_byte c) value

unfoldable pub url_encode : Text → Text
unfolding encode_from
url_encode value = encode_from [] value

abbrev pub server_base_url : Text
server_base_url = text "http://127.0.0.1:8080"

-- The request goes out; the callback runs when the response is there.
unfoldable pub request_server : Text → Continuation → M (Unit {0})
request_server path callback = call (request (server_base_url ++ path) callback)

-- `files` has the length of each file that can be opened.
unfoldable pub get_audio_stream : (Text → Option ℕ) → Text → M (Option ℕ)
get_audio_stream files path = elim (files path) [
  | none ↦ return none
  | some size ↦ do call (open_stream path); return (some size)
]

unfoldable pub close_audio_stream : Text → M (Unit {0})
close_audio_stream path = call (close_stream path)

-- The server keeps the files: nothing is to be done.
unfoldable pub cleanup : Text → M (Unit {0})
cleanup path = done

-- `dpp::http_request_completion_t`.
pub record Response : Type 0 where
  pub status : ℕ
  pub body : Text

infixl 5 ◌>>=◌
abbrev pub ◌>>=◌ : {A B : Type 0} → Text ⊎ A → (A → Text ⊎ B) → Text ⊎ B
inl e >>= f = inl e
inr a >>= f = f a

module _ (lib : JsonLib) where
  open lib use {
    Json, null_json, object_json, parse, contains_key, at, value_string, value_int, get_string,
  }

  abbrev pub answer : (Bool → Json → Text → M (Unit {0})) → Text ⊎ Json → M (Unit {0})
  answer callback (inl e) = throw e
  answer callback (inr json) = callback true json []

  -- The lambda that `RequestServer` hands to `bot.request`. The callback is called inside the `try`.
  unfoldable pub on_response : (Bool → Json → Text → M (Unit {0})) → Response → M (Unit {0})
  on_response callback response =
      if ltb response.status 200 || leb 300 response.status
      then callback false null_json
          (text "서버 응답 실패 (status " ++ (to_string response.status ++ text ")"))
      else if is_empty response.body
      then callback false null_json (text "서버 응답이 비어있습니다.")
      else catch (answer callback (parse response.body))
          (λ e. callback false null_json (text "JSON 파싱 실패: " ++ e))

  unfoldable pub local_path : Json → Text ⊎ Text
  local_path item =
      if contains_key item (text "localPath")
      then get_string (at item (text "localPath"))
      else if contains_key item (text "local_path")
      then get_string (at item (text "local_path"))
      else inr []

  unfoldable pub parse_video_db_info : Json → Text ⊎ VideoDbInfo
  unfolding local_path
  parse_video_db_info item = do
    id ← value_string item (text "id") []
    title ← value_string item (text "title") []
    channel_id ← value_string item (text "channelId") []
    channel_title ← value_string item (text "channelTitle") []
    thumbnail ← value_string item (text "thumbnail") []
    duration ← value_int item (text "duration") (pos 0)
    file_path ← local_path item
    inr (record {
      id = id;
      title = title;
      channel_id = channel_id;
      channel_title = channel_title;
      thumbnail = thumbnail;
      file_path = file_path;
      duration = duration;
      error = [];
      success = true;
    })
