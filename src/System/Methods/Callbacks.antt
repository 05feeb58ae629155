-- ===== src/System/Methods/Callbacks.antt =====
-- The callbacks of the server calls.
use dpp_bot.Base.{Bool, true, false, Option, none, some, List, [], ◌∷◌, ◌⊎◌, inl, inr, ◌++◌}
use dpp_bot.Text.{Text}
use dpp_bot.Task.{
  Message, Continuation, enqueue_response, omakase_response, deactivate_response, modify_info,
}
use dpp_bot.Guild.{VideoDbInfo}
use dpp_bot.Messages.{delete_message}
use dpp_bot.Queue.{on_videos}
use dpp_bot.Json.{JsonLib, lift}
use dpp_bot.FileLoader.{Response, answer, on_response, parse_video_db_info}
use dpp_bot.Requests.Responses.{
  parse_items, playlist_summary, list_items, single_item, response_items, enqueue_items,
  enqueue_batch, report_error, after_success, on_enqueue_response, push_items, has_items,
  error_text, omakase_items, on_omakase_response, refused, refusal_text, on_deactivate_response,
  continue, with_path,
}
use dpp_bot.System.Rules.{Rules, Holds, Holds-return, Holds-throw, Holds-bind, rules}
use dpp_bot.Task.{M}
use dpp_bot.System.Methods.Talking.{send_bot_message-Holds}
use dpp_bot.System.Methods.Connecting.{ensure_guild_info-Holds}
use dpp_bot.System.Methods.Commands.{handle_skip-Holds, send_list_message-Holds}

module _ {P : (A : Type 0) → M A → Type 0} {r : Rules P} where
  lift-Holds : {A : Type 0} (got : Text ⊎ A) → Holds r (lift got)
  lift-Holds (inl e) = Holds-throw e
  lift-Holds (inr a) = Holds-return a

module _ (lib : JsonLib) {P : (A : Type 0) → M A → Type 0} {r : Rules P} where
  open lib use {Json}

  parse_items-Holds : (items : List Json) → Holds r (parse_items lib items)
  unfolding parse_items
  parse_items-Holds [] = search rules
  parse_items-Holds (item ∷ rest) =
      Holds-bind (lift (parse_video_db_info lib item)) _ (lift-Holds _) λ info.
        Holds-bind (parse_items lib rest) _ (parse_items-Holds rest)
          λ items. Holds-return (with_path lib info items)

  playlist_summary-Holds :
      (json : Json) (items : List VideoDbInfo) → Holds r (playlist_summary lib json items)
  unfolding playlist_summary
  playlist_summary-Holds json items = search (rules, lift-Holds)

  response_items-Holds : (json : Json) → Holds r (response_items lib json)
  unfolding response_items list_items single_item
  response_items-Holds json =
      search (rules, lift-Holds, parse_items-Holds, playlist_summary-Holds) depth 12

  enqueue_items-Holds :
      (msg : Message) (front : Bool) (batch : List VideoDbInfo × Text)
      → Holds r (enqueue_items lib msg front batch)
  unfolding enqueue_items delete_message
  enqueue_items-Holds msg front (items, summary) =
      search (rules, ensure_guild_info-Holds, send_bot_message-Holds) depth 12

  enqueue_batch-Holds :
      (msg : Message) (front : Bool) (batch : Option (List VideoDbInfo × Text))
      → Holds r (enqueue_batch lib msg front batch)
  unfolding enqueue_batch
  enqueue_batch-Holds msg front none = search rules
  enqueue_batch-Holds msg front (some batch) = enqueue_items-Holds msg front batch

  after_success-Holds :
      (msg : Message) (front : Bool) (json : Json) (success : Bool)
      → Holds r (after_success lib msg front json success)
  unfolding after_success report_error
  after_success-Holds msg front json false =
      search (rules, lift-Holds, send_bot_message-Holds) depth 12
  after_success-Holds msg front json true =
      search (rules, response_items-Holds, enqueue_batch-Holds)

  on_enqueue_response-Holds :
      (msg : Message) (front ok : Bool) (json : Json) (err : Text)
      → Holds r (on_enqueue_response lib msg front ok json err)
  unfolding on_enqueue_response
  on_enqueue_response-Holds msg front ok json err =
      search (rules, lift-Holds, after_success-Holds) depth 12

  push_items-Holds : (msg : Message) (items : List Json) → Holds r (push_items lib msg items)
  unfolding push_items
  push_items-Holds msg [] = search rules
  push_items-Holds msg (item ∷ rest) =
      Holds-bind (lift (parse_video_db_info lib item)) _ (lift-Holds _) λ info.
        Holds-bind
          (modify_info msg.guild_id (on_videos (λ videos. videos ++ with_path lib info []))) _
          (search rules) λ u. push_items-Holds msg rest

  omakase_items-Holds : (msg : Message) (items : List Json) → Holds r (omakase_items lib msg items)
  unfolding omakase_items
  omakase_items-Holds msg items =
      search (rules, ensure_guild_info-Holds, push_items-Holds, send_list_message-Holds) depth 12

  has_items-Holds : (ok : Bool) (json : Json) → Holds r (has_items lib ok json)
  unfolding has_items
  has_items-Holds false json = search rules
  has_items-Holds true json = search (rules, lift-Holds)

  error_text-Holds : (ok : Bool) (json : Json) (err : Text) → Holds r (error_text lib ok json err)
  unfolding error_text
  error_text-Holds false json err = search rules
  error_text-Holds true json err = search (rules, lift-Holds)

  on_omakase_response-Holds :
      (msg : Message) (ok : Bool) (json : Json) (err : Text)
      → Holds r (on_omakase_response lib msg ok json err)
  unfolding on_omakase_response
  on_omakase_response-Holds msg ok json err =
      search (rules, has_items-Holds, error_text-Holds, omakase_items-Holds, send_bot_message-Holds)
        depth 12

  refused-Holds : (ok : Bool) (json : Json) → Holds r (refused lib ok json)
  unfolding refused
  refused-Holds false json = search rules
  refused-Holds true json = search (rules, lift-Holds)

  refusal_text-Holds :
      (ok : Bool) (json : Json) (err : Text) → Holds r (refusal_text lib ok json err)
  unfolding refusal_text
  refusal_text-Holds false json err = search rules
  refusal_text-Holds true json err = search (rules, lift-Holds)

  on_deactivate_response-Holds :
      (msg : Message) (should_skip ok : Bool) (json : Json) (err : Text)
      → Holds r (on_deactivate_response lib msg should_skip ok json err)
  unfolding on_deactivate_response
  on_deactivate_response-Holds msg should_skip ok json err =
      search (rules, refused-Holds, refusal_text-Holds, send_bot_message-Holds, handle_skip-Holds)
        depth 12

  continue-Holds :
      (k : Continuation) (ok : Bool) (json : Json) (err : Text)
      → Holds r (continue lib k ok json err)
  unfolding continue
  continue-Holds (enqueue_response msg front) ok json err =
      on_enqueue_response-Holds msg front ok json err
  continue-Holds (omakase_response msg) ok json err = on_omakase_response-Holds msg ok json err
  continue-Holds (deactivate_response msg should_skip) ok json err =
      on_deactivate_response-Holds msg should_skip ok json err

  answer-Holds :
      (k : Continuation) (parsed : Text ⊎ Json) → Holds r (answer lib (continue lib k) parsed)
  answer-Holds k (inl e) = Holds-throw e
  answer-Holds k (inr json) = continue-Holds k true json []

  pub on_response-Holds :
      (k : Continuation) (response : Response) → Holds r (on_response lib (continue lib k) response)
  unfolding on_response
  on_response-Holds k response = search (rules, continue-Holds, answer-Holds) depth 12
