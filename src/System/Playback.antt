-- ===== src/System/Playback.antt =====
-- A song from the user's message to the listeners: the handler of the message, the callback of the
-- server's response, and the audio thread.
mod Tests
use dpp_bot.Base.{
  ℕ, suc, ◌<◌, ◌≡◌, refl, sym, subst, Bool, true, false, ◌||◌, Option, some, List, [], ◌∷◌, ◌++◌,
  map, arith, is_empty, length, All, inr, ltb, leb,
}
use dpp_bot.Text.{Text, text, space, to_lower}
use dpp_bot.Dict.{find}
use dpp_bot.Dict.Laws.{find-update}
use dpp_bot.Guild.{GuildInfo, VideoDbInfo}
use dpp_bot.Task.{
  Task, Bot, Dpp, Message, Outcome, returns, throws, deadlock, fault, M, catch, start, on_info,
  enqueue_response,
}
use dpp_bot.Task.Endings.{Returns, Returns-map}
use dpp_bot.Messages.{send_bot_message, delete_message}
use dpp_bot.Queue.{on_videos}
use dpp_bot.Json.{JsonLib}
use dpp_bot.FileLoader.{Response, on_response}
use dpp_bot.Connection.{ensure_guild_info, set_text_channel}
use dpp_bot.Requests.Responses.{
  continue, enqueue, enqueue_items, enqueue_batch, after_success, on_enqueue_response,
  response_items,
}
use dpp_bot.Player.{alone, can_send, play_audio_thread}
use dpp_bot.Player.Songs.{IsResting, Playable, PlayedAll, play_audio_thread_lem}
use dpp_bot.Command.{on_message_create}
use dpp_bot.Command.Routing.{Verb, spelling}
use dpp_bot.Command.Asking.{AsksFor, on_message_create-asks}

module _ (lib : JsonLib) (msg : Message) (front : Bool) (items : List VideoDbInfo)
    (summary : Text) where
  open lib use {Json, parse, value_bool}

  -- The response is a success with these videos.
  pub record Brings (response : Response) : Type 0 where
    pub json : Json
    pub status_ok : (ltb response.status 200 || leb 300 response.status) ≡ false
    pub has_body : is_empty response.body ≡ false
    pub parsed : parse response.body ≡ inr json
    pub succeeds : value_bool json (text "success") false ≡ inr true
    pub reads : (t : Task) → response_items lib json t ≡ returns (some (items, summary)) t

  -- The bot behind the callback: the guild's play list has the new videos.
  abbrev Queued : Bot → Task → Type 0
  Queued b t = t.bot ≡ on_info msg.guild_id (on_videos (enqueue front items)) b

  enqueue_items-Queued :
      (env : ℕ → Dpp) (b : Bot) (info : GuildInfo)
      → find msg.guild_id b.guild_infos ≡ some info
      → Returns (λ _ t. Queued b t) (enqueue_items lib msg front (items, summary) (start env b))
  unfolding enqueue_items send_bot_message delete_message ensure_guild_info
  enqueue_items-Queued env b info e = ground (arith, e)

  on_enqueue_response-eq :
      (response : Response) (r : Brings response) (t : Task)
      → on_enqueue_response lib msg front true r.json [] t
        ≡ enqueue_items lib msg front (items, summary) t
  unfolding on_enqueue_response after_success enqueue_batch
  on_enqueue_response-eq response r t = ground (arith, r.succeeds, r.reads t)

  catch-Returns :
      {A : Type 0} (P : A → Task → Type 0) (m : M A) (f : Text → M A) (t : Task)
      → Returns P (m t)
      → Returns P (catch m f t)
  catch-Returns {A} P m f t h = go (m t) h
    where
      go :
          (o : Outcome A)
          → Returns P o
          → Returns P (elim o [
            | returns a u ↦ returns a u
            | throws e u ↦ f e u
            | deadlock x ↦ deadlock x
            | fault ↦ fault
          ])
      go (returns a u) p = p
      go (throws e u) p = absurd p
      go (deadlock x) p = p
      go fault p = p

  on_response-Queued :
      (response : Response) (r : Brings response) (env : ℕ → Dpp) (b : Bot) (info : GuildInfo)
      → find msg.guild_id b.guild_infos ≡ some info
      → Returns
          (λ _ t. Queued b t)
          (on_response lib (continue lib (enqueue_response msg front)) response (start env b))
  unfolding on_response continue
  on_response-Queued response r env b info e =
      rw (r.status_ok, r.has_body, r.parsed)
        (catch-Returns (λ _ t. Queued b t) (on_enqueue_response lib msg front true r.json []) _
          (start env b)
          (rw (on_enqueue_response-eq response r (start env b))
            (enqueue_items-Queued env b info e)))

  -- What the player needs of the guild's entry, and of dpp while it plays.
  pub record IsQuiet (info : GuildInfo) (env : ℕ → Dpp) : Type 0 where
    pub not_stopped : info.should_stop ≡ false
    pub not_skipped : info.skip_requested ≡ false
    pub not_repeated : info.repeat_current ≡ false
    pub no_current : info.current_play.file_path ≡ []
    pub open_voice : (n : ℕ) → can_send info.shard_id msg.guild_id (env n) ≡ true
    pub no_exception : (n : ℕ) → (env n).send_fails ≡ false

  -- The entry behind the command and the response.
  abbrev noted : Bot → Bot
  noted b = on_info msg.guild_id (set_text_channel msg.channel_id) b

  module _ (files : Text → Option ℕ) (polls fuel : ℕ) where
    queued-IsResting :
        (env : ℕ → Dpp) (b : Bot) (info : GuildInfo)
        → find msg.guild_id b.guild_infos ≡ some info
        → IsQuiet info env
        → IsResting files alone polls fuel msg.guild_id info.shard_id
            (enqueue front items info.video_lists)
            (start env (on_info msg.guild_id (on_videos (enqueue front items)) (noted b)))
    queued-IsResting env b info e q = record {
      calm = record {
        info = on_videos (enqueue front items) (set_text_channel msg.channel_id info);
        alone = λ n c. refl;
        known = ground (
          arith,
          e,
          find-update msg.guild_id msg.guild_id (set_text_channel msg.channel_id) b.guild_infos,
          find-update msg.guild_id msg.guild_id (on_videos (enqueue front items))
              (noted b).guild_infos,
        );
        not_stopped = q.not_stopped;
        not_skipped = q.not_skipped;
        open_voice = q.open_voice;
        no_exception = q.no_exception;
      };
      unlocked = refl;
      own_shard = refl;
      no_current = q.no_current;
      unrepeated = q.not_repeated;
      listed = refl;
    }

    -- The audio thread, after the message and the response, plays the whole list that they leave.
    abbrev pub PlaysAll : (ℕ → Dpp) → List VideoDbInfo → Bot → Type 0
    PlaysAll env videos b =
        Returns (PlayedAll files alone polls fuel msg.guild_id videos (start env b)) (
          play_audio_thread files alone (suc polls) fuel msg.guild_id (length videos) (start env b))

    -- From a user's words to the listeners. In a guild that does not repeat and whose audio thread rests
    -- between two songs, a message `!play`, `!p`, `!first` or `!f` with an argument returns; the response of the server, if
    -- it is a success with videos, returns; and then the audio thread, if nothing disturbs it and every
    -- file can be opened, plays all the videos that waited and the new ones in a round each: the new
    -- ones before the others for `!first` and `!f`, and behind them otherwise, each file whole, but for
    -- an odd last byte.
    pub play_to_end :
        (draws : List ℕ) (env env' env'' : ℕ → Dpp) (b : Bot) (info : GuildInfo) (v : Verb)
        (w args : Text) (response : Response)
        → msg.author_is_bot ≡ false
        → msg.content ≡ text "!" ++ (w ++ space ∷ args)
        → map to_lower w ≡ text (spelling v)
        → AsksFor v front
        → is_empty args ≡ false
        → All (λ c. c < 256) args
        → find msg.guild_id b.guild_infos ≡ some info
        → Brings response
        → IsQuiet info env''
        → All (Playable files alone polls fuel msg.guild_id) (enqueue front items info.video_lists)
        → Returns
            (λ _ t.
              Returns
                (λ _ u. PlaysAll env'' (enqueue front items info.video_lists) u.bot)
                (on_response lib
                  (continue lib (enqueue_response msg front))
                  response
                  (start env' t.bot)))
            (on_message_create draws msg (start env b))
    play_to_end draws env env' env'' b info v w args response user content h a n bytes e r q
          files_ok =
        let asks =
          on_message_create-asks env b msg info draws v w args front user content h a n bytes e in
        let known : find msg.guild_id (noted b).guild_infos
            ≡ some (set_text_channel msg.channel_id info) =
          ground (
            arith,
            e,
            find-update msg.guild_id msg.guild_id (set_text_channel msg.channel_id) b.guild_infos,
          ) in
        let videos = enqueue front items info.video_lists in
        subst
          (Returns (λ _ t.
            Returns (λ _ u. PlaysAll env'' videos u.bot)
              (on_response lib (continue lib (enqueue_response msg front)) response
                (start env' t.bot))))
          (sym asks.1)
          (
            refl,
            Returns-map (λ _ u. Queued (noted b) u) (λ _ u. PlaysAll env'' videos u.bot)
                (λ _ u k. subst (PlaysAll env'' videos) (sym k) (
                  play_audio_thread_lem files alone polls fuel msg.guild_id info.shard_id videos _
                    (queued-IsResting env'' b info e q) files_ok))
                (on_response lib (continue lib (enqueue_response msg front)) response
                  (start env' (noted b)))
                (on_response-Queued response r env' (noted b) (set_text_channel msg.channel_id info)
                  known),
          )
