-- ===== src/Command/Asking.antt =====
-- What the local server is asked for by a command: the words that the user typed.
use dpp_bot.Base.{
  ℕ, ◌<◌, ◌≡◌, Bool, true, false, some, List, [], ◌∷◌, ◌++◌, map, arith, is_empty, All, ◌∙◌, ap,
}
use dpp_bot.Text.{Text, text, space, to_lower, starts_with}
use dpp_bot.Dict.{find, contains}
use dpp_bot.Dict.Laws.{find-update}
use dpp_bot.Guild.{GuildInfo}
use dpp_bot.Task.{
  Task, Bot, Dpp, Message, returns, start, on_info, request, add_reaction, enqueue_response,
}
use dpp_bot.FileLoader.{url_encode, request_server, server_base_url}
use dpp_bot.FileLoader.Url.{url_decode, url_decode-url_encode}
use dpp_bot.Connection.{set_text_channel}
use dpp_bot.Requests.{working, request_and_enqueue, join_first, handle_play, handle_first_play}
use dpp_bot.Command.{Command, dispatch, handle_command, on_message_create}
use dpp_bot.Command.Routing.{
  Verb, play_verb, p_verb, first_verb, f_verb, spelling, meaning, route_typed, with_argument,
}

-- The words that ask for a video, and whether it is to come first.
pub data AsksFor : Verb → Bool → Type 0 where
  to_play : AsksFor play_verb false
  to_p : AsksFor p_verb false
  to_first : AsksFor first_verb true
  to_f : AsksFor f_verb true

-- One request, after the reaction that tells of it, and nothing else but the noted channel changed.
abbrev pub asked : (ℕ → Dpp) → Bot → Message → Bool → Text → Task
asked env b msg front query =
    record (start env (on_info msg.guild_id (set_text_channel msg.channel_id) b)) {
      log =
          request (server_base_url ++ (text "/process?q=" ++ query)) (enqueue_response msg front)
          ∷ add_reaction msg.msg_id working
          ∷ [];
    }

module _ (env : ℕ → Dpp) (b : Bot) (msg : Message) (info : GuildInfo) where
  request_asked :
      (args : Text) (front : Bool)
      → find msg.guild_id b.guild_infos ≡ some info
      → request_and_enqueue args msg front (start env b)
        ≡ returns tt (record (start env b) {
          log =
              request
                (server_base_url ++ (text "/process?q=" ++ url_encode args))
                (enqueue_response msg front)
              ∷ add_reaction msg.msg_id working
              ∷ [];
        })
  unfolding request_and_enqueue join_first request_server contains
  request_asked args front e = ground (arith, e)

  dispatch_asked :
      (draws : List ℕ) (v : Verb) (args : Text) (front : Bool)
      → AsksFor v front
      → is_empty args ≡ false
      → find msg.guild_id b.guild_infos ≡ some info
      → dispatch draws (meaning v args) msg (start env b)
        ≡ request_and_enqueue args msg front (start env b)
  unfolding dispatch handle_play handle_first_play
  dispatch_asked draws _ args _ to_play n e = ground (arith, n)
  dispatch_asked draws _ args _ to_p n e = ground (arith, n)
  dispatch_asked draws _ args _ to_first n e = ground (arith, n)
  dispatch_asked draws _ args _ to_f n e = ground (arith, n)

module _ (env : ℕ → Dpp) (b : Bot) (msg : Message) (info : GuildInfo) where
  handled :
      (draws : List ℕ) (v : Verb) (w args : Text) (front : Bool)
      → map to_lower w ≡ text (spelling v)
      → AsksFor v front
      → is_empty args ≡ false
      → find msg.guild_id b.guild_infos ≡ some info
      → handle_command draws (w ++ space ∷ args) msg (start env b)
        ≡ returns tt (asked env b msg front (url_encode args))
  unfolding handle_command
  handled draws v w args front h a n e =
      let noted = on_info msg.guild_id (set_text_channel msg.channel_id) b in
      let known : find msg.guild_id noted.guild_infos
          ≡ some (set_text_channel msg.channel_id info) =
        ground (
          arith,
          e,
          find-update msg.guild_id msg.guild_id (set_text_channel msg.channel_id) b.guild_infos,
        ) in
      ap (λ (c : Command). dispatch draws c msg (start env noted))
        (route_typed (w ++ space ∷ args) (meaning v args) (with_argument v w args h))
      ∙ dispatch_asked env noted msg (set_text_channel msg.channel_id info) draws v args front a n
          known
      ∙ request_asked env noted msg (set_text_channel msg.channel_id info) args front known

  -- A message of a user that begins with `!play`, `!p`, `!first` or `!f`, in any case, a space and an
  -- argument, in a guild that has an entry, makes one request to the server, after the reaction that
  -- tells of it, and changes nothing but the guild's last text channel. What the server decodes from
  -- the request is the argument as the user typed it, cases and spaces included, and the callback will
  -- put the videos first exactly for the latter two words.
  pub on_message_create-asks :
      (draws : List ℕ) (v : Verb) (w args : Text) (front : Bool)
      → msg.author_is_bot ≡ false
      → msg.content ≡ text "!" ++ (w ++ space ∷ args)
      → map to_lower w ≡ text (spelling v)
      → AsksFor v front
      → is_empty args ≡ false
      → All (λ c. c < 256) args
      → find msg.guild_id b.guild_infos ≡ some info
      → (query : Text) × (on_message_create draws msg (start env b)
          ≡ returns tt (asked env b msg front query))
        × (url_decode query ≡ some args)
  unfolding on_message_create starts_with text
  on_message_create-asks draws v w args front user content h a n bytes e = (
    url_encode args,
    ground (arith, user, content, handled draws v w args front h a n e),
    url_decode-url_encode args bytes,
  )
