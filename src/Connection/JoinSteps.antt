-- ===== src/Connection/JoinSteps.antt =====
-- The steps of `HandleJoinCommand`: what each does to the log and to the entries of the guilds.
use dpp_bot.Base.{
  ℕ, suc, ◌≡◌, refl, Bool, true, false, not, ◌&&◌, ◌||◌, Option, none, some, List, [], ◌∷◌, ◌++◌,
  arith, inl, inr, Option-cases, ◌==◌, ==_self, ◌≢◌,
}
use dpp_bot.Dict.{find, update, emplace}
use dpp_bot.Dict.Laws.{find-update, erase-update, erase-missing, find-emplace}
use dpp_bot.Guild.{GuildInfo, new_guild_info, move_guild_info}
use dpp_bot.Task.{
  Task, Bot, Dpp, Call, Message, returns, join_player, spawn_player, ◌>>◌, disconnect_voice,
  connect_member, stop_audio, voiceconn_disconnect,
}
use dpp_bot.Task.Endings.{Ends}
use dpp_bot.Messages.{send_bot_message}
use dpp_bot.Voice.{forget, reset_voice_tracking}
use dpp_bot.Connection.{
  establish, drop_connection, connected, drop_guild, halt, ready, voice_of, launch,
  set_text_channel, channel_of, create_guild, start_audio_thread, disconnect,
}
use dpp_bot.Connection.Leaving.{join_calls}

-- Whether a log, latest first, has the join of the guild's thread, and whether a call takes the
-- voice client away from that thread.
abbrev pub joined : ℕ → List Call → Bool
joined guild [] = false
joined guild (join_player g ∷ log) = g == guild || joined guild log
joined guild (_ ∷ log) = joined guild log

abbrev pub closes : Call → Bool
closes (disconnect_voice g) = true
closes (stop_audio g) = true
closes (voiceconn_disconnect g) = true
closes _ = false

-- Every such call comes after the join.
abbrev pub guarded : ℕ → List Call → Bool
guarded guild [] = true
guarded guild (c ∷ log) = (not (closes c) || joined guild log) && guarded guild log

abbrev pub closing : ℕ → Bool → List Call → List Call
closing guild false log = log
closing guild true log = voiceconn_disconnect guild ∷ stop_audio guild ∷ log

pub drop_connection_lem :
    (msg : Message) (t : Task) (info : GuildInfo)
    → t.held ≡ []
    → find msg.guild_id t.bot.guild_infos ≡ some info
    → drop_connection msg t
      ≡ returns tt (record t {
        bot = drop_guild msg.guild_id t.bot;
        log =
            closing msg.guild_id
              (ready (voice_of ((t.env t.tick).get_shard msg.shard_id) msg.guild_id))
              (join_calls msg.guild_id info.audio_thread ++ t.log);
        tick = suc t.tick;
      })
unfolding drop_connection
drop_connection_lem msg t info h e = ground (
  arith,
  find-update msg.guild_id msg.guild_id halt t.bot.guild_infos,
  erase-update msg.guild_id halt t.bot.guild_infos,
)

-- The entry of a guild that was just joined: its thread runs, its play list is empty and notices go
-- to the channel of the command. There is none if no connection came about.
abbrev pub Fresh : Message → Option GuildInfo → Type 0
Fresh msg none = Unit
Fresh msg (some info) =
    (info.audio_thread ≡ true)
    × (info.should_stop ≡ false)
    × (info.video_lists ≡ [])
    × (info.shard_id ≡ msg.shard_id)
    × (info.last_text_channel_id ≡ msg.channel_id)

-- What holds of the log and of the entries behind a join, for another guild `j`: if
-- the guild had a thread, no call closes its voice client before the thread is joined.
abbrev pub After : Message → Bool → ℕ → Bot → Task → Type 0
After msg threaded j b t =
    ((not threaded || guarded msg.guild_id t.log) ≡ true)
    × Fresh msg (find msg.guild_id t.bot.guild_infos)
    × (find j t.bot.guild_infos ≡ find j b.guild_infos)

-- The entries once `emplace`, the note of the text channel and the start of the thread are through.
abbrev pub entries : Message → ℕ → Dpp → Dpp → Bot → Bot
entries msg channel made moved b = record b {
  guild_infos = update msg.guild_id launch (
      update msg.guild_id (set_text_channel msg.channel_id) (
        emplace msg.guild_id
          (move_guild_info (new_guild_info msg.shard_id channel made.now) moved.now)
          b.guild_infos));
}

create-start :
    (msg : Message) (channel : ℕ) (t : Task)
    → t.held ≡ []
    → find msg.guild_id t.bot.guild_infos ≡ none
    → (create_guild msg channel >> start_audio_thread msg.guild_id) t
      ≡ returns tt (record t {
        bot = entries msg channel (t.env t.tick) (t.env (suc t.tick)) t.bot;
        log = spawn_player msg.guild_id ∷ t.log;
        tick = suc (suc t.tick);
      })
unfolding create_guild start_audio_thread new_guild_info move_guild_info
create-start msg channel t h e =
    let fresh =
      move_guild_info (new_guild_info msg.shard_id channel (t.env t.tick).now)
        (t.env (suc t.tick)).now in
    ground (
      arith,
      erase-missing msg.guild_id t.bot.guild_infos e,
      find-emplace msg.guild_id msg.guild_id fresh t.bot.guild_infos,
      find-update msg.guild_id msg.guild_id (set_text_channel msg.channel_id)
          (emplace msg.guild_id fresh t.bot.guild_infos),
    )

entries-Fresh :
    (msg : Message) (channel : ℕ) (made moved : Dpp) (b : Bot)
    → find msg.guild_id b.guild_infos ≡ none
    → Fresh msg (find msg.guild_id (entries msg channel made moved b).guild_infos)
unfolding new_guild_info move_guild_info
entries-Fresh msg channel made moved b e =
    let fresh = move_guild_info (new_guild_info msg.shard_id channel made.now) moved.now in
    rw (find-update, ==_self, find-update, ==_self, find-emplace, ==_self, e)
      (refl, refl, refl, refl, refl)

entries_other :
    (msg : Message) (channel j : ℕ) (made moved : Dpp) (b : Bot)
    → j ≢ msg.guild_id
    → find j (entries msg channel made moved b).guild_infos ≡ find j b.guild_infos
entries_other msg channel j made moved b ne =
    let fresh = move_guild_info (new_guild_info msg.shard_id channel made.now) moved.now in
    let m1 = emplace msg.guild_id fresh b.guild_infos in
    ground (
      arith,
      find-emplace j msg.guild_id fresh b.guild_infos,
      find-update j msg.guild_id (set_text_channel msg.channel_id) m1,
      find-update j msg.guild_id launch (update msg.guild_id (set_text_channel msg.channel_id) m1),
    )

connected-After :
    (msg : Message) (threaded : Bool) (t : Task) (j : ℕ)
    → t.held ≡ []
    → find msg.guild_id t.bot.guild_infos ≡ none
    → (not threaded || guarded msg.guild_id t.log) ≡ true
    → j ≢ msg.guild_id
    → Ends (After msg threaded j t.bot) (connected msg t)
unfolding connected send_bot_message
connected-After msg threaded t j h e g ne =
    elim (Option-cases (voice_of ((t.env t.tick).get_shard msg.shard_id) msg.guild_id)) [
      | inl missing ↦ ground arith
      | inr (vconn, found) ↦
          let u = record t { tick = suc t.tick } in
          let ch = channel_of vconn in
          ground (
            arith,
            create-start msg ch u h e,
            entries-Fresh msg ch (t.env (suc t.tick)) (t.env (suc (suc t.tick))) t.bot e,
            entries_other msg ch j (t.env (suc t.tick)) (t.env (suc (suc t.tick))) t.bot ne,
          )
    ]

pub establish-After :
    (msg : Message) (threaded : Bool) (t : Task) (j : ℕ)
    → t.held ≡ []
    → find msg.guild_id t.bot.guild_infos ≡ none
    → (not threaded || joined msg.guild_id t.log) ≡ true
    → (not threaded || guarded msg.guild_id t.log) ≡ true
    → j ≢ msg.guild_id
    → Ends (After msg threaded j t.bot) (establish msg t)
unfolding establish send_bot_message disconnect reset_voice_tracking
establish-After msg threaded t j h e p g ne =
    elim (Option-cases ((t.env t.tick).get_shard msg.shard_id)) [
      | inl missing ↦
          let u = record t {
            bot = forget msg.guild_id t.bot;
            log = connect_member msg.guild_id msg.author_id ∷ t.log;
            tick = suc (suc t.tick);
          } in
          ground (arith, connected-After msg threaded u j h e)
      | inr (shard, found) ↦
          let u = record t {
            bot = forget msg.guild_id t.bot;
            log = connect_member msg.guild_id msg.author_id ∷ disconnect_voice msg.guild_id ∷ t.log;
            tick = suc (suc t.tick);
          } in
          ground (arith, connected-After msg threaded u j h e)
    ]
