-- ===== src/System/Methods/Connecting.antt =====
-- Joining and leaving.
use dpp_bot.Base.{ℕ, if◌then◌else◌, Bool, Option, none, some, []}
use dpp_bot.Text.{text}
use dpp_bot.Dict.{contains}
use dpp_bot.Task.{
  M, Shard, DppGuild, observe, Message, VoiceConn, ◌>>=◌, ◌>>◌, done, when, throw, call,
  disconnect_voice,
}
use dpp_bot.Messages.{send_bot_message}
use dpp_bot.Connection.{
  voice_of, channel_of, emplace_guild, disconnect, create_guild, connected, start_audio_thread,
  ensure_guild_info, drop_connection, establish, join_member, handle_join, leave_voice,
  handle_leave, leave_worker,
}
use dpp_bot.System.Rules.{Rules, Holds, Holds-observe, Holds-bind, Holds-emplace, rules}
use dpp_bot.Task.{M}
use dpp_bot.System.Methods.Talking.{send_bot_message-Holds}
use dpp_bot.System.Methods.Voicing.{reset_voice_tracking-Holds}

module _ {P : (A : Type 0) → M A → Type 0} {r : Rules P} where
  ensured-Holds :
      (guild shard : ℕ) (o : Option VoiceConn)
      → Holds r (elim o as (λ x. M (Unit {0})) [
        | none ↦ emplace_guild guild shard 0
        | some vconn ↦ emplace_guild guild shard (channel_of vconn)
      ])
  ensured-Holds guild shard none = Holds-emplace guild shard 0
  ensured-Holds guild shard (some vconn) = Holds-emplace guild shard (channel_of vconn)

  unknown-Holds :
      (guild shard : ℕ)
      → Holds r (do
        d ← observe
        elim (voice_of (d.get_shard shard) guild) [
          | none ↦ emplace_guild guild shard 0
          | some vconn ↦ emplace_guild guild shard (channel_of vconn)
        ])
  unknown-Holds guild shard =
      Holds-bind observe _ Holds-observe
        λ d. ensured-Holds guild shard (voice_of (d.get_shard shard) guild)

  pub ensure_guild_info-Holds : (guild shard : ℕ) → Holds r (ensure_guild_info guild shard)
  unfolding ensure_guild_info
  ensure_guild_info-Holds guild shard = search (rules, unknown-Holds)

  disconnected-Holds :
      (guild : ℕ) (fails : Bool) (o : Option Shard)
      → Holds r (elim o as (λ x. M (Unit {0})) [
        | none ↦ done
        | some s ↦ do call (disconnect_voice guild); when fails (throw [])
      ])
  disconnected-Holds guild fails none = search rules
  disconnected-Holds guild fails (some s) = search rules

  disconnect-Holds : (guild shard : ℕ) → Holds r (disconnect guild shard)
  unfolding disconnect
  disconnect-Holds guild shard =
      Holds-bind observe _ Holds-observe
        λ d. disconnected-Holds guild d.disconnect_fails (d.get_shard shard)

  drop_connection-Holds : (msg : Message) → Holds r (drop_connection msg)
  unfolding drop_connection
  drop_connection-Holds msg = search (rules) depth 12

  create_guild-Holds : (msg : Message) (channel : ℕ) → Holds r (create_guild msg channel)
  unfolding create_guild
  create_guild-Holds msg channel = search (rules)

  created-Holds :
      (msg : Message) (o : Option VoiceConn)
      → Holds r (elim o as (λ x. M (Unit {0})) [
        | none ↦ done
        | some vconn ↦ do create_guild msg (channel_of vconn); start_audio_thread msg.guild_id
      ])
  created-Holds msg none = search rules
  created-Holds msg (some vconn) = search (rules, create_guild-Holds)

  connected-Holds : (msg : Message) → Holds r (connected msg)
  unfolding connected
  connected-Holds msg = Holds-bind observe _ Holds-observe λ d.
      Holds-bind _ _ (created-Holds msg (voice_of (d.get_shard msg.shard_id) msg.guild_id))
        λ u. send_bot_message-Holds msg.channel_id (text "ㅎㅇ")

  establish-Holds : (msg : Message) → Holds r (establish msg)
  unfolding establish
  establish-Holds msg =
      search
        (
          rules, reset_voice_tracking-Holds, disconnect-Holds, connected-Holds,
          send_bot_message-Holds,
        )
        depth 12

  join_member-Holds : (msg : Message) → Holds r (join_member msg)
  unfolding join_member
  join_member-Holds msg = search (rules, drop_connection-Holds, establish-Holds)

  asked-Holds :
      (msg : Message) (o : Option DppGuild)
      → Holds r (elim o as (λ x. M (Unit {0})) [
        | none ↦ send_bot_message msg.channel_id (text "ERROR")
        | some g ↦
            if contains msg.author_id g.voice_members
            then join_member msg
            else send_bot_message msg.channel_id (text "음성채널 입장후 사용가능")
      ])
  asked-Holds msg none = send_bot_message-Holds _ _
  asked-Holds msg (some g) = search (rules, join_member-Holds, send_bot_message-Holds)

  pub handle_join-Holds : (msg : Message) → Holds r (handle_join msg)
  unfolding handle_join
  handle_join-Holds msg =
      Holds-bind observe _ Holds-observe λ d. asked-Holds msg (d.find_guild msg.guild_id)

  leave_voice-Holds : (guild shard : ℕ) → Holds r (leave_voice guild shard)
  unfolding leave_voice
  leave_voice-Holds guild shard =
      search (rules, disconnect-Holds, reset_voice_tracking-Holds) depth 12

  pub handle_leave-Holds : (msg : Message) → Holds r (handle_leave msg)
  unfolding handle_leave
  handle_leave-Holds msg = leave_voice-Holds msg.guild_id msg.shard_id

  pub leave_worker-Holds : (guild shard channel : ℕ) → Holds r (leave_worker guild shard channel)
  unfolding leave_worker
  leave_worker-Holds guild shard channel = search (rules, leave_voice-Holds, send_bot_message-Holds)
