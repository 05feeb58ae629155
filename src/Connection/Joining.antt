-- ===== src/Connection/Joining.antt =====
-- Joining a voice channel: the order of the calls, that it ends, and the entry that it leaves.
use dpp_bot.Base.{
  ℕ, suc, ◌≡◌, refl, Bool, true, false, not, ◌||◌, none, List, [], ◌++◌, arith, inl, inr,
  Option-cases, Bool-cases, ◌⊎◌, ◌≢◌, ◌∙◌,
}
use dpp_bot.Dict.{find, erase, contains}
use dpp_bot.Dict.Laws.{find-erase}
use dpp_bot.Task.{Task, Bot, Dpp, Call, Message, start}
use dpp_bot.Task.Endings.{Ends, Ends-map}
use dpp_bot.Messages.{send_bot_message}
use dpp_bot.Connection.{handle_join, join_member, establish, drop_guild, ready, voice_of}
use dpp_bot.Connection.Leaving.{has_thread, join_calls}
use dpp_bot.Connection.JoinSteps.{
  joined, guarded, closing, Fresh, After, drop_connection_lem, establish-After,
}

-- The log of `drop_connection`, where nothing was logged before.
abbrev dropped : ℕ → Bool → Bool → List Call
dropped guild live threaded = closing guild live (join_calls guild threaded ++ [])

dropped-joined : (guild : ℕ) (r a : Bool) → (not a || joined guild (dropped guild r a)) ≡ true
dropped-joined guild r a = ground arith

dropped-guarded : (guild : ℕ) (r a : Bool) → (not a || guarded guild (dropped guild r a)) ≡ true
dropped-guarded guild r a = ground arith

join_member-After :
    (msg : Message) (t : Task) (j : ℕ)
    → t.held ≡ []
    → t.log ≡ []
    → j ≢ msg.guild_id
    → Ends
        (After msg (has_thread (find msg.guild_id t.bot.guild_infos)) j t.bot)
        (join_member msg t)
unfolding join_member contains
join_member-After msg t j h l ne = elim (Option-cases (find msg.guild_id t.bot.guild_infos)) [
  | inl e ↦ ground (arith, establish-After msg false t j h e)
  | inr (info, e) ↦
      let open_voice = ready (voice_of ((t.env t.tick).get_shard msg.shard_id) msg.guild_id) in
      let u = record t {
        bot = drop_guild msg.guild_id t.bot;
        log = dropped msg.guild_id open_voice info.audio_thread;
        tick = suc t.tick;
      } in
      ground (
        arith,
        drop_connection_lem msg t info h e,
        find-erase msg.guild_id msg.guild_id t.bot.guild_infos,
        Ends-map (After msg info.audio_thread j u.bot) (After msg info.audio_thread j t.bot)
            (λ (v : Task) (p : After msg info.audio_thread j u.bot v). (p.0, p.1, p.2 ∙ kept))
            (establish msg u)
            (establish-After msg info.audio_thread u j h gone
              (dropped-joined msg.guild_id open_voice info.audio_thread)
              (dropped-guarded msg.guild_id open_voice info.audio_thread) ne),
      )
]
  where
    gone : find msg.guild_id (erase msg.guild_id t.bot.guild_infos) ≡ none
    gone = ground (arith, find-erase msg.guild_id msg.guild_id t.bot.guild_infos)

    kept : find j (erase msg.guild_id t.bot.guild_infos) ≡ find j t.bot.guild_infos
    kept = ground (arith, find-erase j msg.guild_id t.bot.guild_infos)

-- What holds behind `!join`, for another guild `j`.
abbrev pub Settled : Message → ℕ → Bot → Task → Type 0
Settled msg j b t =
    ((not (has_thread (find msg.guild_id b.guild_infos)) || guarded msg.guild_id t.log) ≡ true)
    × ((t.bot ≡ b) ⊎ Fresh msg (find msg.guild_id t.bot.guild_infos))
    × (find j t.bot.guild_infos ≡ find j b.guild_infos)

-- `!join` always ends with every lock released, at the latest by an exception of dpp, and never
-- waits for itself. If the guild had an audio thread, no call that closes its voice client comes
-- before the thread is joined. Afterwards the bot is as it was, or the guild has no entry, or it has
-- one whose thread runs, with an empty play list, that notes the command's channel. The entry of
-- every other guild is as it was.
pub handle_join_lem :
    (env : ℕ → Dpp) (b : Bot) (msg : Message) (j : ℕ)
    → j ≢ msg.guild_id
    → Ends (Settled msg j b) (handle_join msg (start env b))
unfolding handle_join send_bot_message
handle_join_lem env b msg j ne = elim (Option-cases ((env 0).find_guild msg.guild_id)) [
  | inl e ↦ ground arith
  | inr (g, e) ↦ elim (Bool-cases (contains msg.author_id g.voice_members)) [
    | inl p ↦
        let t = record (start env b) { tick = 1 } in
        ground (
          arith,
          Ends-map (After msg (has_thread (find msg.guild_id b.guild_infos)) j b) (Settled msg j b)
              (λ (v : Task) (a : After msg (has_thread (find msg.guild_id b.guild_infos)) j b v).
                (a.0, inr a.1, a.2))
              (join_member msg t) (join_member-After msg t j refl refl ne),
        )
    | inr p ↦ ground arith
  ]
]
