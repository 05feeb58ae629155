-- ===== src/Threads/Blocks.antt =====
-- The blocks of `LeaveVoice` and `StartAudioThread`, with nobody but the guild's audio thread between
-- them, come to the entry that the methods of the client's model come to.
use dpp_bot.Base.{
  ℕ, suc, ◌≡◌, refl, sym, ap, subst, ◌⊎◌, ◌++◌, ==_self, Bool, true, false, Option, none, some,
  List, [], ◌∷◌, arith, inl, inr, Option-cases,
}
use mathlib.Core.Logic.{⊎_elim}
use dpp_bot.Dict.{find}
use dpp_bot.Dict.Laws.{find-erase}
use dpp_bot.Guild.{GuildInfo}
use dpp_bot.Task.Endings.{Ends, Returns, Ends-map}
use dpp_bot.Task.{Message, Bot, Dpp, start}
use dpp_bot.Connection.{leave_voice, handle_join, drop_guild}
use dpp_bot.Connection.JoinSteps.{Fresh}
use dpp_bot.Connection.Joining.{Settled, handle_join_lem}
use dpp_bot.Connection.Leaving.{has_thread, disconnect_calls, join_calls, leave_voice_lem}
use dpp_bot.Threads.Phase.{is_live}
use dpp_bot.Threads.{
  Entry, Pc, idle, State, Next, goes_on, waits, deadlocks, use_after_free, Move, begin_leave,
  begin_join, advance, look_up, handle_of, run_block, move, run,
}

abbrev pub is_some : Option ℕ → Bool
is_some none = false
is_some (some t) = true

-- The entry of the blocks is the entry of the client's model: the same flag, and a thread or none.
abbrev pub Agrees : Option GuildInfo → Option Entry → Type 0
Agrees none none = Unit {0}
Agrees none (some e) = ⊥
Agrees (some info) none = ⊥
Agrees (some info) (some e) =
    (info.should_stop ≡ e.should_stop) × (info.audio_thread ≡ is_some e.audio_thread)

-- The thread that is waited for looks its guild up once.
abbrev pub turn : Option ℕ → List Move → List Move
turn none ms = ms
turn (some t) ms = look_up t ∷ ms

-- A leave, and a join, with no other worker between their blocks.
abbrev pub leave_alone : ℕ → Option ℕ → List Move
leave_alone i handle =
    begin_leave i ∷ advance i ∷ advance i ∷ turn handle (advance i ∷ advance i ∷ [])

abbrev pub creation : ℕ → Bool → List Move
creation i true = advance i ∷ advance i ∷ []
creation i false = []

abbrev pub join_alone : ℕ → Bool → Option Entry → List Move
join_alone i connects none = begin_join i connects ∷ advance i ∷ creation i connects
join_alone i connects (some e) =
    begin_join i connects
    ∷ advance i
    ∷ advance i
    ∷ turn e.audio_thread (advance i ∷ advance i ∷ creation i connects)

-- What a schedule comes to: the entry, the next block of a worker.
abbrev pub entry_of : Next → Option (Option Entry)
entry_of (goes_on v) = some v.entry
entry_of n = none

abbrev pub pc_of : ℕ → Next → Option Pc
pc_of i (goes_on v) = some (v.workers i).pc
pc_of i n = none

-- The blocks go through and leave the entry that the method leaves.
abbrev pub AgreesWith : Option GuildInfo → Next → Type 0
AgreesWith o (goes_on v) = Agrees o v.entry
AgreesWith o waits = ⊥
AgreesWith o use_after_free = ⊥
AgreesWith o deadlocks = ⊥

AgreesWith-entry :
    (o : Option GuildInfo) (entry : Option Entry) (n : Next)
    → entry_of n ≡ some entry
    → Agrees o entry
    → AgreesWith o n
AgreesWith-entry o entry (goes_on v) e h = subst (Agrees o) (ground arith) h
AgreesWith-entry o entry waits e h = ground arith
AgreesWith-entry o entry use_after_free e h = ground arith
AgreesWith-entry o entry deadlocks e h = ground arith

module _ (s : State) (i : ℕ) (free : (s.workers i).pc ≡ idle) where
  leave_none :
      handle_of s.entry ≡ none
      → (entry_of (run (leave_alone i none) s) ≡ some none)
        × (pc_of i (run (leave_alone i none) s) ≡ some idle)
  unfolding run move run_block
  leave_none h = elim (Option-cases s.entry) [
    | inl e ↦ (ground arith, ground arith)
    | inr (entry, e) ↦ (ground arith, ground arith)
  ]

  leave_some :
      (t : ℕ)
      → handle_of s.entry ≡ some t
      → is_live (s.players t) ≡ true
      → (entry_of (run (leave_alone i (some t)) s) ≡ some none)
        × (pc_of i (run (leave_alone i (some t)) s) ≡ some idle)
  unfolding run move run_block
  leave_some t h l = elim (Option-cases s.entry) [
    | inl e ↦ (ground arith, ground arith)
    | inr (entry, e) ↦ (ground arith, ground arith)
  ]

  leave_end :
      (o : Option ℕ)
      → handle_of s.entry ≡ o
      → ((t : ℕ) → o ≡ some t → is_live (s.players t) ≡ true)
      → (entry_of (run (leave_alone i o) s) ≡ some none)
        × (pc_of i (run (leave_alone i o) s) ≡ some idle)
  leave_end none h l = leave_none h
  leave_end (some t) h l = leave_some t h (l t refl)

  -- What a join leaves: nothing, or an entry with a thread that was not asked to stop.
  abbrev pub joined_entry : Bool → Option Entry
  joined_entry false = none
  joined_entry true =
      some
        (record { number = s.next_number; should_stop = false; audio_thread = some s.next_thread })

  join_new :
      (connects : Bool)
      → s.entry ≡ none
      → entry_of (run (join_alone i connects none) s) ≡ some (joined_entry connects)
  unfolding run move run_block
  join_new true e = ground arith
  join_new false e = ground arith

  join_silent :
      (connects : Bool) (entry : Entry)
      → s.entry ≡ some entry
      → entry.audio_thread ≡ none
      → entry_of (run (join_alone i connects (some entry)) s) ≡ some (joined_entry connects)
  unfolding run move run_block
  join_silent true entry e h = rw h (ground arith)
  join_silent false entry e h = rw h (ground arith)

  join_playing :
      (connects : Bool) (entry : Entry) (t : ℕ)
      → s.entry ≡ some entry
      → entry.audio_thread ≡ some t
      → is_live (s.players t) ≡ true
      → entry_of (run (join_alone i connects (some entry)) s) ≡ some (joined_entry connects)
  unfolding run move run_block
  join_playing true entry t e h l = rw h (ground arith)
  join_playing false entry t e h l = rw h (ground arith)

  join_end :
      (connects : Bool) (o : Option Entry)
      → s.entry ≡ o
      → ((t : ℕ) → handle_of o ≡ some t → is_live (s.players t) ≡ true)
      → entry_of (run (join_alone i connects o) s) ≡ some (joined_entry connects)
  join_end connects none e l = join_new connects e
  join_end connects (some entry) e l = elim (Option-cases entry.audio_thread) [
    | inl h ↦ join_silent connects entry e h
    | inr (t, h) ↦ join_playing connects entry t e h (l t h)
  ]

  Agrees-has_thread :
      (o : Option GuildInfo) (entry : Option Entry)
      → Agrees o entry
      → has_thread o ≡ is_some (handle_of entry)
  Agrees-has_thread none none h = refl
  Agrees-has_thread none (some e) h = absurd h
  Agrees-has_thread (some info) none h = absurd h
  Agrees-has_thread (some info) (some e) h = h.1

  -- If the blocks and the client's model agree on the guild's entry, and its thread, where it has
  -- one, has not ended, then the blocks of a leave with no other worker between them go through and
  -- leave the entry that `LeaveVoice` leaves, and `LeaveVoice` joins a thread exactly if the blocks
  -- moved one out of the entry.
  pub leave-Agrees :
      (env : ℕ → Dpp) (b : Bot) (guild shard : ℕ)
      → Agrees (find guild b.guild_infos) s.entry
      → ((t : ℕ) → handle_of s.entry ≡ some t → is_live (s.players t) ≡ true)
      → Returns
          (λ _ u.
            AgreesWith (find guild u.bot.guild_infos) (run (leave_alone i (handle_of s.entry)) s)
            × (u.log
                ≡ disconnect_calls guild ((env 0).get_shard shard)
                  ++ join_calls guild (is_some (handle_of s.entry))))
          (leave_voice guild shard (start env b))
  leave-Agrees env b guild shard h l = rw (leave_voice_lem env b guild shard) (
    refl,
    (
      AgreesWith-entry (find guild (drop_guild guild b).guild_infos) none
          (run (leave_alone i (handle_of s.entry)) s) (leave_end (handle_of s.entry) refl l).0
          (rw (find-erase guild guild b.guild_infos, ==_self guild) tt),
      ap
          (λ (live : Bool).
            disconnect_calls guild ((env 0).get_shard shard) ++ join_calls guild live)
          (Agrees-has_thread (find guild b.guild_infos) s.entry h),
    ),
  )

  Fresh-Agrees :
      (msg : Message) (o : Option GuildInfo)
      → Fresh msg o
      → (connects : Bool) × Agrees o (joined_entry connects)
  Fresh-Agrees msg none f = (false, tt)
  Fresh-Agrees msg (some info) f = (true, (f.1, f.0))

  -- If the blocks and the client's model agree on the guild's entry, and its thread, where it has
  -- one, has not ended, then `!join` ends with the entry as it was, or with the entry that the blocks
  -- of a join, with no other worker between them, go through to, where they connect or where they do
  -- not.
  pub join-Agrees :
      (env : ℕ → Dpp) (b : Bot) (msg : Message)
      → Agrees (find msg.guild_id b.guild_infos) s.entry
      → ((t : ℕ) → handle_of s.entry ≡ some t → is_live (s.players t) ≡ true)
      → Ends
          (λ u.
            Agrees (find msg.guild_id u.bot.guild_infos) s.entry
            ⊎ ((connects : Bool) × AgreesWith
                  (find msg.guild_id u.bot.guild_infos)
                  (run (join_alone i connects s.entry) s)))
          (handle_join msg (start env b))
  join-Agrees env b msg h l =
      Ends-map (Settled msg (suc msg.guild_id) b) _
        (λ u settled.
          ⊎_elim
            (λ (same : u.bot ≡ b).
              inl (
                subst (λ (c : Bot). Agrees (find msg.guild_id c.guild_infos) s.entry) (sym same) h))
            (λ (fresh : Fresh msg (find msg.guild_id u.bot.guild_infos)).
              let (connects, agrees) =
                Fresh-Agrees msg (find msg.guild_id u.bot.guild_infos) fresh in
              inr (
                connects,
                AgreesWith-entry (find msg.guild_id u.bot.guild_infos) (joined_entry connects)
                    (run (join_alone i connects s.entry) s) (join_end connects s.entry refl l)
                    agrees,
              ))
            settled.1)
        (handle_join msg (start env b)) (handle_join_lem env b msg (suc msg.guild_id) (omega arith))
