-- ===== src/Threads/Tests.antt =====
-- A guild that joins, plays and leaves, block by block; guild 7 of the sample as the blocks see it.
use dpp_bot.Base.{
  ℕ, ◌≡◌, ◌≢◌, ◌⊎◌, ◌++◌, refl, Bool, true, false, none, some, [], ◌∷◌, arith, if◌then◌else◌, ◌==◌,
}
use dpp_bot.Text.{text}
use dpp_bot.Dict.{find}
use dpp_bot.Task.{start}
use dpp_bot.Task.Endings.{Ends, Returns}
use dpp_bot.Connection.{leave_voice, handle_join}
use dpp_bot.Connection.Leaving.{disconnect_calls, join_calls}
use dpp_bot.Threads.{
  exited, holding, to_leave, idle, erasing, State, Next, goes_on, use_after_free, deadlocks, waits,
  Move, begin_leave, begin_join, advance, look_up, set_at, at_block, joining, run_block, move, run,
  new_state, handle_of,
}
use dpp_bot.Threads.Phase.{is_live}
use dpp_bot.Threads.Serial.{IsAllowed, Serial, fresh, after, serial_threads, join_ends}
use dpp_bot.Threads.Overlap.{
  second_leave, second_leave-frees, join_within_leave, join_within_leave-deadlocks,
}
use dpp_bot.Threads.Blocks.{
  Agrees, AgreesWith, is_some, leave_alone, join_alone, leave-Agrees, join-Agrees,
}
use dpp_bot.Sample.{discord, two_guilds, command_in}

-- A guild whose audio thread, thread 0, has its pointer to the entry.
abbrev playing : State
playing = record {
  entry = some (record { number = 0; should_stop = false; audio_thread = some 0 });
  next_number = 1;
  next_thread = 1;
  players = λ t. if t == 0 then holding 0 else exited;
  workers = λ i. record { pc = idle; moved = none };
}

abbrev state_of : Next → State
state_of (goes_on s) = s
state_of waits = new_state
state_of use_after_free = new_state
state_of deadlocks = new_state

-- A join and the first look-up of its thread; then a leave up to its `join`.
abbrev joined : State
joined =
    state_of
      (run (begin_join 0 true ∷ advance 0 ∷ advance 0 ∷ advance 0 ∷ look_up 0 ∷ []) new_state)

abbrev leaving : State
leaving = state_of (run (begin_leave 0 ∷ advance 0 ∷ advance 0 ∷ []) joined)

joined-Serial : Serial joined
unfolding run move run_block
joined-Serial =
    after _ _ (look_up 0)
      (after _ _ (advance 0)
        (after _ _ (advance 0)
          (after _ _ (advance 0) (after new_state _ (begin_join 0 true) fresh (λ j. refl) refl) tt
            refl)
          tt refl)
        tt refl)
      tt refl

joined-free : (j : ℕ) → (joined.workers j).pc ≡ idle
unfolding run move run_block
joined-free j = ground arith

leaving-Serial : Serial leaving
unfolding run move run_block
leaving-Serial =
    after _ _ (advance 0)
      (after _ _ (advance 0) (after joined _ (begin_leave 0) joined-Serial joined-free refl) tt
        refl)
      tt refl

serial_threads_example :
    ((m : Move)
      → IsAllowed m leaving
      → (move m leaving ≢ use_after_free) × (move m leaving ≢ deadlocks))
    × ((t u : ℕ) → is_live (leaving.players t) ≡ true → is_live (leaving.players u) ≡ true → t ≡ u)
serial_threads_example = serial_threads leaving leaving-Serial

leaving_waits : (leaving.workers 0).pc ≡ joining to_leave
unfolding run move run_block
leaving_waits = refl

thread_lives : is_live (leaving.players 0) ≡ true
unfolding run move run_block
thread_lives = refl

join_ends_example :
    run (look_up 0 ∷ advance 0 ∷ []) leaving
    ≡ goes_on (
        at_block 0
          (erasing to_leave)
          (record leaving { players = set_at 0 exited leaving.players }))
join_ends_example = join_ends leaving 0 to_leave leaving_waits 0 leaving-Serial thread_lives

second_leave-frees_example : run (second_leave 0 1 0) playing ≡ use_after_free
second_leave-frees_example =
    second_leave-frees playing 0 1 0
      (record { number = 0; should_stop = false; audio_thread = some 0 }) refl refl refl refl refl
      refl

join_within_leave-deadlocks_example : run (join_within_leave 0 1 0) playing ≡ deadlocks
join_within_leave-deadlocks_example =
    join_within_leave-deadlocks playing 0 1 0
      (record { number = 0; should_stop = false; audio_thread = some 0 }) refl refl refl refl refl
      refl

guild-Agrees : Agrees (find 7 two_guilds.guild_infos) playing.entry
unfolding find
guild-Agrees = (refl, refl)

playing_lives : (t : ℕ) → handle_of playing.entry ≡ some t → is_live (playing.players t) ≡ true
playing_lives t e = ground arith

leave-Agrees_example :
    Returns
      (λ _ u.
        AgreesWith
          (find 7 u.bot.guild_infos)
          (run (leave_alone 0 (handle_of playing.entry)) playing)
        × (u.log
            ≡ disconnect_calls 7 ((discord 0).get_shard 0)
              ++ join_calls 7 (is_some (handle_of playing.entry))))
      (leave_voice 7 0 (start discord two_guilds))
leave-Agrees_example = leave-Agrees playing 0 refl discord two_guilds 7 0 guild-Agrees playing_lives

join-Agrees_example :
    Ends
      (λ u.
        Agrees (find 7 u.bot.guild_infos) playing.entry
        ⊎ ((connects : Bool) × AgreesWith
              (find 7 u.bot.guild_infos)
              (run (join_alone 0 connects playing.entry) playing)))
      (handle_join (command_in 7 (text "!join")) (start discord two_guilds))
join-Agrees_example =
    join-Agrees playing 0 refl discord two_guilds (command_in 7 (text "!join")) guild-Agrees
      playing_lives
