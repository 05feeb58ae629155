-- ===== src/Threads.antt =====
-- The threads of one guild, block by block (src/DiscordBotClient.cpp): `!leave`, the automatic leave
-- and `!join` cut where they give up `guildInfosMutex`, and the audio threads cut where they take it
-- and where they use their pointer to the guild's entry. A schedule says who moves next. The entry
-- has a number, since a guild that leaves and joins again has a new entry at its old key.
pub mod Phase
pub mod Steps
pub mod Serial
pub mod Overlap
pub mod Blocks
mod Tests
use dpp_bot.Base.{ℕ, suc, Bool, true, false, Option, none, some, List, [], ◌∷◌, ◌==◌, if◌then◌else◌}

-- What the threads share of `GuildInfo`: `shouldStop`, and the thread that `audioThread` holds.
pub record Entry : Type 0 where
  pub number : ℕ
  pub should_stop : Bool
  pub audio_thread : Option ℕ

-- Where an audio thread is: before it looks its guild up, with a pointer to the entry, or behind
-- its last `break`.
pub data Place : Type 0 where
  top exited : Place
  holding : (number : ℕ) → Place

-- What `StopAudioThread` is called for: to leave, or to join, with a connection at the end or not.
pub data Goal : Type 0 where
  to_leave : Goal
  to_join : (connects : Bool) → Goal

-- The next block of a thread that leaves or joins: `shouldStop = true` of `LeaveVoice`; the look-up
-- of `HandleJoinCommand`; the two parts of `StopAudioThread`; the two erasures and `emplace`;
-- `StartAudioThread`.
pub data Pc : Type 0 where
  idle asking creating launching : Pc
  checking : (connects : Bool) → Pc
  moving joining erasing : Goal → Pc

-- `moved` is `threadToJoin`.
pub record Worker : Type 0 where
  pub pc : Pc
  pub moved : Option ℕ

pub record State : Type 0 where
  pub entry : Option Entry
  pub next_number : ℕ
  pub next_thread : ℕ
  pub players : ℕ → Place
  pub workers : ℕ → Worker

pub data Next : Type 0 where
  goes_on : State → Next
  waits use_after_free deadlocks : Next

pub data Move : Type 0 where
  begin_leave : (worker : ℕ) → Move
  begin_join : (worker : ℕ) → (connects : Bool) → Move
  advance : (worker : ℕ) → Move
  look_up use_entry : (thread : ℕ) → Move

abbrev pub set_at {ℓ} : {A : Type ℓ} → ℕ → A → (ℕ → A) → ℕ → A
set_at i a f j = if i == j then a else f j

-- A worker goes on to the block `pc`.
abbrev pub at_block : ℕ → Pc → State → State
at_block i pc s = record s { workers = set_at i (record (s.workers i) { pc = pc }) s.workers }

abbrev pub set_entry : Option Entry → State → State
set_entry entry s = record s { entry = entry }

abbrev pub begin : ℕ → Pc → Pc → State → Next
begin i first idle s = goes_on (at_block i first s)
begin i first pc s = waits

abbrev pub after_erasing : Goal → Pc
after_erasing to_leave = idle
after_erasing (to_join true) = creating
after_erasing (to_join false) = idle

abbrev pub after_checking : Bool → Option Entry → Pc
after_checking connects (some e) = moving (to_join connects)
after_checking true none = creating
after_checking false none = idle

abbrev pub ask_entry : Option Entry → Option Entry
ask_entry none = none
ask_entry (some e) = some (record e { should_stop = true })

abbrev pub moved_entry : Option Entry → Option Entry
moved_entry none = none
moved_entry (some e) = some (record e { should_stop = true; audio_thread = none })

abbrev pub handle_of : Option Entry → Option ℕ
handle_of none = none
handle_of (some e) = e.audio_thread

-- `threadToJoin.join()`, outside of the mutex: it waits until that thread has ended.
abbrev pub join_place : ℕ → Goal → Place → State → Next
join_place i goal top s = waits
join_place i goal exited s = goes_on (at_block i (erasing goal) s)
join_place i goal (holding n) s = waits

abbrev pub join_moved : ℕ → Goal → Option ℕ → State → Next
join_moved i goal none s = goes_on (at_block i (erasing goal) s)
join_moved i goal (some t) s = join_place i goal (s.players t) s

-- `guildInfos.erase`, whose destructor joins a thread that the entry still holds: it has to pass the
-- mutex to end.
abbrev pub erase_place : (State → Next) → Place → State → Next
erase_place next top s = deadlocks
erase_place next exited s = next (set_entry none s)
erase_place next (holding n) s = deadlocks

abbrev pub erase_then : (State → Next) → Option ℕ → State → Next
erase_then next none s = next (set_entry none s)
erase_then next (some t) s = erase_place next (s.players t) s

abbrev pub create : ℕ → State → Next
create i s = goes_on (
    at_block i launching (record s {
      entry = some (record { number = s.next_number; should_stop = false; audio_thread = none });
      next_number = suc s.next_number;
    }))

-- `StartAudioThread` does nothing for an entry that holds a thread.
abbrev pub launch_entry : Entry → Option ℕ → State → State
launch_entry e (some t) s = s
launch_entry e none s = record s {
  entry = some (record e { should_stop = false; audio_thread = some s.next_thread });
  next_thread = suc s.next_thread;
  players = set_at s.next_thread top s.players;
}

abbrev pub launch_thread : Option Entry → State → State
launch_thread none s = s
launch_thread (some e) s = launch_entry e e.audio_thread s

-- One block of a worker.
unfoldable pub run_block : ℕ → Pc → State → Next
run_block i idle s = waits
run_block i asking s = goes_on (at_block i (moving to_leave) (set_entry (ask_entry s.entry) s))
run_block i (checking connects) s = goes_on (at_block i (after_checking connects s.entry) s)
run_block i (moving goal) s = goes_on (record s {
  entry = moved_entry s.entry;
  workers = set_at i (record { pc = joining goal; moved = handle_of s.entry }) s.workers;
})
run_block i (joining goal) s = join_moved i goal (s.workers i).moved s
run_block i (erasing goal) s =
    erase_then (λ t. goes_on (at_block i (after_erasing goal) t)) (handle_of s.entry) s
run_block i creating s = erase_then (create i) (handle_of s.entry) s
run_block i launching s = goes_on (at_block i idle (launch_thread s.entry s))

-- The look-up at the start of a round, or the one before a song is taken.
abbrev pub find_place : Option Entry → Place
find_place none = exited
find_place (some e) = if e.should_stop then exited else holding e.number

abbrev pub look_from : ℕ → Place → State → Next
look_from t exited s = waits
look_from t top s = goes_on (record s { players = set_at t (find_place s.entry) s.players })
look_from t (holding n) s = goes_on (record s { players = set_at t (find_place s.entry) s.players })

-- A use of the pointer to the entry `n`, which is gone unless the guild has it still.
abbrev pub use_pointer : ℕ → Option Entry → State → Next
use_pointer n none s = use_after_free
use_pointer n (some e) s = if e.number == n then goes_on s else use_after_free

abbrev pub use_of : Place → State → Next
use_of top s = waits
use_of exited s = waits
use_of (holding n) s = use_pointer n s.entry s

unfoldable pub move : Move → State → Next
unfolding run_block
move (begin_leave i) s = begin i asking (s.workers i).pc s
move (begin_join i connects) s = begin i (checking connects) (s.workers i).pc s
move (advance i) s = run_block i (s.workers i).pc s
move (look_up t) s = look_from t (s.players t) s
move (use_entry t) s = use_of (s.players t) s

-- A schedule, which ends early where a thread faults, deadlocks or would have to wait.
unfoldable pub run : List Move → State → Next
unfolding move
run [] s = goes_on s
run (m ∷ ms) s = elim (move m s) [
  | goes_on t ↦ run ms t
  | waits ↦ waits
  | use_after_free ↦ use_after_free
  | deadlocks ↦ deadlocks
]

-- No entry and no thread.
abbrev pub new_state : State
new_state = record {
  entry = none;
  next_number = 0;
  next_thread = 0;
  players = λ t. exited;
  workers = λ i. record { pc = idle; moved = none };
}
