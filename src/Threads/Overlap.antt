-- ===== src/Threads/Overlap.antt =====
-- What two leaves, or a leave and a join, do to a guild when they overlap.
use dpp_bot.Base.{ℕ, ◌≡◌, true, false, some, List, [], ◌∷◌, arith, ◌==◌}
use dpp_bot.Threads.{
  Entry, holding, idle, State, use_after_free, deadlocks, Move, begin_leave, begin_join, advance,
  look_up, use_entry, run_block, move, run,
}

-- The schedule of a leave that begins while another one waits for the audio thread.
abbrev pub second_leave : ℕ → ℕ → ℕ → List Move
second_leave i j thread =
    begin_leave i
    ∷ advance i
    ∷ advance i
    ∷ begin_leave j
    ∷ advance j
    ∷ advance j
    ∷ advance j
    ∷ advance j
    ∷ use_entry thread
    ∷ []

-- If a leave of a guild begins while another leave waits in `join` for the guild's audio thread, which
-- holds its pointer to the entry, the second one finds no thread to wait for and erases the entry:
-- the thread's next use of its pointer is a use of freed memory.
pub second_leave-frees :
    (s : State) (i j thread : ℕ) (e : Entry)
    → (i == j) ≡ false
    → (s.workers i).pc ≡ idle
    → (s.workers j).pc ≡ idle
    → s.entry ≡ some e
    → e.audio_thread ≡ some thread
    → s.players thread ≡ holding e.number
    → run (second_leave i j thread) s ≡ use_after_free
unfolding run move run_block
second_leave-frees s i j thread e other p q r h l = ground arith

-- The schedule of a whole join between the two parts of a leave.
abbrev pub join_within_leave : ℕ → ℕ → ℕ → List Move
join_within_leave i j thread =
    begin_leave i
    ∷ advance i
    ∷ advance i
    ∷ look_up thread
    ∷ advance i
    ∷ begin_join j true
    ∷ advance j
    ∷ advance j
    ∷ advance j
    ∷ advance j
    ∷ advance j
    ∷ advance j
    ∷ advance i
    ∷ []

-- If a whole join that connects comes between a leave's `StopAudioThread` and its erasure, the erasure
-- destroys the join's entry and waits, under `guildInfosMutex`, for the join's audio thread, which
-- needs that mutex to end: a deadlock.
pub join_within_leave-deadlocks :
    (s : State) (i j thread : ℕ) (e : Entry)
    → (i == j) ≡ false
    → (s.workers i).pc ≡ idle
    → (s.workers j).pc ≡ idle
    → s.entry ≡ some e
    → e.audio_thread ≡ some thread
    → s.players thread ≡ holding e.number
    → run (join_within_leave i j thread) s ≡ deadlocks
unfolding run move run_block
join_within_leave-deadlocks s i j thread e other p q r h l = ground arith
