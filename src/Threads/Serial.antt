-- ===== src/Threads/Serial.antt =====
-- One leave or join at a time: no audio thread loses its entry, no block deadlocks, and a guild has at
-- most one audio thread.
use dpp_bot.Base.{
  ℕ, ◌≡◌, refl, subst, true, Option, [], ◌∷◌, none, some, arith, inl, inr, Bool-cases, ◌==◌, ◌≢◌,
}
use dpp_bot.Threads.{
  Entry, Place, top, exited, holding, Goal, Pc, idle, asking, creating, launching, checking, moving,
  joining, erasing, State, Next, goes_on, waits, use_after_free, deadlocks, Move, begin_leave,
  begin_join, advance, look_up, use_entry, set_at, at_block, handle_of, run_block, look_from,
  find_place, use_of, use_pointer, begin, move, run, new_state,
}
use dpp_bot.Threads.Phase.{is_live, number_of, Holds, is_stopped, Phase, IsTracked, IsSafe, came_to}
use dpp_bot.Threads.Steps.{block-IsSafe}

abbrev pub IsAllowed : Move → State → Type 0
IsAllowed (begin_leave i) s = (j : ℕ) → (s.workers j).pc ≡ idle
IsAllowed (begin_join i connects) s = (j : ℕ) → (s.workers j).pc ≡ idle
IsAllowed (advance i) s = Unit {0}
IsAllowed (look_up t) s = Unit {0}
IsAllowed (use_entry t) s = Unit {0}

-- A thread that looks its guild up was not at its end, and comes to the entry or to its end.
Holds-look :
    (o : Option ℕ) (players : ℕ → Place) (t : ℕ) (p : Place)
    → is_live (players t) ≡ true
    → Holds o players
    → Holds o (set_at t p players)
Holds-look o players t p l h = λ u m. ground (arith, h t, h u)

Phase-look :
    (pc : Pc) (moved : Option ℕ) (entry : Option Entry) (players : ℕ → Place) (t : ℕ) (p : Place)
    → is_live (players t) ≡ true
    → Phase pc moved entry players
    → Phase pc moved entry (set_at t p players)
Phase-look idle moved entry players t p l h = Holds-look (handle_of entry) players t p l h
Phase-look asking moved entry players t p l h = Holds-look (handle_of entry) players t p l h
Phase-look (checking c) moved entry players t p l h = Holds-look (handle_of entry) players t p l h
Phase-look (moving goal) moved entry players t p l h = Holds-look (handle_of entry) players t p l h
Phase-look (joining goal) moved entry players t p l h = (Holds-look moved players t p l h.0, h.1)
Phase-look (erasing goal) moved entry players t p l h = λ u. ground (arith, h t)
Phase-look creating moved entry players t p l h = λ u. ground (arith, h t)
Phase-look launching moved entry players t p l h = λ u. ground (arith, h t)

find_place-points :
    (entry : Option Entry) (n : ℕ) → find_place entry ≡ holding n → number_of entry ≡ some n
find_place-points none n h = ground arith
find_place-points (some e) n h = ground arith

module _ (a : ℕ) (s : State) (tracked : IsTracked a s) where
  looked_up :
      (t : ℕ)
      → is_live (s.players t) ≡ true
      → IsTracked a (record s { players = set_at t (find_place s.entry) s.players })
  looked_up t l = record {
    others_idle = tracked.others_idle;
    phase =
        Phase-look (s.workers a).pc (s.workers a).moved s.entry s.players t (find_place s.entry) l
          tracked.phase;
    points = λ u n h. ground (arith, find_place-points s.entry n, tracked.points u n);
  }

  look-IsSafe : (t : ℕ) (p : Place) → s.players t ≡ p → IsSafe (look_from t p s)
  look-IsSafe t top e = (a, looked_up t (ground arith))
  look-IsSafe t exited e = tt
  look-IsSafe t (holding n) e = (a, looked_up t (ground arith))

  use_pointer-IsSafe :
      (n : ℕ) (o : Option Entry) → number_of o ≡ some n → IsSafe (use_pointer n o s)
  use_pointer-IsSafe n none e = ground arith
  use_pointer-IsSafe n (some entry) e = elim (Bool-cases (entry.number == n)) [
    | inl same ↦ rw same (a, tracked)
    | inr other ↦ ground arith
  ]

  use_of-IsSafe : (t : ℕ) (p : Place) → s.players t ≡ p → IsSafe (use_of p s)
  use_of-IsSafe t top e = tt
  use_of-IsSafe t exited e = tt
  use_of-IsSafe t (holding n) e = use_pointer-IsSafe n s.entry (tracked.points t n e)

  advance-IsSafe : (i : ℕ) → IsSafe (run_block i (s.workers i).pc s)
  unfolding run_block
  advance-IsSafe i = elim (Bool-cases (a == i)) [
    | inl same ↦
        subst (λ (j : ℕ). IsSafe (run_block j (s.workers j).pc s)) (ground arith)
          (block-IsSafe a s tracked.others_idle (s.workers a).pc tracked.phase tracked.points)
    | inr other ↦ rw (tracked.others_idle i other) tt
  ]

  -- A leave or a join begins while no worker has a block to run.
  begin-IsSafe :
      (i : ℕ) (first : Pc)
      → ((j : ℕ) → (s.workers j).pc ≡ idle)
      → Phase first (s.workers i).moved s.entry s.players
      → IsSafe (begin i first (s.workers i).pc s)
  begin-IsSafe i first free p = rw (free i) (
    i,
    came_to i _ (record (s.workers i) { pc = first }) s.workers refl (λ j h. free j) p
        tracked.points,
  )

  idle-Holds : (s.workers a).pc ≡ idle → Holds (handle_of s.entry) s.players
  idle-Holds e = subst (λ (pc : Pc). Phase pc (s.workers a).moved s.entry s.players) e tracked.phase

  move-IsSafe : (m : Move) → IsAllowed m s → IsSafe (move m s)
  unfolding move
  move-IsSafe (begin_leave i) free = begin-IsSafe i asking free (idle-Holds (free a))
  move-IsSafe (begin_join i connects) free =
      begin-IsSafe i (checking connects) free (idle-Holds (free a))
  move-IsSafe (advance i) free = advance-IsSafe i
  move-IsSafe (look_up t) free = look-IsSafe t (s.players t) refl
  move-IsSafe (use_entry t) free = use_of-IsSafe t (s.players t) refl

-- The states that the threads of a guild come to, if a leave or a join begins only when no other one
-- is under way.
pub data Serial : State → Type 0 where
  fresh : Serial new_state
  after : (s v : State) (m : Move) → Serial s → IsAllowed m s → move m s ≡ goes_on v → Serial v

Serial-IsTracked : (s : State) → Serial s → (active : ℕ) × IsTracked active s
Serial-IsTracked _ fresh = (
  0,
  record { others_idle = λ j h. refl; phase = λ t l. ground arith; points = λ t n h. ground arith },
)
Serial-IsTracked v (after s _ m r allowed e) =
    let (a, tracked) = Serial-IsTracked s r in subst IsSafe e (move-IsSafe a s tracked m allowed)

-- All threads that have not ended are one.
Holds-one :
    (o : Option ℕ) (players : ℕ → Place) (t u : ℕ)
    → Holds o players
    → is_live (players t) ≡ true
    → is_live (players u) ≡ true
    → t ≡ u
Holds-one o players t u h l m = ground (arith, h t, h u)

Phase-one :
    (pc : Pc) (moved : Option ℕ) (entry : Option Entry) (players : ℕ → Place) (t u : ℕ)
    → Phase pc moved entry players
    → is_live (players t) ≡ true
    → is_live (players u) ≡ true
    → t ≡ u
Phase-one idle moved entry players t u h = Holds-one (handle_of entry) players t u h
Phase-one asking moved entry players t u h = Holds-one (handle_of entry) players t u h
Phase-one (checking c) moved entry players t u h = Holds-one (handle_of entry) players t u h
Phase-one (moving goal) moved entry players t u h = Holds-one (handle_of entry) players t u h
Phase-one (joining goal) moved entry players t u h = Holds-one moved players t u h.0
Phase-one (erasing goal) moved entry players t u h = λ l m. ground (arith, h t)
Phase-one creating moved entry players t u h = λ l m. ground (arith, h t)
Phase-one launching moved entry players t u h = λ l m. ground (arith, h t)

IsSafe-sound : (n : Next) → IsSafe n → (n ≢ use_after_free) × (n ≢ deadlocks)
IsSafe-sound (goes_on s) h = ((λ e. ground arith), λ e. ground arith)
IsSafe-sound waits h = ((λ e. ground arith), λ e. ground arith)
IsSafe-sound use_after_free h = absurd h
IsSafe-sound deadlocks h = absurd h

-- If a guild's leaves, automatic leaves and joins come one at a time, then, however they and the audio
-- threads take turns: no audio thread uses an entry that is gone, no erasure waits for a thread under
-- the mutex that the thread needs, and at most one audio thread has not ended.
pub serial_threads :
    (s : State)
    → Serial s
    → ((m : Move) → IsAllowed m s → (move m s ≢ use_after_free) × (move m s ≢ deadlocks))
      × ((t u : ℕ) → is_live (s.players t) ≡ true → is_live (s.players u) ≡ true → t ≡ u)
serial_threads s r =
    let (a, tracked) = Serial-IsTracked s r in
    (
      (λ m allowed. IsSafe-sound (move m s) (move-IsSafe a s tracked m allowed)),
      λ t u. Phase-one (s.workers a).pc (s.workers a).moved s.entry s.players t u tracked.phase,
    )

module _ (s : State) (i : ℕ) (goal : Goal) (pc : (s.workers i).pc ≡ joining goal) where
  -- The worker that waits is the one that is tracked.
  waiting-active : (a : ℕ) → IsTracked a s → (a == i) ≡ true
  waiting-active a tracked = elim (Bool-cases (a == i)) [
    | inl same ↦ same
    | inr other ↦ ground (arith, tracked.others_idle i other)
  ]

  waiting-Phase :
      (a : ℕ) → IsTracked a s → Holds (s.workers i).moved s.players × (is_stopped s.entry ≡ true)
  waiting-Phase a tracked =
      let same : a ≡ i = ground (arith, waiting-active a tracked) in
      subst (λ (c : Pc). Phase c (s.workers i).moved s.entry s.players) pc
        (subst (λ (j : ℕ). Phase (s.workers j).pc (s.workers j).moved s.entry s.players) same
          tracked.phase)

  find_place-stopped : (o : Option Entry) → is_stopped o ≡ true → find_place o ≡ exited
  find_place-stopped none e = refl
  find_place-stopped (some entry) e = rw e

  -- If a guild's leaves, automatic leaves and joins come one at a time, then a worker that waits in
  -- `join` for an audio thread that has not ended waits for no more than that thread's next look-up:
  -- the look-up ends the thread, and the worker goes on to erase the entry.
  pub join_ends :
      (t : ℕ)
      → Serial s
      → is_live (s.players t) ≡ true
      → run (look_up t ∷ advance i ∷ []) s
        ≡ goes_on (at_block i (erasing goal) (record s { players = set_at t exited s.players }))
  unfolding run move run_block
  join_ends t r l =
      let (a, tracked) = Serial-IsTracked s r in
      let (holds, stopped) = waiting-Phase a tracked in
      ground (arith, pc, holds t, find_place-stopped s.entry stopped)
