-- ===== src/Threads/Phase.antt =====
-- Who holds the audio threads of a guild while one leave or join is under way.
use dpp_bot.Base.{ℕ, ◌≡◌, refl, Bool, true, false, Option, none, some, arith, ◌==◌}
use dpp_bot.Threads.{
  Entry, Place, top, exited, holding, Pc, idle, asking, creating, launching, checking, moving,
  joining, erasing, Worker, State, Next, goes_on, waits, use_after_free, deadlocks, set_at,
  ask_entry, moved_entry, handle_of,
}

abbrev pub is_live : Place → Bool
is_live top = true
is_live exited = false
is_live (holding n) = true

abbrev pub number_of : Option Entry → Option ℕ
number_of none = none
number_of (some e) = some e.number

-- `o` holds every thread that has not ended; no thread is left.
abbrev pub Holds : Option ℕ → (ℕ → Place) → Type 0
Holds o players = (t : ℕ) → is_live (players t) ≡ true → o ≡ some t

abbrev pub Quiet : (ℕ → Place) → Type 0
Quiet players = (t : ℕ) → is_live (players t) ≡ false

-- A look-up of the entry ends the audio thread.
abbrev pub is_stopped : Option Entry → Bool
is_stopped none = true
is_stopped (some e) = e.should_stop

-- Who holds the audio threads, by the next block of the worker: the entry, `threadToJoin`, or nobody.
abbrev pub Phase : Pc → Option ℕ → Option Entry → (ℕ → Place) → Type 0
Phase idle moved entry players = Holds (handle_of entry) players
Phase asking moved entry players = Holds (handle_of entry) players
Phase (checking connects) moved entry players = Holds (handle_of entry) players
Phase (moving goal) moved entry players = Holds (handle_of entry) players
Phase (joining goal) moved entry players = Holds moved players × (is_stopped entry ≡ true)
Phase (erasing goal) moved entry players = Quiet players
Phase creating moved entry players = Quiet players
Phase launching moved entry players = Quiet players

-- Worker `active` is the only one with a block to run, and a pointer of an audio thread is one to the
-- entry that the guild has.
pub record IsTracked (active : ℕ) (s : State) : Type 0 where
  pub others_idle : (j : ℕ) → (active == j) ≡ false → (s.workers j).pc ≡ idle
  pub phase : Phase (s.workers active).pc (s.workers active).moved s.entry s.players
  pub points : (t n : ℕ) → s.players t ≡ holding n → number_of s.entry ≡ some n

abbrev pub IsSafe : Next → Type 0
IsSafe (goes_on s) = (active : ℕ) × IsTracked active s
IsSafe waits = Unit {0}
IsSafe use_after_free = ⊥
IsSafe deadlocks = ⊥

module _ {ℓ} {A : Type ℓ} where
  set_at-same : (i : ℕ) (a : A) (f : ℕ → A) → set_at i a f i ≡ a
  set_at-same i a f = ground arith

  set_at-other : (i j : ℕ) (a : A) (f : ℕ → A) → (i == j) ≡ false → set_at i a f j ≡ f j
  set_at-other i j a f h = ground arith

-- A state in which worker `a` came to `w`, and no other worker moved.
pub came_to :
    (a : ℕ) (v : State) (w : Worker) (workers : ℕ → Worker)
    → v.workers ≡ set_at a w workers
    → ((j : ℕ) → (a == j) ≡ false → (workers j).pc ≡ idle)
    → Phase w.pc w.moved v.entry v.players
    → ((t n : ℕ) → v.players t ≡ holding n → number_of v.entry ≡ some n)
    → IsTracked a v
came_to a v w workers e o p q = record {
  others_idle = λ j h. rw (e, set_at-other a j w workers h) (o j h);
  phase = rw (e, set_at-same a w workers) p;
  points = q;
}

pub no_points :
    (v : State) → Quiet v.players → (t n : ℕ) → v.players t ≡ holding n → number_of v.entry ≡ some n
no_points v q t n h = ground (arith, q t)

-- The first two blocks of a leave change neither the handle nor the number of the entry.
pub handle_of-ask_entry : (o : Option Entry) → handle_of (ask_entry o) ≡ handle_of o
handle_of-ask_entry none = refl
handle_of-ask_entry (some e) = refl

pub number_of-ask_entry : (o : Option Entry) → number_of (ask_entry o) ≡ number_of o
number_of-ask_entry none = refl
number_of-ask_entry (some e) = refl

pub number_of-moved_entry : (o : Option Entry) → number_of (moved_entry o) ≡ number_of o
number_of-moved_entry none = refl
number_of-moved_entry (some e) = refl

pub is_stopped-moved_entry : (o : Option Entry) → is_stopped (moved_entry o) ≡ true
is_stopped-moved_entry none = refl
is_stopped-moved_entry (some e) = refl

pub exited_not_live : (p : Place) → is_live p ≡ false → p ≡ exited
exited_not_live top h = ground arith
exited_not_live exited h = refl
exited_not_live (holding n) h = ground arith
