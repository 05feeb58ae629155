-- ===== src/Threads/Steps.antt =====
-- Each block of a leave or a join, while no other one is under way.
use dpp_bot.Base.{ℕ, ◌≡◌, refl, ◌∙◌, Bool, true, false, Option, none, some, arith, ◌==◌}
use dpp_bot.Threads.{
  Entry, Place, top, exited, holding, Goal, to_leave, to_join, Pc, idle, asking, creating,
  launching, checking, moving, joining, erasing, State, Next, goes_on, at_block, handle_of,
  after_checking, after_erasing, join_place, join_moved, launch_entry, launch_thread, run_block,
  create, erase_then, set_entry,
}
use dpp_bot.Threads.Phase.{
  number_of, Holds, Quiet, Phase, IsTracked, IsSafe, came_to, no_points, handle_of-ask_entry,
  number_of-ask_entry, number_of-moved_entry, is_stopped-moved_entry, exited_not_live,
}

module _ (a : ℕ) (s : State) (others : (j : ℕ) → (a == j) ≡ false → (s.workers j).pc ≡ idle) where
  joined-Quiet : (goal : Goal) → Quiet s.players → IsSafe (goes_on (at_block a (erasing goal) s))
  joined-Quiet goal q = (
    a,
    came_to a _ (record (s.workers a) { pc = erasing goal }) s.workers refl others q
        (no_points s q),
  )

  -- The join waits until the thread that was moved out of the entry has ended: then none is left.
  join_place-IsSafe :
      (goal : Goal) (t : ℕ) (p : Place)
      → s.players t ≡ p
      → Holds (some t) s.players
      → IsSafe (join_place a goal p s)
  join_place-IsSafe goal t top e h = tt
  join_place-IsSafe goal t exited e h = joined-Quiet goal (λ u. ground (arith, h u))
  join_place-IsSafe goal t (holding n) e h = tt

  join_moved-IsSafe :
      (goal : Goal) (moved : Option ℕ) → Holds moved s.players → IsSafe (join_moved a goal moved s)
  join_moved-IsSafe goal none h = joined-Quiet goal (λ t. ground (arith, h t))
  join_moved-IsSafe goal (some t) h = join_place-IsSafe goal t (s.players t) refl h

  -- With no thread left, an erasure never waits for one.
  erase_then-IsSafe :
      (next : State → Next) (handle : Option ℕ)
      → Quiet s.players
      → IsSafe (next (set_entry none s))
      → IsSafe (erase_then next handle s)
  erase_then-IsSafe next none q h = h
  erase_then-IsSafe next (some t) q h = rw (exited_not_live (s.players t) (q t)) h

  -- `StartAudioThread` of an entry whose threads have all ended.
  launch_entry-IsTracked :
      (e : Entry) (handle : Option ℕ)
      → s.entry ≡ some e
      → e.audio_thread ≡ handle
      → Quiet s.players
      → IsTracked a (at_block a idle (launch_entry e handle s))
  launch_entry-IsTracked e (some t) p h q =
      came_to a _ (record (s.workers a) { pc = idle }) s.workers refl others
        (λ t l. ground (arith, q t)) (no_points s q)
  launch_entry-IsTracked e none p h q =
      came_to a _ (record (s.workers a) { pc = idle }) s.workers refl others
        (λ t l. ground (arith, q t)) (λ t n l. ground (arith, q t))

  launch_thread-IsTracked :
      (o : Option Entry)
      → s.entry ≡ o
      → Quiet s.players
      → IsTracked a (at_block a idle (launch_thread o s))
  launch_thread-IsTracked none p q =
      came_to a _ (record (s.workers a) { pc = idle }) s.workers refl others
        (λ t l. ground (arith, q t)) (no_points s q)
  launch_thread-IsTracked (some e) p q = launch_entry-IsTracked e e.audio_thread p refl q

  checked-Phase :
      (connects : Bool) (o : Option Entry) (moved : Option ℕ)
      → Holds (handle_of o) s.players
      → Phase (after_checking connects o) moved o s.players
  checked-Phase connects (some e) moved h = h
  checked-Phase true none moved h = λ t. ground (arith, h t)
  checked-Phase false none moved h = h

  erased-Phase :
      (goal : Goal) (moved : Option ℕ)
      → Quiet s.players
      → Phase (after_erasing goal) moved none s.players
  erased-Phase to_leave moved q = λ t l. ground (arith, q t)
  erased-Phase (to_join true) moved q = q
  erased-Phase (to_join false) moved q = λ t l. ground (arith, q t)

  erased_to :
      (goal : Goal)
      → Quiet s.players
      → IsSafe (goes_on (at_block a (after_erasing goal) (set_entry none s)))
  erased_to goal q = (
    a,
    came_to a _ (record (s.workers a) { pc = after_erasing goal }) s.workers refl others
        (erased-Phase goal (s.workers a).moved q) (no_points (set_entry none s) q),
  )

  created_to : Quiet s.players → IsSafe (create a (set_entry none s))
  created_to q = (
    a,
    came_to a _ (record (s.workers a) { pc = launching }) s.workers refl others q
        λ t n h. ground (arith, q t),
  )

  -- Each block of the worker.
  pub block-IsSafe :
      (pc : Pc)
      → Phase pc (s.workers a).moved s.entry s.players
      → ((t n : ℕ) → s.players t ≡ holding n → number_of s.entry ≡ some n)
      → IsSafe (run_block a pc s)
  unfolding run_block
  block-IsSafe idle p q = tt
  block-IsSafe asking p q = (
    a,
    came_to a _ (record (s.workers a) { pc = moving to_leave }) s.workers refl others
        (λ t l. handle_of-ask_entry s.entry ∙ p t l)
        (λ t n h. number_of-ask_entry s.entry ∙ q t n h),
  )
  block-IsSafe (checking connects) p q = (
    a,
    came_to a _ (record (s.workers a) { pc = after_checking connects s.entry }) s.workers refl
        others (checked-Phase connects s.entry (s.workers a).moved p) q,
  )
  block-IsSafe (moving goal) p q = (
    a,
    came_to a _ (record { pc = joining goal; moved = handle_of s.entry }) s.workers refl others
        (p, is_stopped-moved_entry s.entry) (λ t n h. number_of-moved_entry s.entry ∙ q t n h),
  )
  block-IsSafe (joining goal) p q = join_moved-IsSafe goal (s.workers a).moved p.0
  block-IsSafe (erasing goal) p q =
      erase_then-IsSafe (λ t. goes_on (at_block a (after_erasing goal) t)) (handle_of s.entry) p
        (erased_to goal p)
  block-IsSafe creating p q = erase_then-IsSafe (create a) (handle_of s.entry) p (created_to p)
  block-IsSafe launching p q = (a, launch_thread-IsTracked s.entry refl p)
