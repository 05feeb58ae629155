-- ===== src/Crash/Undisturbed.antt =====
-- A handler that nothing disturbs makes all its calls.
use dpp_bot.Base.{ℕ, ◌≡◌, refl, true, false, Option, none, some, List, [], ◌∷◌, ◌++◌, arith, All}
use dpp_bot.Text.{Text}
use dpp_bot.Crash.{
  Process, Action, Turn, handler_goes_on, write, backtrace_symbols, set_default, raise, write_all,
  write_backtrace, report_calls, reraise, make, go_on, take_turn, take_turns,
}

-- as many turns of the only handler as there are calls.
abbrev pub undisturbed : List Action → List Turn
undisturbed [] = []
undisturbed (c ∷ cs) = handler_goes_on 0 ∷ undisturbed cs

abbrev IsWriting : Action → Type 0
IsWriting (write fd bytes) = Unit {0}
IsWriting (backtrace_symbols fd) = Unit {0}
IsWriting (set_default sig) = ⊥
IsWriting (raise sig) = ⊥

-- The signal took the process, and its handler has no call left.
abbrev pub IsDone : Process → Type 0
IsDone q = (q.ended ≡ true) × (q.running ≡ [] ∷ [])

last_calls :
    (sig : ℕ) (p : Process)
    → p.running ≡ reraise sig ∷ []
    → p.ended ≡ false
    → IsDone (take_turns (undisturbed (reraise sig)) p)
unfolding take_turns take_turn make go_on
last_calls sig p r e = ground (arith, r, e)

one_call :
    (c : Action) (cs : List Action) (p : Process)
    → IsWriting c
    → p.running ≡ (c ∷ cs) ∷ []
    → p.ended ≡ false
    → ((take_turn (handler_goes_on 0) p).running ≡ cs ∷ [])
      × ((take_turn (handler_goes_on 0) p).ended ≡ false)
unfolding take_turn make go_on
one_call (write fd bytes) cs p w r e = ground (arith, r, e)
one_call (backtrace_symbols fd) cs p w r e = ground (arith, r, e)
one_call (set_default s) cs p w r e = absurd w
one_call (raise s) cs p w r e = absurd w

pub all_calls :
    (sig : ℕ) (cs : List Action) (p : Process)
    → All IsWriting cs
    → p.running ≡ (cs ++ reraise sig) ∷ []
    → p.ended ≡ false
    → IsDone (take_turns (undisturbed (cs ++ reraise sig)) p)
unfolding take_turns
all_calls sig [] p w r e = last_calls sig p r e
all_calls sig (c ∷ cs) p w r e =
    let s = one_call c (cs ++ reraise sig) p w.0 r e in
    all_calls sig cs (take_turn (handler_goes_on 0) p) w.1 s.0 s.1

pub report_split :
    (opened : Option ℕ) (sig : ℕ) (name : Text)
    → (cs : List Action) × All IsWriting cs × (report_calls opened sig name ≡ cs ++ reraise sig)
unfolding report_calls write_all write_backtrace
report_split none sig name = (_ ∷ _ ∷ _ ∷ [], (tt, (tt, (tt, tt))), refl)
report_split (some fd) sig name =
    (_ ∷ _ ∷ _ ∷ _ ∷ _ ∷ _ ∷ [], (tt, (tt, (tt, (tt, (tt, (tt, tt)))))), refl)
