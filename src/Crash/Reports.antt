-- ===== src/Crash/Reports.antt =====
-- What is written for a signal, and what of it stands on each descriptor.
use dpp_bot.Base.{
  sym, ap, ◌∙◌, ℕ, zero, suc, Bool-cases, inl, inr, ◌≡◌, refl, List, [], ◌∷◌, ◌++◌, ◌==◌, leb, ◌≤◌,
  length, take, arith, if◌then◌else◌, append_assoc,
}
use dpp_bot.Text.{Text}
use dpp_bot.Crash.{Action, write, backtrace_symbols, set_default, raise, header, header_len, footer}

-- On each descriptor the line, cut to the buffer, then the backtrace, then the footer.
abbrev pub section_of : ℕ → ℕ → Text → List Action
section_of fd sig name =
    write fd footer ∷ backtrace_symbols fd ∷ write fd (take 159 (header sig name)) ∷ []

-- The events of one descriptor.
abbrev pub events_on : ℕ → List Action → List Action
events_on fd [] = []
events_on fd (write f s ∷ es) = if f == fd then write f s ∷ events_on fd es else events_on fd es
events_on fd (backtrace_symbols f ∷ es) =
    if f == fd then backtrace_symbols f ∷ events_on fd es else events_on fd es
events_on fd (_ ∷ es) = events_on fd es

-- The calls, the first one first, on top of those that were made, the latest first.
unfoldable pub push_all : List Action → List Action → List Action
push_all [] es = es
push_all (c ∷ cs) es = push_all cs (c ∷ es)

-- The calls that are left of the handler that was entered first.
abbrev pub oldest : List (List Action) → List Action
oldest [] = []
oldest (cs ∷ []) = cs
oldest (cs ∷ ds ∷ rest) = oldest (ds ∷ rest)

-- A call that writes nothing.
abbrev pub IsSilent : Action → Type 0
IsSilent (write fd bytes) = ⊥
IsSilent (backtrace_symbols fd) = ⊥
IsSilent (set_default sig) = Unit {0}
IsSilent (raise sig) = Unit {0}

take-all : (n : ℕ) (s : Text) → length s ≤ n → take n s ≡ s
take-all zero [] h = refl
take-all zero (c ∷ s) h = ground arith
take-all (suc n) [] h = refl
take-all (suc n) (c ∷ s) h = ground (arith, take-all n s)

pub take-header_len : (s : Text) → take (header_len (length s)) s ≡ take 159 s
unfolding header_len
take-header_len s = elim (Bool-cases (leb 160 (length s))) [
  | inl e ↦ rw e
  | inr e ↦ rw (e, take-all (length s) s (ground arith), take-all 159 s (ground arith))
]

events_on-push :
    (fd : ℕ) (c : Action) (es : List Action)
    → events_on fd (c ∷ es) ≡ events_on fd (c ∷ []) ++ events_on fd es
events_on-push fd (write f s) es = ground arith
events_on-push fd (backtrace_symbols f) es = ground arith
events_on-push fd (set_default s) es = refl
events_on-push fd (raise s) es = refl

pub events_on-push_all :
    (fd : ℕ) (cs es : List Action)
    → events_on fd (push_all cs es) ≡ events_on fd (push_all cs []) ++ events_on fd es
unfolding push_all
events_on-push_all fd [] es = refl
events_on-push_all fd (c ∷ cs) es =
    events_on-push_all fd cs (c ∷ es)
    ∙ ap (λ (l : List Action). events_on fd (push_all cs []) ++ l) (events_on-push fd c es)
    ∙ sym (append_assoc (events_on fd (push_all cs [])) (events_on fd (c ∷ [])) (events_on fd es))
    ∙ ap (λ (l : List Action). l ++ events_on fd es) (sym (events_on-push_all fd cs (c ∷ [])))

pub silent_push :
    (fd : ℕ) (c : Action) (es : List Action) → IsSilent c → events_on fd (c ∷ es) ≡ events_on fd es
silent_push fd (write f s) es h = absurd h
silent_push fd (backtrace_symbols f) es h = absurd h
silent_push fd (set_default s) es h = refl
silent_push fd (raise s) es h = refl
