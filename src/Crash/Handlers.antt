-- ===== src/Crash/Handlers.antt =====
-- The handlers that are under way: the first one reports, the others only raise their signals again.
use dpp_bot.Base.{
  subst, sym, ap, ◌∙◌, Option-cases, ℕ, zero, suc, ◌≢◌, inl, inr, ◌≡◌, refl, Bool, true, false,
  Option, none, some, List, [], ◌∷◌, ◌++◌, ◌⊎◌, arith, All, if◌then◌else◌,
}
use dpp_bot.Text.{Text}
use dpp_bot.Crash.{
  Process, Action, Turn, signal_comes, handler_goes_on, kernel_kills, write, backtrace_symbols,
  set_default, raise, stderr, header, write_all, write_backtrace, report_calls, reraise,
  crash_handler, make, go_on, take_turn, take_turns, install_crash_handler,
}
use dpp_bot.Crash.Reports.{
  section_of, events_on, push_all, oldest, IsSilent, take-header_len, events_on-push_all,
  silent_push,
}

-- The handler that is to go on has no call left; or it is not the first one, and only raises its
-- signal again; or it is the first one.
abbrev Gone : List (List Action) → List Action → Option Action × List (List Action) → Type 0
Gone later rest r =
    (r.0 ≡ none)
    ⊎ (((c : Action) × (earlier : List (List Action)) × (r ≡ (some c, earlier ++ rest ∷ []))
          × IsSilent c
          × All (All IsSilent) earlier)
        ⊎ ((c : Action) × (left : List Action) × (rest ≡ c ∷ left)
            × (r ≡ (some c, later ++ left ∷ []))))

Gone-behind :
    (cs : List Action) (later : List (List Action)) (rest : List Action)
    (r : Option Action × List (List Action))
    → All IsSilent cs
    → Gone later rest r
    → Gone (cs ∷ later) rest (r.0, cs ∷ r.1)
Gone-behind cs later rest r q (inl e) = inl e
Gone-behind cs later rest r q (inr (inl (c, earlier, e, s, a))) = inr (
    inl (
      c,
      cs ∷ earlier,
      ap (λ (x : Option Action × List (List Action)). (x.0, cs ∷ x.1)) e,
      s,
      (q, a),
    ))
Gone-behind cs later rest r q (inr (inr (c, left, f, e))) =
    inr (inr (c, left, f, ap (λ (x : Option Action × List (List Action)). (x.0, cs ∷ x.1)) e))

go_on-Gone :
    (n : ℕ) (later : List (List Action)) (rest : List Action)
    → All (All IsSilent) later
    → Gone later rest (go_on n (later ++ rest ∷ []))
unfolding go_on
go_on-Gone zero [] [] a = inl refl
go_on-Gone zero [] (c ∷ cs) a = inr (inr (c, cs, refl, refl))
go_on-Gone (suc n) [] rest a = inl refl
go_on-Gone zero ([] ∷ later) rest a = inl refl
go_on-Gone zero ((c ∷ cs) ∷ later) rest a = inr (inl (c, cs ∷ later, refl, a.0.0, (a.0.1, a.1)))
go_on-Gone (suc n) (cs ∷ later) rest a =
    Gone-behind cs later rest (go_on n (later ++ rest ∷ [])) a.0 (go_on-Gone n later rest a.1)

-- The standard error, and the crash log if it could be opened.
abbrev pub IsTarget : Option ℕ → ℕ → Type 0
IsTarget opened fd = (fd ≡ stderr) ⊎ (opened ≡ some fd)

pub record Reporting (opened : Option ℕ) (sig : ℕ) (name : Text) (q : Process) : Type 0 where
  pub later : List (List Action)
  pub rest : List Action
  pub shape : q.running ≡ later ++ rest ∷ []
  pub silent : All (All IsSilent) later
  pub begun : q.entered ≡ true
  pub whole :
      (fd : ℕ) → IsTarget opened fd → events_on fd (push_all rest q.events) ≡ section_of fd sig name

record Made (c : Action) (p q : Process) : Type 0 where
  one_more : q.events ≡ c ∷ p.events
  same_running : q.running ≡ p.running
  same_entered : q.entered ≡ p.entered

make-Made : (c : Action) (p : Process) → Made c p (make c p)
unfolding make
make-Made (write fd bytes) p = record { one_more = refl; same_running = refl; same_entered = refl }
make-Made (backtrace_symbols fd) p = record {
  one_more = refl;
  same_running = refl;
  same_entered = refl;
}
make-Made (set_default sig) p = record { one_more = refl; same_running = refl; same_entered = refl }
make-Made (raise sig) p = record { one_more = refl; same_running = refl; same_entered = refl }

module _ (opened : Option ℕ) (sig : ℕ) (name : Text) where
  entered_again :
      (s : ℕ) (n : Text) (q : Process)
      → Reporting opened sig name q
      → Reporting opened sig name (crash_handler s n q)
  unfolding crash_handler
  entered_again s n q r =
      let again : crash_handler s n q ≡ record q { running = reraise s ∷ q.running } =
        rw (r.begun) refl in
      subst (Reporting opened sig name) (sym again) (record {
        later = reraise s ∷ r.later;
        rest = r.rest;
        shape = ap (λ (l : List (List Action)). reraise s ∷ l) r.shape;
        silent = ((tt, (tt, tt)), r.silent);
        begun = r.begun;
        whole = r.whole;
      })

  Made-Reporting :
      (c : Action) (later : List (List Action)) (rest : List Action) (p q : Process)
      → Made c (record p { running = later ++ rest ∷ [] }) q
      → All (All IsSilent) later
      → p.entered ≡ true
      → ((fd : ℕ)
          → IsTarget opened fd
          → events_on fd (push_all rest (c ∷ p.events)) ≡ section_of fd sig name)
      → Reporting opened sig name q
  Made-Reporting c later rest p q m a b w = record {
    later = later;
    rest = rest;
    shape = m.same_running;
    silent = a;
    begun = m.same_entered ∙ b;
    whole = λ fd h. ap (λ (es : List Action). events_on fd (push_all rest es)) m.one_more ∙ w fd h;
  }

  abbrev going : Process → Option Action × List (List Action) → Process
  going p o = elim o.0 [ none ↦ p | some c ↦ make c (record p { running = o.1 }) ]

  Gone-Reporting :
      (p : Process) (r : Reporting opened sig name p) (o : Option Action × List (List Action))
      → Gone r.later r.rest o
      → Reporting opened sig name (going p o)
  unfolding push_all
  Gone-Reporting p r o (inl e) =
      subst
        (λ (x : Option Action).
          Reporting opened sig name
            (elim x as (λ y. Process) [ none ↦ p | some c ↦ make c (record p { running = o.1 }) ]))
        (sym e) r
  Gone-Reporting p r o (inr (inl (c, earlier, e, s, a))) =
      subst (λ (x : Option Action × List (List Action)). Reporting opened sig name (going p x))
        (sym e)
        (Made-Reporting c earlier r.rest p _
          (make-Made c (record p { running = earlier ++ r.rest ∷ [] })) a r.begun
          λ fd h.
            events_on-push_all fd r.rest (c ∷ p.events)
            ∙ ap (λ (l : List Action). events_on fd (push_all r.rest []) ++ l)
                (silent_push fd c p.events s)
            ∙ sym (events_on-push_all fd r.rest p.events)
            ∙ r.whole fd h)
  Gone-Reporting p r o (inr (inr (c, left, f, e))) =
      subst (λ (x : Option Action × List (List Action)). Reporting opened sig name (going p x))
        (sym e)
        (Made-Reporting c r.later left p _
          (make-Made c (record p { running = r.later ++ left ∷ [] })) r.silent r.begun
          λ fd h.
            ap (λ (cs : List Action). events_on fd (push_all cs p.events)) (sym f) ∙ r.whole fd h)

  unless_ended :
      (b : Bool) (p q : Process)
      → Reporting opened sig name p
      → Reporting opened sig name q
      → Reporting opened sig name (if b then p else q)
  unless_ended true p q h k = h
  unless_ended false p q h k = k

  killed :
      (p : Process)
      → Reporting opened sig name p
      → Reporting opened sig name (record p { ended = true })
  killed p r = record {
    later = r.later;
    rest = r.rest;
    shape = r.shape;
    silent = r.silent;
    begun = r.begun;
    whole = r.whole;
  }

  take_turn-Reporting :
      (m : Turn) (p : Process)
      → Reporting opened sig name p
      → Reporting opened sig name (take_turn m p)
  unfolding take_turn
  take_turn-Reporting (signal_comes s n) p r = unless_ended p.ended p _ r (
      unless_ended (p.handled s) (crash_handler s n p) (record p { ended = true })
        (entered_again s n p r) (killed p r))
  take_turn-Reporting (handler_goes_on n) p r = unless_ended p.ended p _ r (
      Gone-Reporting p r (go_on n p.running) (
        subst (λ (l : List (List Action)). Gone r.later r.rest (go_on n l)) (sym r.shape)
          (go_on-Gone n r.later r.rest r.silent)))
  take_turn-Reporting kernel_kills p r = killed p r

  pub take_turns-Reporting :
      (ms : List Turn) (p : Process)
      → Reporting opened sig name p
      → Reporting opened sig name (take_turns ms p)
  unfolding take_turns
  take_turns-Reporting [] p r = r
  take_turns-Reporting (m ∷ ms) p r =
      take_turns-Reporting ms (take_turn m p) (take_turn-Reporting m p r)

  pub oldest_last :
      (later : List (List Action)) (rest : List Action) → oldest (later ++ rest ∷ []) ≡ rest
  oldest_last [] rest = refl
  oldest_last (cs ∷ []) rest = refl
  oldest_last (cs ∷ ds ∷ later) rest = oldest_last (ds ∷ later) rest

  report_whole :
      (fd : ℕ)
      → opened ≢ some stderr
      → IsTarget opened fd
      → events_on fd (push_all (report_calls opened sig name) []) ≡ section_of fd sig name
  unfolding push_all report_calls write_all write_backtrace
  report_whole fd ne t = elim (Option-cases opened) [
    | inl o ↦ ground (arith, take-header_len (header sig name), t)
    | inr (log_fd, o) ↦ ground (arith, take-header_len (header sig name), t)
  ]

  -- A process with the handler, which no signal has entered.
  pub record IsFresh (p : Process) : Type 0 where
    pub not_entered : p.entered ≡ false
    pub not_ended : p.ended ≡ false
    pub nothing_made : p.events ≡ []
    pub nothing_runs : p.running ≡ []
    pub is_handled : (install_crash_handler opened p).handled sig ≡ true

  pub first_entered :
      (p : Process)
      → IsFresh p
      → take_turn (signal_comes sig name) (install_crash_handler opened p)
        ≡ record (install_crash_handler opened p) {
          entered = true;
          running = report_calls opened sig name ∷ [];
        }
  unfolding take_turn crash_handler install_crash_handler
  first_entered p f = ground (arith, f.not_entered, f.not_ended, f.nothing_runs, f.is_handled)

  pub first_Reporting :
      (p : Process)
      → IsFresh p
      → opened ≢ some stderr
      → Reporting opened sig name
          (take_turn (signal_comes sig name) (install_crash_handler opened p))
  unfolding install_crash_handler
  first_Reporting p f ne = subst (Reporting opened sig name) (sym (first_entered p f)) (record {
    later = [];
    rest = report_calls opened sig name;
    shape = refl;
    silent = tt;
    begun = refl;
    whole = λ fd t.
        ap (λ (es : List Action). events_on fd (push_all (report_calls opened sig name) es))
          f.nothing_made
        ∙ report_whole fd ne t;
  })
