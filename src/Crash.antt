-- ===== src/Crash.antt =====
-- The handler of fatal signals (src/CrashHandler.cpp, the Linux half).
-- The state is what the file and the kernel keep: the descriptor of the crash log, `entered`, the
-- signals that the handler is installed for, what was written, the latest first, and the handlers that
-- are under way, the latest first, each with the calls that are left of it. A signal may come between
-- any two of these calls, from inside the handler or from another thread.
pub mod Reports
pub mod Handlers
pub mod Undisturbed
pub mod Once
mod Tests
use dpp_bot.Base.{
  ℕ, zero, suc, ◌-◌, Bool, true, false, not, Option, none, some, List, [], ◌∷◌, ◌++◌, ◌==◌, leb,
  if◌then◌else◌, String, length, take, ◌||◌,
}
use dpp_bot.Text.{Text, text, to_string}

abbrev pub sigill : ℕ
sigill = 4

abbrev pub sigabrt : ℕ
sigabrt = 6

abbrev pub sigbus : ℕ
sigbus = 7

abbrev pub sigfpe : ℕ
sigfpe = 8

abbrev pub sigsegv : ℕ
sigsegv = 11

-- `STDERR_FILENO`.
abbrev pub stderr : ℕ
stderr = 2

-- The calls that the handler makes.
pub data Action : Type 0 where
  write : (fd : ℕ) → Text → Action
  backtrace_symbols : (fd : ℕ) → Action
  set_default : (sig : ℕ) → Action
  raise : (sig : ℕ) → Action

-- `ended` once a signal's default action has taken the process.
pub record Process : Type 0 where
  pub crash_log_fd : Option ℕ
  pub entered : Bool
  pub handled : ℕ → Bool
  pub events : List Action
  pub running : List (List Action)
  pub ended : Bool

-- A write to the standard error and, if it is open, to the crash log.
unfoldable pub write_all : Option ℕ → Text → List Action
write_all none bytes = write stderr bytes ∷ []
write_all (some fd) bytes = write stderr bytes ∷ write fd bytes ∷ []

unfoldable pub signal_name : ℕ → String
signal_name sig =
    if sig == sigsegv
    then "SIGSEGV"
    else if sig == sigabrt
    then "SIGABRT"
    else if sig == sigbus
    then "SIGBUS"
    else if sig == sigfpe
    then "SIGFPE"
    else if sig == sigill
    then "SIGILL"
    else "?"

-- What `snprintf` is to print; the buffer holds 160 bytes with the closing zero.
unfoldable pub header : ℕ → Text → Text
unfolding signal_name
header sig thread_name =
    text "\n=== FATAL "
    ++ (text (signal_name sig)
        ++ (text " (signal "
            ++ (to_string sig ++ (text ") in thread '" ++ (thread_name ++ text "' ===\n")))))

unfoldable pub header_len : ℕ → ℕ
header_len len = if leb 160 len then 159 else len

abbrev pub footer : Text
footer = text "=== end of backtrace ===\n"

unfoldable pub write_backtrace : Option ℕ → List Action
write_backtrace none = backtrace_symbols stderr ∷ []
write_backtrace (some fd) = backtrace_symbols stderr ∷ backtrace_symbols fd ∷ []

-- `signal(sig, SIG_DFL)` and `raise(sig)`.
abbrev pub reraise : ℕ → List Action
reraise sig = set_default sig ∷ raise sig ∷ []

-- The calls of the first handler.
unfoldable pub report_calls : Option ℕ → ℕ → Text → List Action
unfolding write_all header header_len write_backtrace
report_calls log_fd sig thread_name =
    let line = header sig thread_name in
    write_all log_fd (take (header_len (length line)) line)
    ++ (write_backtrace log_fd ++ (write_all log_fd footer ++ reraise sig))

-- The handler is entered: its test of `entered`, which is taken to be one with the setting, and the
-- calls that it is to make.
unfoldable pub crash_handler : ℕ → Text → Process → Process
unfolding report_calls
crash_handler sig thread_name p =
    if p.entered then record p { running = reraise sig ∷ p.running } else record p {
      entered = true;
      running = report_calls p.crash_log_fd sig thread_name ∷ p.running;
    }

-- A call is made. The signal that `raise` sends takes the process, if its action is the default.
unfoldable pub make : Action → Process → Process
make (write fd bytes) p = record p { events = write fd bytes ∷ p.events }
make (backtrace_symbols fd) p = record p { events = backtrace_symbols fd ∷ p.events }
make (set_default sig) p = record p {
  events = set_default sig ∷ p.events;
  handled = λ s. if s == sig then false else p.handled s;
}
make (raise sig) p = record p {
  events = raise sig ∷ p.events;
  ended = p.ended || not (p.handled sig);
}

-- The handler that stands at `n` makes its next call, if it has one left.
unfoldable pub go_on : ℕ → List (List Action) → Option Action × List (List Action)
go_on n [] = (none, [])
go_on zero ([] ∷ rest) = (none, [] ∷ rest)
go_on zero ((c ∷ cs) ∷ rest) = (some c, cs ∷ rest)
go_on (suc n) (cs ∷ rest) = let r = go_on n rest in (r.0, cs ∷ r.1)

pub data Turn : Type 0 where
  signal_comes : (sig : ℕ) (thread_name : Text) → Turn
  handler_goes_on : ℕ → Turn
  kernel_kills : Turn

-- A signal enters the handler, or takes the process at once where it is not handled. The kernel may
-- take the process at any time, as it does for a fault whose signal the thread's handler blocks.
unfoldable pub take_turn : Turn → Process → Process
unfolding crash_handler make go_on
take_turn (signal_comes sig thread_name) p =
    if p.ended
    then p
    else if p.handled sig
    then crash_handler sig thread_name p
    else record p { ended = true }
take_turn (handler_goes_on n) p =
    if p.ended
    then p
    else let r = go_on n p.running in
      elim r.0 [ none ↦ p | some c ↦ make c (record p { running = r.1 }) ]
take_turn kernel_kills p = record p { ended = true }

-- The turns, the first one first.
unfoldable pub take_turns : List Turn → Process → Process
unfolding take_turn
take_turns [] p = p
take_turns (m ∷ ms) p = take_turns ms (take_turn m p)

-- `sigaction` for each signal; `opened` is what `open` of the crash log returned, `none` for -1.
unfoldable pub install_crash_handler : Option ℕ → Process → Process
install_crash_handler opened p = record p {
  crash_log_fd = opened;
  handled = λ s.
      s == sigsegv
      || (s == sigabrt || (s == sigbus || (s == sigfpe || (s == sigill || p.handled s))));
}
