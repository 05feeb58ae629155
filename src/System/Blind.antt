-- ===== src/System/Blind.antt =====
-- What a method does does not depend on the calls that were made before it.
use dpp_bot.Base.{
  ℕ, ◌≡◌, refl, ap, ◌∙◌, Bool, true, false, Option, none, some, List, ◌∷◌, ◌++◌, if◌then◌else◌,
  arith,
}
use dpp_bot.Text.{Text}
use dpp_bot.Dict.{find}
use dpp_bot.Guild.{GuildInfo, VoiceObservation}
use dpp_bot.Task.{
  M, Task, Bot, Call, Mutex, Outcome, returns, throws, deadlock, fault, ◌>>=◌, done, return, when,
  catch, throw, release, is_held, with_lock, call, read, observe, modify, find_info, deref,
  join_thread,
}
use dpp_bot.Connection.{emplace_guild, destroy, erase_guild, start_audio_thread, stop_audio_thread}
use dpp_bot.Player.{yield_to}
use dpp_bot.Voice.{judge_guild}
use dpp_bot.System.Rules.{Rules, ask_and_stop, judge_and_start}

-- A task and an outcome with `old` calls before theirs.
abbrev pub add : List Call → Task → Task
add old t = record t { log = t.log ++ old }

abbrev pub behind : {A : Type 0} → List Call → Outcome A → Outcome A
behind old (returns a t) = returns a (add old t)
behind old (throws e t) = throws e (add old t)
behind old (deadlock x) = deadlock x
behind old fault = fault

pub record Blind {A : Type 0} (m : M A) : Type 0 where
  pub at : (old : List Call) (t : Task) → m (add old t) ≡ behind old (m t)

Blind-return : {A : Type 0} (a : A) → Blind (return a)
Blind-return a = record { at = λ old t. refl }

Blind-done : Blind done
Blind-done = record { at = λ old t. refl }

Blind-throw : {A : Type 0} (e : Text) → Blind (throw {A = A} e)
Blind-throw e = record { at = λ old t. refl }

Blind-observe : Blind observe
Blind-observe = record { at = λ old t. refl }

Blind-read : {A : Type 0} (f : Bot → A) → Blind (read f)
Blind-read f = record { at = λ old t. refl }

Blind-find : (g : ℕ) → Blind (find_info g)
Blind-find g = record { at = λ old t. refl }

Blind-modify : (f : Bot → Bot) → Blind (modify f)
Blind-modify f = record { at = λ old t. refl }

Blind-call : (c : Call) → Blind (call c)
Blind-call c = record { at = λ old t. refl }

Blind-yield : (others : ℕ → Bot → Bot) → Blind (yield_to others)
Blind-yield others = record { at = λ old t. refl }

Blind-bind :
    {A B : Type 0} (m : M A) (f : A → M B) → Blind m → ((a : A) → Blind (f a)) → Blind (m >>= f)
Blind-bind {A} {B} m f k n = record { at = λ old t. ap pass (k.at old t) ∙ go old (m t) }
  where
    pass : Outcome A → Outcome B
    pass o = elim o [
      | returns a u ↦ f a u
      | throws e u ↦ throws e u
      | deadlock x ↦ deadlock x
      | fault ↦ fault
    ]

    go : (old : List Call) (o : Outcome A) → pass (behind old o) ≡ behind old (pass o)
    go old (returns a u) = (n a).at old u
    go old (throws e u) = refl
    go old (deadlock x) = refl
    go old fault = refl

Blind-catch :
    {A : Type 0} (m : M A) (f : Text → M A)
    → Blind m
    → ((e : Text) → Blind (f e))
    → Blind (catch m f)
Blind-catch {A} m f k n = record { at = λ old t. ap pass (k.at old t) ∙ go old (m t) }
  where
    pass : Outcome A → Outcome A
    pass o = elim o [
      | returns a u ↦ returns a u
      | throws e u ↦ f e u
      | deadlock x ↦ deadlock x
      | fault ↦ fault
    ]

    go : (old : List Call) (o : Outcome A) → pass (behind old o) ≡ behind old (pass o)
    go old (returns a u) = refl
    go old (throws e u) = (n e).at old u
    go old (deadlock x) = refl
    go old fault = refl

release-behind :
    {A : Type 0} (old : List Call) (o : Outcome A) → release (behind old o) ≡ behind old (release o)
release-behind old (returns a t) = refl
release-behind old (throws e t) = refl
release-behind old (deadlock x) = refl
release-behind old fault = refl

Blind-lock : {A : Type 0} (x : Mutex) (m : M A) → Blind m → Blind (with_lock x m)
Blind-lock {A} x m k = record { at = λ old t. go old t (is_held x t.held) }
  where
    go :
        (old : List Call) (t : Task) (b : Bool)
        → ◌≡◌ {A = Outcome A}
            (elim b [
              | true ↦ deadlock x
              | false ↦ release (m (record (add old t) { held = x ∷ t.held }))
            ])
            (behind old
              (elim b [ true ↦ deadlock x | false ↦ release (m (record t { held = x ∷ t.held })) ]))
    go old t true = refl
    go old t false =
        ap release (k.at old (record t { held = x ∷ t.held }))
        ∙ release-behind old (m (record t { held = x ∷ t.held }))

Blind-when : (b : Bool) (m : M (Unit {0})) → Blind m → Blind (when b m)
Blind-when true m k = record { at = k.at }
Blind-when false m k = record { at = λ old t. refl }

Blind-if : {A : Type 0} (b : Bool) (m n : M A) → Blind m → Blind n → Blind (if b then m else n)
Blind-if true m n k l = k
Blind-if false m n k l = l

Blind-cases :
    {A B : Type 0} (m : M (Option A)) (k : Option A → M B)
    → Blind m
    → Blind (k none)
    → ((a : A) → Blind (k (some a)))
    → Blind (m >>= k)
Blind-cases {A} m k h n s = Blind-bind m k h go
  where
    go : (o : Option A) → Blind (k o)
    go none = n
    go (some a) = s a

Blind-deref : (g : ℕ) → Blind (deref g)
Blind-deref g = record { at = λ old t. go old t (find g t.bot.guild_infos) }
  where
    go :
        (old : List Call) (t : Task) (o : Option GuildInfo)
        → ◌≡◌ {A = Outcome GuildInfo}
            (elim o [ none ↦ fault | some info ↦ returns info (add old t) ])
            (behind old (elim o [ none ↦ fault | some info ↦ returns info t ]))
    go old t none = refl
    go old t (some info) = refl

Blind-join : (g : ℕ) → Blind (join_thread g)
Blind-join g = record { at = λ old t. ground arith }

ruleset blind_rules = (
  Blind-return, Blind-done, Blind-throw, Blind-observe, Blind-read, Blind-find, Blind-cases,
  Blind-bind, Blind-catch, Blind-lock, Blind-when, Blind-if, Blind-call, Blind-modify, Blind-deref,
  Blind-join,
)

emplace_guild-Blind : (guild shard channel : ℕ) → Blind (emplace_guild guild shard channel)
unfolding emplace_guild
emplace_guild-Blind guild shard channel = search blind_rules

destroy-Blind : (guild : ℕ) (it : Option GuildInfo) → Blind (destroy guild it)
unfolding destroy
destroy-Blind guild none = search blind_rules
destroy-Blind guild (some info) = search blind_rules

erase_guild-Blind : (guild : ℕ) → Blind (erase_guild guild)
unfolding erase_guild
erase_guild-Blind guild = search (blind_rules, destroy-Blind)

start_audio_thread-Blind : (guild : ℕ) → Blind (start_audio_thread guild)
unfolding start_audio_thread
start_audio_thread-Blind guild = search blind_rules depth 12

stop_audio_thread-Blind : (guild : ℕ) → Blind (stop_audio_thread guild)
unfolding stop_audio_thread
stop_audio_thread-Blind guild = search blind_rules depth 12

ask_and_stop-Blind : (guild : ℕ) (k : M (Unit {0})) → Blind k → Blind (ask_and_stop guild k)
ask_and_stop-Blind guild k h = search (blind_rules, stop_audio_thread-Blind) depth 12

judge_guild-Blind :
    (now : ℕ) (obs : VoiceObservation) (guild : ℕ) → Blind (judge_guild now obs guild)
unfolding judge_guild
judge_guild-Blind now obs guild = search blind_rules depth 12

judge_and_start-Blind :
    (now : ℕ) (obs : VoiceObservation) (guild shard : ℕ)
    → Blind (judge_and_start now obs guild shard)
judge_and_start-Blind now obs guild shard = search (blind_rules, judge_guild-Blind) depth 12

pub blind : Rules (λ A m. Blind m)
blind = record {
  of_return = λ A a. Blind-return a;
  of_done = Blind-done;
  of_throw = λ A e. Blind-throw e;
  of_observe = Blind-observe;
  of_read = λ A f. Blind-read f;
  of_find = Blind-find;
  of_deref = Blind-deref;
  of_bind = λ A B m f h k. Blind-bind m f h k;
  of_catch = λ A m f h k. Blind-catch m f h k;
  of_lock = λ A x m h. Blind-lock x m h;
  of_when = Blind-when;
  of_if = λ A b m n h k. Blind-if b m n h k;
  of_call = λ c e. Blind-call c;
  of_write = λ g f p. Blind-modify _;
  of_remember = λ channel id. Blind-modify _;
  of_forget = λ guild. Blind-modify _;
  of_enter = λ guild user info. Blind-modify _;
  of_exit = λ guild user. Blind-modify _;
  of_seed = λ guild entries. Blind-modify _;
  of_emplace = emplace_guild-Blind;
  of_erase = erase_guild-Blind;
  of_start = start_audio_thread-Blind;
  of_stop = stop_audio_thread-Blind;
  of_ask = ask_and_stop-Blind;
  of_judge = judge_and_start-Blind;
  of_yield = Blind-yield _;
}
