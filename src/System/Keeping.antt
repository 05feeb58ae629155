-- ===== src/System/Keeping.antt =====
-- Rules by which a method keeps the bot sound, one for each way to build a method.
use dpp_bot.Base.{
  ℕ, ◌≡◌, refl, Bool, true, false, Option, none, some, ◌∷◌, arith, inl, inr, Option-cases,
  if◌then◌else◌,
}
use dpp_bot.Text.{Text}
use dpp_bot.Dict.{find}
use dpp_bot.Dict.Laws.{find-update, update-IsOrdered}
use dpp_bot.Guild.{GuildInfo}
use dpp_bot.Task.{
  M, Task, Bot, Call, Mutex, Outcome, returns, throws, deadlock, fault, ◌>>=◌, done, return, when,
  catch, throw, release, is_held, with_lock, call, observe, find_info, modify_info, deref, read,
}
use dpp_bot.Player.{yield_to, alone}
use dpp_bot.System.Rules.{is_neutral, IsPlain}
use dpp_bot.System.Sound.{IsSound, Leaves, Keeps, spawned, joined, leaving, same-IsSound}

pub Keeps-return : {A : Type 0} (a : A) → Keeps (return a)
Keeps-return a = record { at = λ t h. h }

pub Keeps-done : Keeps done
Keeps-done = record { at = λ t h. h }

pub Keeps-throw : {A : Type 0} (e : Text) → Keeps (throw {A = A} e)
Keeps-throw e = record { at = λ t h. h }

pub Keeps-observe : Keeps observe
Keeps-observe = record { at = λ t h. same-IsSound t _ refl (λ g. refl) (λ g. refl) (λ g. refl) h }

pub Keeps-read : {A : Type 0} (f : Bot → A) → Keeps (read f)
Keeps-read f = record { at = λ t h. h }

pub Keeps-find : (g : ℕ) → Keeps (find_info g)
Keeps-find g = record { at = λ t h. h }

pub Keeps-bind :
    {A B : Type 0} (m : M A) (f : A → M B) → Keeps m → ((a : A) → Keeps (f a)) → Keeps (m >>= f)
Keeps-bind {A} {B} m f k n = record { at = λ t h. go (m t) (k.at t h) }
  where
    go :
        (o : Outcome A)
        → Leaves o
        → Leaves (elim o [
          | returns a u ↦ f a u
          | throws e u ↦ throws e u
          | deadlock x ↦ deadlock x
          | fault ↦ fault
        ])
    go (returns a u) p = (n a).at u p
    go (throws e u) p = p
    go (deadlock x) p = p
    go fault p = p

pub Keeps-catch :
    {A : Type 0} (m : M A) (f : Text → M A)
    → Keeps m
    → ((e : Text) → Keeps (f e))
    → Keeps (catch m f)
Keeps-catch {A} m f k n = record { at = λ t h. go (m t) (k.at t h) }
  where
    go :
        (o : Outcome A)
        → Leaves o
        → Leaves (elim o [
          | returns a u ↦ returns a u
          | throws e u ↦ f e u
          | deadlock x ↦ deadlock x
          | fault ↦ fault
        ])
    go (returns a u) p = p
    go (throws e u) p = (n e).at u p
    go (deadlock x) p = p
    go fault p = p

release-Leaves : {A : Type 0} (o : Outcome A) → Leaves o → Leaves (release o)
release-Leaves (returns a t) h = same-IsSound t _ refl (λ g. refl) (λ g. refl) (λ g. refl) h
release-Leaves (throws e t) h = same-IsSound t _ refl (λ g. refl) (λ g. refl) (λ g. refl) h
release-Leaves (deadlock m) h = h
release-Leaves fault h = h

pub Keeps-lock : {A : Type 0} (x : Mutex) (m : M A) → Keeps m → Keeps (with_lock x m)
Keeps-lock {A} x m k = record { at = λ t h. go t h (is_held x t.held) }
  where
    go :
        (t : Task)
        → IsSound t
        → (b : Bool)
        → Leaves {A = A}
            (elim b [ true ↦ deadlock x | false ↦ release (m (record t { held = x ∷ t.held })) ])
    go t h true = tt
    go t h false =
        release-Leaves (m (record t { held = x ∷ t.held }))
          (k.at _ (same-IsSound t _ refl (λ g. refl) (λ g. refl) (λ g. refl) h))

pub Keeps-when : (b : Bool) (m : M (Unit {0})) → Keeps m → Keeps (when b m)
Keeps-when true m k = record { at = k.at }
Keeps-when false m k = record { at = λ t h. h }

pub Keeps-if : {A : Type 0} (b : Bool) (m n : M A) → Keeps m → Keeps n → Keeps (if b then m else n)
Keeps-if true m n k l = k
Keeps-if false m n k l = l

-- What follows an answer that may be missing.
pub Keeps-cases :
    {A B : Type 0} (m : M (Option A)) (k : Option A → M B)
    → Keeps m
    → Keeps (k none)
    → ((a : A) → Keeps (k (some a)))
    → Keeps (m >>= k)
Keeps-cases {A} m k h n s = Keeps-bind m k h go
  where
    go : (o : Option A) → Keeps (k o)
    go none = n
    go (some a) = s a

pub Keeps-call : (c : Call) → is_neutral c ≡ true → Keeps (call c)
unfolding spawned joined leaving
Keeps-call c e = record {
  at = λ t h. same-IsSound t _ refl (λ g. ground arith) (λ g. ground arith) (λ g. ground arith) h;
}

-- A write that leaves the handle and the flag of the audio thread and the leave under way alone.
pub Keeps-write : (g : ℕ) (f : GuildInfo → GuildInfo) → IsPlain f → Keeps (modify_info g f)
Keeps-write g f plain = record {
  at = λ t h. record {
    balanced = λ k. elim (Option-cases (find g t.bot.guild_infos)) [
      | inl p ↦ ground (arith, h.balanced k, find-update k g f t.bot.guild_infos)
      | inr (info, p) ↦
          ground (arith, h.balanced k, find-update k g f t.bot.guild_infos, plain.thread_kept info)
    ];
    unasked = λ k. elim (Option-cases (find g t.bot.guild_infos)) [
      | inl p ↦ ground (arith, h.unasked k, find-update k g f t.bot.guild_infos)
      | inr (info, p) ↦ ground (
        arith,
        h.unasked k,
        find-update k g f t.bot.guild_infos,
        plain.thread_kept info,
        plain.stop_kept info,
      )
    ];
    awaited = λ k q. elim (Option-cases (find g t.bot.guild_infos)) [
      | inl p ↦ ground (arith, h.awaited k, find-update k g f t.bot.guild_infos)
      | inr (info, p) ↦
          ground (arith, h.awaited k, find-update k g f t.bot.guild_infos, plain.leave_kept info)
    ];
    covered = h.covered;
    infos_order = update-IsOrdered g f t.bot.guild_infos h.infos_order;
    messages_order = h.messages_order;
    occupancy_order = h.occupancy_order;
    seeded_order = h.seeded_order;
  };
}

pub Keeps-deref : (g : ℕ) → Keeps (deref g)
Keeps-deref g = record { at = λ t h. go t h (find g t.bot.guild_infos) }
  where
    go :
        (t : Task)
        → IsSound t
        → (o : Option GuildInfo) → Leaves (elim o [ none ↦ fault | some info ↦ returns info t ])
    go t h none = tt
    go t h (some info) = h

pub Keeps-yield : Keeps (yield_to alone)
Keeps-yield = record { at = λ t h. same-IsSound t _ refl (λ g. refl) (λ g. refl) (λ g. refl) h }

pub ruleset keeps_rules = (
  Keeps-return, Keeps-done, Keeps-throw, Keeps-observe, Keeps-read, Keeps-find, Keeps-cases,
  Keeps-bind, Keeps-catch, Keeps-lock, Keeps-when, Keeps-if, Keeps-call, Keeps-write, Keeps-deref,
)
