-- ===== src/System/Rules.antt =====
-- Properties of methods that go through sequencing, locks, exceptions and branches and hold of the
-- parts that touch the bot: the interface between such a property and the methods of the client.
use dpp_bot.Base.{ℕ, ◌≡◌, true, false, Bool, Option, none, some, if◌then◌else◌}
use dpp_bot.Text.{Text}
use dpp_bot.Dict.{Map}
use dpp_bot.Guild.{GuildInfo, VoiceMemberInfo, VoiceObservation}
use dpp_bot.Task.{
  M, Bot, Mutex, Call, Dpp, ◌>>=◌, ◌>>◌, done, return, when, catch, throw, with_lock, call, read,
  observe, modify, find_info, modify_info, deref, guild_infos_mutex, spawn_player, join_player,
  spawn_leave,
}
use dpp_bot.Messages.{remember}
use dpp_bot.Voice.{enter, exit, forget, seed, judge_guild}
use dpp_bot.Connection.{ask_stop, emplace_guild, erase_guild, start_audio_thread, stop_audio_thread}
use dpp_bot.Player.{yield_to, alone}

-- A call that neither starts nor joins an audio thread, and starts none that leaves.
abbrev pub is_neutral : Call → Bool
is_neutral (spawn_player g) = false
is_neutral (join_player g) = false
is_neutral (spawn_leave g shard channel) = false
is_neutral c = true

-- `LeaveVoice` up to the end of the join, and what follows.
abbrev pub ask_and_stop : ℕ → M (Unit {0}) → M (Unit {0})
ask_and_stop guild k = do
  with_lock guild_infos_mutex
      do it ← find_info guild; elim it [ none ↦ done | some info ↦ modify_info guild ask_stop ]
  catch (stop_audio_thread guild) (λ e. done)
  k

-- `CheckVoiceChannels` for one guild, from the lock of `guildInfosMutex` on.
abbrev pub judge_and_start : ℕ → VoiceObservation → ℕ → ℕ → M (Unit {0})
judge_and_start now obs guild shard = do
  leave ← judge_guild now obs guild
  elim leave [ none ↦ done | some channel ↦ call (spawn_leave guild shard channel) ]

-- A write that leaves the handle and the flag of the audio thread and the leave under way alone.
pub record IsPlain (f : GuildInfo → GuildInfo) : Type 0 where
  pub thread_kept : (info : GuildInfo) → (f info).audio_thread ≡ info.audio_thread
  pub stop_kept : (info : GuildInfo) → (f info).should_stop ≡ info.should_stop
  pub leave_kept : (info : GuildInfo) → (f info).leave_pending ≡ info.leave_pending

pub record Rules (P : (A : Type 0) → M A → Type 0) : Type 1 where
  pub of_return : (A : Type 0) (a : A) → P A (return a)
  pub of_done : P (Unit {0}) (done)
  pub of_throw : (A : Type 0) (e : Text) → P A (throw {A = A} e)
  pub of_observe : P Dpp (observe)
  pub of_read : (A : Type 0) (f : Bot → A) → P A (read f)
  pub of_find : (g : ℕ) → P (Option GuildInfo) (find_info g)
  pub of_deref : (g : ℕ) → P GuildInfo (deref g)
  pub of_bind :
      (A B : Type 0) (m : M A) (f : A → M B) → P A m → ((a : A) → P B (f a)) → P B (m >>= f)
  pub of_catch :
      (A : Type 0) (m : M A) (f : Text → M A) → P A m → ((e : Text) → P A (f e)) → P A (catch m f)
  pub of_lock : (A : Type 0) (x : Mutex) (m : M A) → P A m → P A (with_lock x m)
  pub of_when : (b : Bool) (m : M (Unit {0})) → P (Unit {0}) m → P (Unit {0}) (when b m)
  pub of_if : (A : Type 0) (b : Bool) (m n : M A) → P A m → P A n → P A (if b then m else n)
  pub of_call : (c : Call) → is_neutral c ≡ true → P (Unit {0}) (call c)
  pub of_write : (g : ℕ) (f : GuildInfo → GuildInfo) → IsPlain f → P (Unit {0}) (modify_info g f)
  pub of_remember : (channel id : ℕ) → P (Unit {0}) (modify (remember channel id))
  pub of_forget : (guild : ℕ) → P (Unit {0}) (modify (forget guild))
  pub of_enter :
      (guild user : ℕ) (info : VoiceMemberInfo) → P (Unit {0}) (modify (enter guild user info))
  pub of_exit : (guild user : ℕ) → P (Unit {0}) (modify (exit guild user))
  pub of_seed :
      (guild : ℕ) (entries : Map VoiceMemberInfo) → P (Unit {0}) (modify (seed guild entries))
  pub of_emplace : (guild shard channel : ℕ) → P (Unit {0}) (emplace_guild guild shard channel)
  pub of_erase : (guild : ℕ) → P (Unit {0}) (erase_guild guild)
  pub of_start : (guild : ℕ) → P (Unit {0}) (start_audio_thread guild)
  pub of_stop : (guild : ℕ) → P (Unit {0}) (stop_audio_thread guild)
  pub of_ask : (guild : ℕ) (k : M (Unit {0})) → P (Unit {0}) k → P (Unit {0}) (ask_and_stop guild k)
  pub of_judge :
      (now : ℕ) (obs : VoiceObservation) (guild shard : ℕ)
      → P (Unit {0}) (judge_and_start now obs guild shard)
  pub of_yield : P (Unit {0}) (yield_to alone)

pub record Holds {P : (A : Type 0) → M A → Type 0} (r : Rules P) {A : Type 0} (m : M A)
    : Type 0 where
  pub holds : P A m

module _ {P : (A : Type 0) → M A → Type 0} {r : Rules P} where
  pub Holds-return : {A : Type 0} (a : A) → Holds r (return a)
  Holds-return {A} a = record { holds = r.of_return A a }

  pub Holds-done : Holds r done
  Holds-done = record { holds = r.of_done }

  pub Holds-throw : {A : Type 0} (e : Text) → Holds r (throw {A = A} e)
  Holds-throw {A} e = record { holds = r.of_throw A e }

  pub Holds-observe : Holds r observe
  Holds-observe = record { holds = r.of_observe }

  pub Holds-read : {A : Type 0} (f : Bot → A) → Holds r (read f)
  Holds-read {A} f = record { holds = r.of_read A f }

  pub Holds-find : (g : ℕ) → Holds r (find_info g)
  Holds-find g = record { holds = r.of_find g }

  pub Holds-deref : (g : ℕ) → Holds r (deref g)
  Holds-deref g = record { holds = r.of_deref g }

  pub Holds-bind :
      {A B : Type 0} (m : M A) (f : A → M B)
      → Holds r m
      → ((a : A) → Holds r (f a))
      → Holds r (m >>= f)
  Holds-bind {A} {B} m f h k = record { holds = r.of_bind A B m f h.holds (λ x. (k x).holds) }

  -- What follows an answer that may be missing.
  pub Holds-cases :
      {A B : Type 0} (m : M (Option A)) (k : Option A → M B)
      → Holds r m
      → Holds r (k none)
      → ((a : A) → Holds r (k (some a)))
      → Holds r (m >>= k)
  Holds-cases {A} m k h n s = Holds-bind m k h go
    where
      go : (o : Option A) → Holds r (k o)
      go none = n
      go (some a) = s a

  pub Holds-catch :
      {A : Type 0} (m : M A) (f : Text → M A)
      → Holds r m
      → ((e : Text) → Holds r (f e))
      → Holds r (catch m f)
  Holds-catch {A} m f h k = record { holds = r.of_catch A m f h.holds (λ x. (k x).holds) }

  pub Holds-lock : {A : Type 0} (x : Mutex) (m : M A) → Holds r m → Holds r (with_lock x m)
  Holds-lock {A} x m h = record { holds = r.of_lock A x m h.holds }

  pub Holds-when : (b : Bool) (m : M (Unit {0})) → Holds r m → Holds r (when b m)
  Holds-when b m h = record { holds = r.of_when b m h.holds }

  pub Holds-if :
      {A : Type 0} (b : Bool) (m n : M A) → Holds r m → Holds r n → Holds r (if b then m else n)
  Holds-if {A} b m n h k = record { holds = r.of_if A b m n h.holds k.holds }

  pub Holds-call : (c : Call) → is_neutral c ≡ true → Holds r (call c)
  Holds-call c h = record { holds = r.of_call c h }

  pub Holds-write : (g : ℕ) (f : GuildInfo → GuildInfo) → IsPlain f → Holds r (modify_info g f)
  Holds-write g f h = record { holds = r.of_write g f h }

  pub Holds-remember : (channel id : ℕ) → Holds r (modify (remember channel id))
  Holds-remember channel id = record { holds = r.of_remember channel id }

  pub Holds-forget : (guild : ℕ) → Holds r (modify (forget guild))
  Holds-forget guild = record { holds = r.of_forget guild }

  pub Holds-enter :
      (guild user : ℕ) (info : VoiceMemberInfo) → Holds r (modify (enter guild user info))
  Holds-enter guild user info = record { holds = r.of_enter guild user info }

  pub Holds-exit : (guild user : ℕ) → Holds r (modify (exit guild user))
  Holds-exit guild user = record { holds = r.of_exit guild user }

  pub Holds-seed :
      (guild : ℕ) (entries : Map VoiceMemberInfo) → Holds r (modify (seed guild entries))
  Holds-seed guild entries = record { holds = r.of_seed guild entries }

  pub Holds-emplace : (guild shard channel : ℕ) → Holds r (emplace_guild guild shard channel)
  Holds-emplace guild shard channel = record { holds = r.of_emplace guild shard channel }

  pub Holds-erase : (guild : ℕ) → Holds r (erase_guild guild)
  Holds-erase guild = record { holds = r.of_erase guild }

  pub Holds-start : (guild : ℕ) → Holds r (start_audio_thread guild)
  Holds-start guild = record { holds = r.of_start guild }

  pub Holds-stop : (guild : ℕ) → Holds r (stop_audio_thread guild)
  Holds-stop guild = record { holds = r.of_stop guild }

  pub Holds-ask : (guild : ℕ) (k : M (Unit {0})) → Holds r k → Holds r (ask_and_stop guild k)
  Holds-ask guild k h = record { holds = r.of_ask guild k h.holds }

  pub Holds-judge :
      (now : ℕ) (obs : VoiceObservation) (guild shard : ℕ)
      → Holds r (judge_and_start now obs guild shard)
  Holds-judge now obs guild shard = record { holds = r.of_judge now obs guild shard }

  pub Holds-yield : Holds r (yield_to alone)
  Holds-yield = record { holds = r.of_yield }

pub ruleset rules = (
  Holds-return, Holds-done, Holds-throw, Holds-observe, Holds-read, Holds-find, Holds-cases,
  Holds-bind, Holds-catch, Holds-lock, Holds-when, Holds-if, Holds-call, Holds-write, Holds-deref,
  Holds-remember, Holds-forget, Holds-enter, Holds-exit, Holds-seed, Holds-emplace, Holds-erase,
  Holds-start, Holds-stop, Holds-ask, Holds-judge, Holds-yield,
)
