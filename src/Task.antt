-- ===== src/Task.antt =====
-- The state of `DiscordBotClient` and the threads that run its methods.
-- A method is a function of the monad `M`: it reads and writes the bot, takes and releases mutexes,
-- asks dpp, and makes calls, which go to a log, the latest first. A second lock of a mutex by the
-- thread that holds it, and a join of an audio thread under the mutex that this thread needs to
-- end, are deadlocks; the use of an entry of `guildInfos` that is gone is a fault. An exception keeps
-- the state and releases the locks.
pub mod Endings
use dpp_bot.Base.{ℕ, suc, Bool, true, false, Option, none, some, List, [], ◌∷◌, ◌||◌, ◌==◌, drop}
use mathlib.Core.Path.{◌≡◌}
use dpp_bot.Text.{Text}
use dpp_bot.Dict.{Map, find, update}
use dpp_bot.Guild.{GuildInfo, VoiceMemberInfo}

-- `dpp::message_create_t`, with what the handlers read of it.
pub record Message : Type 0 where
  pub guild_id : ℕ
  pub channel_id : ℕ
  pub msg_id : ℕ
  pub author_id : ℕ
  pub author_is_bot : Bool
  pub author_name : Text
  pub content : Text
  pub shard_id : ℕ

pub record VoiceClient : Type 0 where
  pub is_connected : Bool
  pub is_ready : Bool
  pub terminating : Bool

pub record VoiceConn : Type 0 where
  pub channel_id : ℕ
  pub voiceclient : Option VoiceClient

pub record Shard : Type 0 where
  pub get_voice : ℕ → Option VoiceConn

-- `voice_members`: the channel of each user.
pub record DppGuild : Type 0 where
  pub voice_members : Map ℕ

-- What dpp, the clock and Discord answer at one moment. `find_user` tells of a cached user whether
-- it is a bot; the last two say whether a call of `disconnect_voice`, of `send_…` throws.
pub record Dpp : Type 0 where
  pub me_id : ℕ
  pub now : ℕ
  pub get_shard : ℕ → Option Shard
  pub find_guild : ℕ → Option DppGuild
  pub find_user : ℕ → Option Bool
  pub connect_member_voice : ℕ → ℕ → Bool
  pub disconnect_fails : Bool
  pub send_fails : Bool

-- The callbacks that are given to `FileLoader::RequestServer`, with what they capture.
pub data Continuation : Type 0 where
  enqueue_response : Message → (insert_front : Bool) → Continuation
  omakase_response : Message → Continuation
  deactivate_response : Message → (should_skip : Bool) → Continuation

-- The calls that leave the program, and the threads that it starts and joins.
pub data Call : Type 0 where
  message_create : (channel : ℕ) → Text → Call
  message_delete : (msg channel : ℕ) → Call
  message_delete_bulk : List ℕ → (channel : ℕ) → Call
  messages_get : (channel count : ℕ) → Call
  add_reaction : (msg : ℕ) → Text → Call
  delete_own_reaction : (msg : ℕ) → (next : Text) → Call
  reply : (msg : ℕ) → Text → Call
  request : Text → Continuation → Call
  connect_voice : (guild channel : ℕ) → Call
  disconnect_voice : (guild : ℕ) → Call
  connect_member : (guild user : ℕ) → Call
  stop_audio : (guild : ℕ) → Call
  voiceconn_disconnect : (guild : ℕ) → Call
  send_audio_raw : (guild bytes : ℕ) → Call
  send_silence : (guild ms : ℕ) → Call
  spawn_player : (guild : ℕ) → Call
  join_player : (guild : ℕ) → Call
  spawn_leave : (guild shard channel : ℕ) → Call
  open_stream close_stream : (path : Text) → Call
  sleep : (ms : ℕ) → Call

pub record Bot : Type 0 where
  pub guild_infos : Map GuildInfo
  pub last_bot_messages : Map ℕ
  pub voice_occupancy : Map (Map VoiceMemberInfo)
  pub seeded_voice_guilds : Map (Unit {0})

pub data Mutex : Type 0 where
  guild_infos_mutex voice_mutex last_bot_messages_mutex : Mutex
  list_mutex : (guild : ℕ) → Mutex

abbrev pub same_mutex : Mutex → Mutex → Bool
same_mutex guild_infos_mutex guild_infos_mutex = true
same_mutex voice_mutex voice_mutex = true
same_mutex last_bot_messages_mutex last_bot_messages_mutex = true
same_mutex (list_mutex a) (list_mutex b) = a == b
same_mutex _ _ = false

abbrev pub is_held : Mutex → List Mutex → Bool
is_held m [] = false
is_held m (n ∷ ns) = same_mutex m n || is_held m ns

-- A thread in a method: the locks that it holds, the latest first; the bot; the log; what dpp will
-- answer to each question in turn, and how many were asked.
pub record Task : Type 0 where
  pub held : List Mutex
  pub bot : Bot
  pub log : List Call
  pub env : ℕ → Dpp
  pub tick : ℕ

pub data Outcome (A : Type 0) : Type 0 where
  returns : A → Task → Outcome A
  throws : Text → Task → Outcome A
  deadlock : Mutex → Outcome A
  fault : Outcome A

abbrev pub M : Type 0 → Type 0
M A = Task → Outcome A

abbrev pub return : {A : Type 0} → A → M A
return a t = returns a t

infixl 5 ◌>>=◌ ◌>>◌
abbrev pub ◌>>=◌ : {A B : Type 0} → M A → (A → M B) → M B
◌>>=◌ m f t = elim (m t) [
  | returns a t' ↦ f a t'
  | throws e t' ↦ throws e t'
  | deadlock x ↦ deadlock x
  | fault ↦ fault
]

abbrev pub ◌>>◌ : {B : Type 0} → M (Unit {0}) → M B → M B
◌>>◌ m k = m >>= λ _. k

abbrev pub done : M (Unit {0})
done t = returns tt t

abbrev pub when : Bool → M (Unit {0}) → M (Unit {0})
when b m t = elim b [ true ↦ m t | false ↦ returns tt t ]

-- `throw`, and `try { … } catch (…) { … }`.
abbrev pub throw : {A : Type 0} → Text → M A
throw e t = throws e t

abbrev pub catch : {A : Type 0} → M A → (Text → M A) → M A
catch m handler t = elim (m t) [
  | returns a t' ↦ returns a t'
  | throws e t' ↦ handler e t'
  | deadlock x ↦ deadlock x
  | fault ↦ fault
]

abbrev pub release : {A : Type 0} → Outcome A → Outcome A
release (returns a t) = returns a (record t { held = drop 1 t.held })
release (throws e t) = throws e (record t { held = drop 1 t.held })
release (deadlock x) = deadlock x
release fault = fault

-- `{ std::lock_guard<std::mutex> lock(m); … }`.
abbrev pub with_lock : {A : Type 0} → Mutex → M A → M A
with_lock m body t = elim (is_held m t.held) [
  | true ↦ deadlock m
  | false ↦ release (body (record t { held = m ∷ t.held }))
]

abbrev pub call : Call → M (Unit {0})
call c t = returns tt (record t { log = c ∷ t.log })

abbrev pub observe : M Dpp
observe t = returns (t.env t.tick) (record t { tick = suc t.tick })

-- A read of the bot.
abbrev pub read : {A : Type 0} → (Bot → A) → M A
read f t = returns (f t.bot) t

abbrev pub modify : (Bot → Bot) → M (Unit {0})
modify f t = returns tt (record t { bot = f t.bot })

abbrev pub find_info : ℕ → M (Option GuildInfo)
find_info g t = returns (find g t.bot.guild_infos) t

-- A write through the pointer to a guild's entry.
abbrev pub on_info : ℕ → (GuildInfo → GuildInfo) → Bot → Bot
on_info g f b = record b { guild_infos = update g f b.guild_infos }

abbrev pub modify_info : ℕ → (GuildInfo → GuildInfo) → M (Unit {0})
modify_info g f = modify (on_info g f)

-- A read through the pointer to a guild's entry.
abbrev pub deref : ℕ → M GuildInfo
deref g t = elim (find g t.bot.guild_infos) [ none ↦ fault | some info ↦ returns info t ]

-- `audioThread.join()`: the thread has to pass `guildInfosMutex` before it ends.
abbrev pub join_thread : ℕ → M (Unit {0})
join_thread g t = elim (is_held guild_infos_mutex t.held) [
  | true ↦ deadlock guild_infos_mutex
  | false ↦ returns tt (record t { log = join_player g ∷ t.log })
]

-- A thread that enters a method.
abbrev pub start : (ℕ → Dpp) → Bot → Task
start env b = record { held = []; bot = b; log = []; env = env; tick = 0 }

-- The bot and the log behind a method that returned.
abbrev pub bot_of : {A : Type 0} → Outcome A → Option Bot
bot_of (returns a t) = some t.bot
bot_of _ = none

abbrev pub log_of : {A : Type 0} → Outcome A → Option (List Call)
log_of (returns a t) = some t.log
log_of _ = none
