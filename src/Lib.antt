-- ===== src/Lib.antt =====
-- DppBot: a Discord bot that plays music in voice channels.
--
-- The program. `main` (src/main.cpp) installs the crash handler, reads the token and runs a
-- `DiscordBotClient` (src/DiscordBotClient.cpp, src/DiscordBotClient.h). dpp, the Discord library,
-- calls the client's handlers for messages and voice events from its event threads and
-- `CheckVoiceChannels` from its timer. A message that begins with "!" is a command. The commands work
-- on `guildInfos`, which has an entry for each guild: its play list, its current video, its flags and
-- the handle of its audio thread. `!play`, `!first`, `!omakase` and `!delete` ask a local server over
-- HTTP (src/FileLoader.cpp) and go on in a callback. The audio thread of a guild runs
-- `PlayAudioThread`, takes songs off the play list and sends their frames to the voice client.
-- `CheckVoiceChannels` watches who is in the bot's channel and starts a thread that leaves an empty
-- one.
--
-- The files.
--   Base, with Base/Tests, Base/Lists, Base/Int: shared names, tests, lists and `int`.
--   Text: `std::string` as its bytes, and the functions of the standard library that are called on it.
--   Dict: `std::map` and `std::set`; Dict/Laws: lookups behind every change of a map.
--   Guild: the data of src/DiscordBotClient.h and src/FileLoader.h, the constructors of `GuildInfo`.
--   Task: the client's state and the monad of a thread in a method; Task/Endings: how a method ends.
--   Messages: `SendBotMessage`, its callback, `DeleteMessage`.
--   Queue: `!skip`, `!repeat`, `!random`, `!remove`, `!list`.
--   Voice: `OnVoiceStateUpdate`, `EnsureVoiceSeeded`, `ObserveVoice`, `ResetVoiceTracking`,
--     `CheckVoiceChannels`.
--   Connection: `!join`, `!leave`, `StartAudioThread`, `StopAudioThread`, `EnsureGuildInfo`,
--     `LeaveVoice`, the destructor of `GuildInfo`.
--   Json: the interface of nlohmann::json. FileLoader: `UrlEncode`, `RequestServer`,
--     `ParseVideoDbInfo`, `GetAudioStream`, `CloseAudioStream`, `Cleanup`.
--   Requests: `!play`, `!first`, `!omakase`, `!delete`; Requests/Responses: the callbacks.
--   Player: `PlayAudioThread`. Clean: `!clean`. Command: `on_message_create`, `HandleCommand`.
--   Crash: src/CrashHandler.cpp, the handler as the list of its calls, with other signals between any
--   two of them. Startup: `main` and src/JsonReader.h.
--   System: the constructor's registrations, the callbacks and the threads as events of the client,
--     and the states that they come to, from an empty bot on. System/Rules has the rules for the ways
--     to build a method, System/Methods takes every method apart by them, and System/Invariant,
--     System/Progress and System/Blind are what they are used for. System/Playback follows a song from
--     a message to its last frame; System/Passes has sequences of passes of the check, by which
--     System/Departure follows the bot out of an empty channel, and System/Company keeps it in one that
--     somebody is in.
--   Threads: the threads that join, leave and play in one guild, cut into the blocks between which
--     the others may run.
--   The children of a component are named for what they prove; those named Tests hold its witnesses,
--   on the data of Sample and with the JSON of Sample/Values.
--
-- How the state corresponds. `Bot` is the client's maps, a `Task` a thread in one of its methods: the
-- mutexes that it holds, the bot, the calls that it made (the latest first) and what dpp will answer
-- to its questions. A method is a function from a task to an outcome: a return, an exception, a
-- deadlock (a mutex locked twice by one thread, or a join under the mutex that the joined thread
-- needs) or a fault (the use of an erased entry). `lock_guard` is `with_lock`, `try` is `catch`, a
-- pointer to an entry is the guild's number and its use is `deref`. A message's shard, channel and
-- guild are plain numbers, times are nanoseconds of the steady clock, a file is its length.
--
-- Parameters. dpp, Discord and the clock (`Dpp`, which may answer otherwise at every question),
-- nlohmann::json (`JsonLib`), the random numbers of `!random`, the files, the run of the client, and,
-- for the player, what other threads have done to the bot whenever it looks.
--
-- Bounds and fuel. `static_cast<int>` of a list's size is the two's complement; where a theorem needs
-- it to be exact it asks for a size up to the largest `int`. The lead of the player is kept modulo
-- 2 ^ 32. The loop over a file's frames runs on fuel, two rounds more than the file has frames, and
-- the wait for a frame on 1340 polls. A poll sleeps for 50 milliseconds and the wait ends after 20
-- seconds; since the clock is a parameter, what a sleep does to it is a hypothesis: it gains 50
-- milliseconds in any ten questions of the thread, of which a poll asks three. Both are shown to be
-- enough. The loop of `!clean` has a round for each message, more
-- than it needs. `while (true)` of the player is modelled by its round and by a
-- number of rounds.
--
-- Interleaving. A step of System is one method, run to its end; a method that deadlocks makes no
-- step. Threads cuts `LeaveVoice`, `HandleJoinCommand` and `PlayAudioThread` where they give up
-- `guildInfosMutex`, wait in `join` or use their pointer to the entry, and keeps of the entry what
-- these share: `shouldStop`, the thread that `audioThread` holds, and a number for the object.
--
-- Not modelled. Log output, the set-up of the console, and the local server, which is a program of
-- its own. `on_ready`, which only logs, and the threads that dpp runs are left to the order of the
-- events. The commands on the play list are not cut into blocks, but for `!remove`, which has other
-- threads between its two locks; the player has other threads between any two of its steps, and
-- dpp's answers may differ from one question to the next.
mod Base
pub mod Dict
pub mod Text
pub mod Guild
pub mod Task
pub mod Messages
pub mod Queue
pub mod Voice
pub mod Connection
pub mod Json
pub mod FileLoader
pub mod Requests
pub mod Player
pub mod Clean
pub mod Command
pub mod Crash
pub mod Startup
pub mod System
pub mod Threads
pub mod Sample
