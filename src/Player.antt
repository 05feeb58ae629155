-- ===== src/Player.antt =====
-- `PlayAudioThread` (src/DiscordBotClient.cpp), with `IsVoiceClientSafeToSend`.
-- Other threads run at every point where this one reads a flag or takes a lock: `others` says what
-- they have done to the bot by then. A file is the number of its bytes, since the loop looks at no
-- byte; `fread` gives a whole frame as long as there is one.
pub mod Playing
pub mod Disturbed
pub mod Rounds
pub mod Songs
pub mod Upcoming
pub mod Unsent
pub mod Skipping
pub mod Recovering
pub mod Staying
pub mod Finishing
pub mod Safety
pub mod Lasting
mod Tests
use Prim.Native.Nat.{min}
use dpp_bot.Base.{
  ℕ, zero, suc, ◌+◌, ◌-◌, ◌*◌, ◌%◌, Bool, true, false, not, ◌&&◌, ◌||◌, Option, none, some, List,
  [], ◌∷◌, ◌==◌, ltb, if◌then◌else◌, is_empty, int_mod,
}
use dpp_bot.Text.{Text}
use dpp_bot.Dict.{find}
use dpp_bot.Guild.{GuildInfo, VideoDbInfo, no_video, seconds}
use dpp_bot.Task.{
  M, Task, Bot, Dpp, VoiceConn, VoiceClient, Shard, returns, ◌>>=◌, ◌>>◌, done, return, when,
  with_lock, call, observe, find_info, modify_info, deref, guild_infos_mutex, list_mutex,
  send_audio_raw, send_silence, connect_voice, sleep,
}
use dpp_bot.Connection.{voice_of}
use dpp_bot.FileLoader.{get_audio_stream, close_audio_stream, cleanup}

abbrev pub frame_size : ℕ
frame_size = 11520

abbrev pub silence_duration_ms : ℕ
silence_duration_ms = 20

abbrev pub frame_duration_ms : ℕ
frame_duration_ms = 60

abbrev pub send_interval_ms : ℕ
send_interval_ms = 58

abbrev pub lead_per_frame_ms : ℕ
lead_per_frame_ms = frame_duration_ms - send_interval_ms

-- `(vconn && vconn->voiceclient) ? vconn->voiceclient.get() : nullptr`.
abbrev pub client_of : Option VoiceConn → Option VoiceClient
client_of none = none
client_of (some vconn) = vconn.voiceclient

unfoldable pub is_voice_client_safe_to_send : Option VoiceClient → Bool
is_voice_client_safe_to_send none = false
is_voice_client_safe_to_send (some v) = v.is_connected && (v.is_ready && not v.terminating)

-- Whether the guild's voice client, looked up anew, may be sent to.
abbrev pub can_send : ℕ → ℕ → Dpp → Bool
can_send shard guild d =
    is_voice_client_safe_to_send (client_of (voice_of (d.get_shard shard) guild))

-- What becomes of a frame, and of a song: `sent` tells whether it had to wait, `ended` whether the
-- file was played to its end and how much audio is still ahead, in milliseconds. `starved` and
-- `unfinished` mean that the fuel ran out.
pub data Frame : Type 0 where
  sent : (waited : Bool) → Frame
  interrupted gave_up starved : Frame

pub data Song : Type 0 where
  ended : (naturally : Bool) → (wait_time : ℕ) → Song
  unfinished : Song

pub data Round : Type 0 where
  exits goes_on starves : Round

abbrev pub clear_skip : GuildInfo → GuildInfo
clear_skip info = record info { skip_requested = false }

abbrev pub clear_current : GuildInfo → GuildInfo
clear_current info = record info { current_play = no_video }

abbrev pub attempted_at : ℕ → GuildInfo → GuildInfo
attempted_at now info = record info { last_reconnect_attempt = now }

-- `currentPlay = videoLists.front()`, which then leaves the play list.
abbrev pub take_front : VideoDbInfo → List VideoDbInfo → GuildInfo → GuildInfo
take_front video rest info = record info { current_play = video; video_lists = rest }

-- `if (bytesRead % 2 != 0) bytesRead--`.
abbrev pub whole_samples : ℕ → ℕ
whole_samples n = if n % 2 == 0 then n else n - 1

-- `waitTime += LEAD_PER_FRAME_MS` of a `uint32_t`.
abbrev pub lead : Bool → ℕ → ℕ
lead waited wait_time = ((if waited then 0 else wait_time) + lead_per_frame_ms) % int_mod

-- Other threads take their turn.
abbrev pub yield_to : (ℕ → Bot → Bot) → M (Unit {0})
yield_to others t = returns tt (record t { bot = others t.tick t.bot; tick = suc t.tick })

-- No other thread moves.
abbrev pub alone : ℕ → Bot → Bot
alone n b = b

module _ (others : ℕ → Bot → Bot) (guild shard : ℕ) where
  -- The loop `while (!sent)`, which began at the time `wait_start`.
  unfoldable pub send_frame : ℕ → ℕ → ℕ → Bool → M Frame
  send_frame zero bytes wait_start waited = return starved
  send_frame (suc fuel) bytes wait_start waited =
      let again = send_frame fuel bytes wait_start true in
      do
        yield_to others
        info ← deref guild
        if info.should_stop || info.skip_requested then return interrupted else (do
          d ← observe
          if can_send shard guild d
              then (do
                call (send_audio_raw guild bytes)
                return (if d.send_fails then gave_up else sent waited))
              else (do
                later ← observe
                if ltb (seconds 20) (later.now - wait_start)
                    then return gave_up
                    else (do call (sleep 50); again)))

  unfoldable pub reset_skip : M (Unit {0})
  reset_skip =
      with_lock guild_infos_mutex
        do it ← find_info guild; elim it [ none ↦ done | some info ↦ modify_info guild clear_skip ]

  -- What follows an attempt to send a frame; `next` goes on with the loop.
  unfoldable pub after_frame : (ℕ → M Song) → ℕ → Frame → M Song
  after_frame next wait_time (sent waited) = do
    call (sleep send_interval_ms)
    next (lead waited wait_time)
  after_frame next wait_time interrupted = next wait_time
  after_frame next wait_time gave_up = return (ended false 0)
  after_frame next wait_time starved = return unfinished

  -- The loop over the frames, with what is left of the file; `polls` is the fuel of each frame.
  unfoldable pub play_frames : ℕ → ℕ → ℕ → ℕ → M Song
  unfolding after_frame reset_skip
  play_frames polls zero remaining wait_time = return unfinished
  play_frames polls (suc fuel) remaining wait_time =
      let bytes = min frame_size remaining in
      let next = play_frames polls fuel (remaining - bytes) in
      do
        yield_to others
        info ← deref guild
        if info.should_stop
            then return (ended false wait_time)
            else if info.skip_requested
            then (do yield_to others; reset_skip; return (ended false wait_time))
            else if bytes == 0
            then return (ended true wait_time)
            else (do
              d ← observe
              frame ← send_frame polls (whole_samples bytes) d.now false
              after_frame next wait_time frame)

module _ (files : Text → Option ℕ) (others : ℕ → Bot → Bot) (polls fuel guild : ℕ) where
  -- The end of a song: what is still ahead is waited for, unless the thread is to stop.
  unfoldable pub drain : Song → M (Unit {0})
  drain (ended naturally wait_time) = do
    yield_to others
    info ← deref guild
    when (not info.should_stop) (call (sleep wait_time))
  drain unfinished = done

  -- A song that came to its natural end in repeat mode stays the current one.
  unfoldable pub is_repeated : Bool → M Bool
  is_repeated false = return false
  is_repeated true = do yield_to others; info ← deref guild; return info.repeat_current

  unfoldable pub finish_song : Bool → M (Unit {0})
  unfolding is_repeated
  finish_song naturally = do
    should_repeat ← is_repeated naturally
    when (not should_repeat) do
      yield_to others
      with_lock guild_infos_mutex do
        it ← find_info guild
        elim it [ none ↦ done | some i ↦ modify_info guild clear_current ]

  unfoldable pub close_song : Text → Song → M Round
  unfolding finish_song drain close_audio_stream cleanup
  close_song path (ended naturally wait_time) = do
    drain (ended naturally wait_time)
    close_audio_stream path
    cleanup path
    finish_song naturally
    return goes_on
  close_song path unfinished = return starves

  unfoldable pub play_song : ℕ → Text → M Round
  unfolding close_song finish_song get_audio_stream
  play_song shard path = do
    pipe ← get_audio_stream files path
    elim pipe [
      | none ↦ do finish_song false; return goes_on
      | some size ↦ do song ← play_frames others guild shard polls fuel size 0; close_song path song
    ]

  -- Without a connection, it is asked for again if the last attempt, or the entry's creation, is more
  -- than five seconds ago.
  unfoldable pub reconnect : Option Shard → M (Unit {0})
  reconnect none = done
  reconnect (some s) = do
    yield_to others
    info ← deref guild
    d ← observe
    when (not (info.voice_channel_id == 0) && ltb (seconds 5) (d.now - info.last_reconnect_attempt))
        do modify_info guild (attempted_at d.now); call (connect_voice guild info.voice_channel_id)

  -- The song to play, taken from the play list if there is none; `none` if the thread is to exit.
  unfoldable pub next_song : M (Option Text)
  next_song = with_lock guild_infos_mutex do
    it ← find_info guild
    elim it [
      | none ↦ return none
      | some info ↦
          if info.should_stop
          then return none
          else if is_empty info.current_play.file_path
          then with_lock (list_mutex guild) (elim info.video_lists [
            | [] ↦ return (some [])
            | video ∷ rest ↦ do
              modify_info guild (take_front video rest)
              return (some video.file_path)
          ])
          else return (some info.current_play.file_path)
    ]

  -- The client that the round looked up: what it says of itself now is in the next of dpp's answers.
  unfoldable pub idle : ℕ → M Round
  idle shard = do
    d ← observe
    when (can_send shard guild d) (call (send_silence guild silence_duration_ms))
    call (sleep silence_duration_ms)
    return goes_on

  unfoldable pub play_next : ℕ → Option Text → M Round
  unfolding idle
  play_next shard none = return exits
  play_next shard (some path) = if is_empty path then idle shard else play_song shard path

  -- Whether the guild is there and the thread is not to exit.
  unfoldable pub look_up : M Bool
  look_up = with_lock guild_infos_mutex do
    it ← find_info guild
    elim it [ none ↦ return false | some info ↦ return (not info.should_stop) ]

  -- The guild's shard, read through the pointer once the mutex is released.
  unfoldable pub own_shard : Bool → M (Option ℕ)
  own_shard false = return none
  own_shard true = do yield_to others; info ← deref guild; return (some info.shard_id)

  unfoldable pub with_shard : Option ℕ → M Round
  unfolding play_next reconnect next_song play_song
  with_shard none = return exits
  with_shard (some shard) = do
    d ← observe
    if can_send shard guild d
        then (do yield_to others; path ← next_song; play_next shard path)
        else (do reconnect (d.get_shard shard); call (sleep 100); return goes_on)

  -- One round of `while (true)`.
  unfoldable pub play_round : M Round
  unfolding look_up own_shard with_shard
  play_round = do yield_to others; going ← look_up; shard ← own_shard going; with_shard shard

  -- `PlayAudioThread`, for a number of rounds.
  unfoldable pub play_audio_thread : ℕ → M Round
  unfolding play_round
  play_audio_thread zero = return goes_on
  play_audio_thread (suc rounds) =
      let rest = play_audio_thread rounds in
      do
        round ← play_round
        elim round [ exits ↦ return exits | goes_on ↦ rest | starves ↦ return starves ]
