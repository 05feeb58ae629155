-- ===== src/Player/Playing.antt =====
-- A song that nothing disturbs is sent whole.
use Prim.Native.Nat.{min}
use dpp_bot.Base.{
  ℕ, zero, suc, ◌+◌, ◌-◌, ◌*◌, ◌/◌, ◌%◌, ◌<◌, ◌≤◌, ◌≡◌, refl, true, false, some, List, [], ◌∷◌,
  arith, int_mod, ap, ◌∙◌,
}
use dpp_bot.Text.{Text}
use dpp_bot.Dict.{find}
use dpp_bot.Guild.{GuildInfo}
use dpp_bot.Task.{Task, Bot, Call, Outcome, returns, send_audio_raw, open_stream, sleep}
use dpp_bot.Player.{
  can_send, sent, Song, ended, send_frame, play_frames, frame_size, whole_samples, lead,
  send_interval_ms,
}

-- The bytes of audio in a log.
abbrev pub audio : List Call → ℕ
audio [] = 0
audio (send_audio_raw guild bytes ∷ log) = bytes + audio log
audio (_ ∷ log) = audio log

-- The files that a log opens, the latest first.
abbrev pub opened_paths : List Call → List Text
opened_paths [] = []
opened_paths (open_stream path ∷ log) = path ∷ opened_paths log
opened_paths (_ ∷ log) = opened_paths log

-- Nothing disturbs the song: other threads leave the bot alone, the guild's flags are not set, and
-- the voice client can be sent to, without exceptions.
pub record Calm (others : ℕ → Bot → Bot) (guild shard : ℕ) (t : Task) : Type 0 where
  pub info : GuildInfo
  pub alone : (n : ℕ) (b : Bot) → others n b ≡ b
  pub known : find guild t.bot.guild_infos ≡ some info
  pub not_stopped : info.should_stop ≡ false
  pub not_skipped : info.skip_requested ≡ false
  pub open_voice : (n : ℕ) → can_send shard guild (t.env n) ≡ true
  pub no_exception : (n : ℕ) → (t.env n).send_fails ≡ false

pub whole_samples_lem : (n : ℕ) → whole_samples n ≡ n - n % 2
whole_samples_lem n = ground arith

lead_exact : (wait : ℕ) → wait + 2 < int_mod → lead false wait ≡ wait + 2
lead_exact wait h = omega arith

module _ (others : ℕ → Bot → Bot) (guild shard : ℕ) where
  send_frame_calm :
      (fuel bytes start : ℕ) (t : Task)
      → Calm others guild shard t
      → send_frame others guild shard (suc fuel) bytes start false t
        ≡ returns
            (sent false)
            (record t { log = send_audio_raw guild bytes ∷ t.log; tick = suc (suc t.tick) })
  unfolding send_frame
  send_frame_calm fuel bytes start t c = ground (
    arith,
    c.alone t.tick t.bot,
    c.known,
    c.not_stopped,
    c.not_skipped,
    c.open_voice (suc t.tick),
    c.no_exception (suc t.tick),
  )

  -- The task behind a frame that was sent at once.
  abbrev framed : ℕ → Task → Task
  framed bytes t = record t {
    log = sleep send_interval_ms ∷ send_audio_raw guild bytes ∷ t.log;
    tick = suc (suc (suc (suc t.tick)));
  }

  abbrev pub moved-Calm :
      (t : Task) (log : List Call) (tick : ℕ)
      → Calm others guild shard t
      → Calm others guild shard (record t { log = log; tick = tick })
  moved-Calm t log tick c = record {
    info = c.info;
    alone = c.alone;
    known = c.known;
    not_stopped = c.not_stopped;
    not_skipped = c.not_skipped;
    open_voice = c.open_voice;
    no_exception = c.no_exception;
  }

  play_frames_step :
      (polls fuel remaining wait : ℕ) (t : Task)
      → Calm others guild shard t
      → 0 < remaining
      → play_frames others guild shard (suc polls) (suc fuel) remaining wait t
        ≡ play_frames others guild shard
            (suc polls)
            fuel
            (remaining - min frame_size remaining)
            (lead false wait)
            (framed (whole_samples (min frame_size remaining)) t)
  unfolding play_frames
  play_frames_step polls fuel remaining wait t c pos =
      let bytes = whole_samples (min frame_size remaining) in
      let start = (t.env (suc t.tick)).now in
      ground (
        arith,
        c.alone t.tick t.bot,
        c.known,
        c.not_stopped,
        c.not_skipped,
        send_frame_calm polls bytes start (record t { tick = suc (suc t.tick) })
            (moved-Calm t t.log (suc (suc t.tick)) c),
      )

  play_frames_end :
      (polls fuel wait : ℕ) (t : Task)
      → Calm others guild shard t
      → play_frames others guild shard polls (suc fuel) 0 wait t
        ≡ returns (ended true wait) (record t { tick = suc t.tick })
  unfolding play_frames
  play_frames_end polls fuel wait t c =
      ground (arith, c.alone t.tick t.bot, c.known, c.not_stopped, c.not_skipped)

  -- The song was played to its end: `wait` milliseconds are ahead, `bytes` more bytes of audio went
  -- out, and the bot is as it was.
  record Played (run : Outcome Song) (wait bytes : ℕ) (t : Task) : Type 0 where
    after : Task
    ran : run ≡ returns (ended true wait) after
    sent_all : audio after.log ≡ audio t.log + bytes
    paths_kept : opened_paths after.log ≡ opened_paths t.log
    env_kept : after.env ≡ t.env
    bot_kept : after.bot ≡ t.bot
    held_kept : after.held ≡ t.held

  Played-frame :
      (polls fuel remaining wait : ℕ) (t : Task)
      → Calm others guild shard t
      → 0 < remaining
      → wait + 2 < int_mod
      → Played
          (play_frames others guild shard
            (suc polls)
            fuel
            (remaining - min frame_size remaining)
            (wait + 2)
            (framed (whole_samples (min frame_size remaining)) t))
          (wait + 2 + 2 * ((remaining - min frame_size remaining + 11519) / frame_size))
          (remaining - min frame_size remaining - (remaining - min frame_size remaining) % 2)
          (framed (whole_samples (min frame_size remaining)) t)
      → Played
          (play_frames others guild shard (suc polls) (suc fuel) remaining wait t)
          (wait + 2 * ((remaining + 11519) / frame_size))
          (remaining - remaining % 2)
          t
  Played-frame polls fuel remaining wait t c pos small p = record {
    after = p.after;
    ran =
        play_frames_step polls fuel remaining wait t c pos
        ∙ ap (λ (w : ℕ). play_frames others guild shard (suc polls) fuel (remaining - bytes) w u)
            (lead_exact wait small)
        ∙ p.ran
        ∙ ap (λ (w : ℕ). returns (ended true w) p.after) (omega arith);
    sent_all = omega (arith, p.sent_all, whole_samples_lem bytes);
    paths_kept = p.paths_kept;
    env_kept = p.env_kept;
    bot_kept = p.bot_kept;
    held_kept = p.held_kept;
  }
    where
      bytes : ℕ
      bytes = min frame_size remaining

      u : Task
      u = framed (whole_samples bytes) t

  played :
      (polls fuel remaining wait : ℕ) (t : Task)
      → Calm others guild shard t
      → remaining + frame_size ≤ frame_size * fuel
      → wait + 2 * ((remaining + 11519) / frame_size) < int_mod
      → Played
          (play_frames others guild shard (suc polls) fuel remaining wait t)
          (wait + 2 * ((remaining + 11519) / frame_size))
          (remaining - remaining % 2)
          t
  played polls zero remaining wait t c enough small = absurd (omega arith)
  played polls (suc fuel) zero wait t c enough small = record {
    after = record t { tick = suc t.tick };
    ran =
        play_frames_end (suc polls) fuel wait t c
        ∙ ap (λ (w : ℕ). returns (ended true w) (record t { tick = suc t.tick })) (omega arith);
    sent_all = omega arith;
    paths_kept = refl;
    env_kept = refl;
    bot_kept = refl;
    held_kept = refl;
  }
  played polls (suc fuel) (suc k) wait t c enough small =
      let remaining = suc k in
      let u = framed (whole_samples (min frame_size remaining)) t in
      Played-frame polls fuel remaining wait t c (omega arith) (omega arith) (
        played polls fuel (remaining - min frame_size remaining) (wait + 2) u
          (moved-Calm t u.log u.tick c) (omega arith) (omega arith))

  -- A song that nothing disturbs is played to its natural end: every byte of the file is sent, but
  -- for an odd last one, two milliseconds per frame are still ahead of the listeners then, and the
  -- bot and the locks are as they were. The fuel is a frame more than the file has.
  pub play_frames_whole :
      (polls fuel size : ℕ) (t : Task)
      → Calm others guild shard t
      → size + frame_size ≤ frame_size * fuel
      → 2 * ((size + 11519) / frame_size) < int_mod
      → (u : Task) × (play_frames others guild shard (suc polls) fuel size 0 t
          ≡ returns (ended true (2 * ((size + 11519) / frame_size))) u)
        × (audio u.log ≡ audio t.log + (size - size % 2))
        × (opened_paths u.log ≡ opened_paths t.log)
        × (u.env ≡ t.env)
        × (u.bot ≡ t.bot)
        × (u.held ≡ t.held)
  play_frames_whole polls fuel size t c enough small =
      let p = played polls fuel size 0 t c enough (omega arith) in
      (
        p.after,
        p.ran ∙ ap (λ (w : ℕ). returns (ended true w) p.after) (omega arith),
        p.sent_all,
        p.paths_kept,
        p.env_kept,
        p.bot_kept,
        p.held_kept,
      )
