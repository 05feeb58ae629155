-- ===== src/Player/Rounds.antt =====
-- A round of the player: the next song leaves the play list, is sent, and is kept if it is repeated.
use dpp_bot.Base.{
  ℕ, suc, ◌+◌, ◌-◌, ◌*◌, ◌/◌, ◌%◌, ◌<◌, ◌≤◌, ◌≡◌, true, false, Option, some, List, [], ◌∷◌, arith,
  int_mod, if◌then◌else◌, is_empty, subst, sym, ◌∙◌,
}
use dpp_bot.Text.{Text}
use dpp_bot.Dict.{find}
use dpp_bot.Dict.Laws.{find-update}
use dpp_bot.Guild.{GuildInfo, VideoDbInfo, no_video}
use dpp_bot.Task.{Task, Bot, returns, on_info, open_stream}
use dpp_bot.FileLoader.{get_audio_stream, close_audio_stream, cleanup}
use dpp_bot.Task.Endings.{Returns}
use dpp_bot.Player.{
  own_shard, ended, Round, goes_on, frame_size, play_song, play_round, take_front, next_song,
  close_song, finish_song, drain, with_shard, play_next, look_up,
}
use dpp_bot.Player.Playing.{audio, opened_paths, Calm, moved-Calm, play_frames_whole}

-- The thread goes on, the song is the current one only if it is repeated, `sent` bytes went out, and
-- `paths` are the files that were opened, the latest first.
abbrev pub Closed : ℕ → GuildInfo → ℕ → List Text → Task → Round → Task → Type 0
Closed guild info sent paths t r u =
    (r ≡ goes_on)
    × (find guild u.bot.guild_infos
        ≡ some (if info.repeat_current then info else record info { current_play = no_video }))
    × (audio u.log ≡ audio t.log + sent)
    × (opened_paths u.log ≡ paths)
    × (u.env ≡ t.env)

module _ (files : Text → Option ℕ) (others : ℕ → Bot → Bot) (polls fuel guild : ℕ) where
  close_song_calm :
      (wait polls_left : ℕ) (path : Text) (t : Task) (info : GuildInfo)
      → ((n : ℕ) (b : Bot) → others n b ≡ b)
      → find guild t.bot.guild_infos ≡ some info
      → info.should_stop ≡ false
      → t.held ≡ []
      → Returns
          (Closed guild info 0 (opened_paths t.log) t)
          (close_song files others polls_left fuel guild path (ended true wait) t)
  unfolding close_song finish_song drain close_audio_stream cleanup
  close_song_calm wait polls_left path t info alone known go h = ground (
    arith,
    alone t.tick t.bot,
    alone (suc t.tick) t.bot,
    alone (suc (suc t.tick)) t.bot,
    known,
    go,
    find-update guild guild (λ (i : GuildInfo). record i { current_play = no_video })
        t.bot.guild_infos,
  )

  play_song_calm :
      (shard size : ℕ) (path : Text) (t : Task) (c : Calm others guild shard t)
      → t.held ≡ []
      → files path ≡ some size
      → size + frame_size ≤ frame_size * fuel
      → 2 * ((size + 11519) / frame_size) < int_mod
      → Returns
          (Closed guild c.info (size - size % 2) (path ∷ opened_paths t.log) t)
          (play_song files others (suc polls) fuel guild shard path t)
  unfolding play_song get_audio_stream
  play_song_calm shard size path t c h f enough small =
      let opened = open_stream path ∷ t.log in
      let p =
        play_frames_whole others guild shard polls fuel size (record t { log = opened })
          (moved-Calm others guild shard t opened t.tick c) enough small in
      let wait = 2 * ((size + 11519) / frame_size) in
      ground (
        arith,
        close_song_calm wait (suc polls) path p.0 c.info c.alone
            (subst (λ (b : Bot). find guild b.guild_infos ≡ some c.info) (sym p.5) c.known)
            c.not_stopped (p.6 ∙ h),
      )

  -- The task behind the choice of the song.
  abbrev chosen : VideoDbInfo → List VideoDbInfo → Task → Task
  chosen video rest t = record t {
    bot = on_info guild (take_front video rest) t.bot;
    tick = suc (suc (suc (suc t.tick)));
  }

  chosen-Calm :
      (shard : ℕ) (video : VideoDbInfo) (rest : List VideoDbInfo) (t : Task)
      (c : Calm others guild shard t)
      → Calm others guild shard (chosen video rest t)
  chosen-Calm shard video rest t c = record {
    info = take_front video rest c.info;
    alone = c.alone;
    known =
        ground (arith, c.known, find-update guild guild (take_front video rest) t.bot.guild_infos);
    not_stopped = c.not_stopped;
    not_skipped = c.not_skipped;
    open_voice = c.open_voice;
    no_exception = c.no_exception;
  }

  abbrev moved :
      {shard : ℕ} {t : Task}
      → Calm others guild shard t
      → (tick : ℕ) → Calm others guild shard (record t { tick = tick })
  moved {shard} {t} c tick = moved-Calm others guild shard t t.log tick c

  look_up_calm :
      (shard : ℕ) (t : Task) (c : Calm others guild shard t)
      → t.held ≡ []
      → c.info.shard_id ≡ shard
      → look_up files others (suc polls) fuel guild t ≡ returns true t
  unfolding look_up
  look_up_calm shard t c h own = ground (arith, c.known, c.not_stopped)

  own_shard_calm :
      (shard : ℕ) (t : Task) (c : Calm others guild shard t)
      → c.info.shard_id ≡ shard
      → own_shard files others (suc polls) fuel guild true t
        ≡ returns (some shard) (record t { tick = suc t.tick })
  unfolding own_shard
  own_shard_calm shard t c own = ground (arith, c.alone t.tick t.bot, c.known)

  next_song_calm :
      (shard : ℕ) (video : VideoDbInfo) (rest : List VideoDbInfo) (t : Task)
      (c : Calm others guild shard t)
      → t.held ≡ []
      → c.info.current_play.file_path ≡ []
      → c.info.video_lists ≡ video ∷ rest
      → next_song files others (suc polls) fuel guild t
        ≡ returns
            (some video.file_path)
            (record t { bot = on_info guild (take_front video rest) t.bot })
  unfolding next_song
  next_song_calm shard video rest t c h current list = ground (arith, c.known, c.not_stopped)

  play_round_shard :
      (shard : ℕ) (t : Task) (c : Calm others guild shard t)
      → t.held ≡ []
      → c.info.shard_id ≡ shard
      → play_round files others (suc polls) fuel guild t
        ≡ with_shard files others
            (suc polls)
            fuel
            guild
            (some shard)
            (record t { tick = suc (suc t.tick) })
  unfolding play_round
  play_round_shard shard t c h own = ground (
    arith,
    c.alone t.tick t.bot,
    look_up_calm shard (record t { tick = suc t.tick }) (moved c (suc t.tick)) h own,
    own_shard_calm shard (record t { tick = suc t.tick }) (moved c (suc t.tick)) own,
  )

  with_shard_song :
      (shard : ℕ) (video : VideoDbInfo) (rest : List VideoDbInfo) (t : Task)
      (c : Calm others guild shard t)
      → t.held ≡ []
      → c.info.current_play.file_path ≡ []
      → c.info.video_lists ≡ video ∷ rest
      → is_empty video.file_path ≡ false
      → with_shard files others (suc polls) fuel guild (some shard) t
        ≡ play_song files others (suc polls) fuel guild shard video.file_path (record t {
          bot = on_info guild (take_front video rest) t.bot;
          tick = suc (suc t.tick);
        })
  unfolding with_shard play_next
  with_shard_song shard video rest t c h current list name = ground (
    arith,
    c.alone (suc t.tick) t.bot,
    c.open_voice t.tick,
    next_song_calm shard video rest (record t { tick = suc (suc t.tick) })
        (moved c (suc (suc t.tick))) h current list,
  )

  -- A round of the player that nothing disturbs, with no current song and a play list that is not
  -- empty, whose first song has a file that can be opened, with fuel for it and a lead that fits the
  -- counter: the first entry leaves the list and becomes the current song, every byte of its file is
  -- sent, but for an odd last one, and the thread goes on, with all locks released. At the end it is
  -- still the current song if the guild repeats, so that the next round plays it again, and otherwise
  -- there is no current song.
  pub play_round_lem :
      (shard size : ℕ) (video : VideoDbInfo) (rest : List VideoDbInfo) (t : Task)
      (c : Calm others guild shard t)
      → t.held ≡ []
      → c.info.shard_id ≡ shard
      → c.info.current_play.file_path ≡ []
      → c.info.video_lists ≡ video ∷ rest
      → is_empty video.file_path ≡ false
      → files video.file_path ≡ some size
      → size + frame_size ≤ frame_size * fuel
      → 2 * ((size + 11519) / frame_size) < int_mod
      → Returns
          (Closed guild
            (take_front video rest c.info)
            (size - size % 2)
            (video.file_path ∷ opened_paths t.log)
            t)
          (play_round files others (suc polls) fuel guild t)
  unfolding chosen-Calm
  play_round_lem shard size video rest t c h own current list name f enough small =
      rw
        (
          play_round_shard shard t c h own,
          with_shard_song shard video rest (record t { tick = suc (suc t.tick) })
              (moved c (suc (suc t.tick))) h current list name,
        )
        (play_song_calm shard size video.file_path (chosen video rest t)
          (chosen-Calm shard video rest t c) h f enough small)
