-- ===== src/System/Methods/Playing.antt =====
-- A round of the audio thread, while it runs alone.
use dpp_bot.Base.{
  true, false, ℕ, zero, suc, Bool, Option, none, some, List, [], ◌∷◌, is_empty, if◌then◌else◌,
}
use dpp_bot.Text.{Text}
use dpp_bot.Guild.{GuildInfo, VideoDbInfo}
use dpp_bot.Task.{
  M, open_stream, call, ◌>>◌, Shard, ◌>>◌, return, with_lock, list_mutex, modify_info,
}
use dpp_bot.FileLoader.{get_audio_stream, close_audio_stream, cleanup}
use dpp_bot.Player.{
  is_repeated, own_shard, Frame, sent, interrupted, gave_up, starved, Song, ended, unfinished,
  send_frame, reset_skip, after_frame, play_frames, drain, finish_song, close_song, play_song,
  reconnect, alone, next_song, idle, play_next, look_up, with_shard, play_round, take_front,
}
use dpp_bot.System.Rules.{Rules, Holds, Holds-return, Holds-lock, Holds-if, rules}
use dpp_bot.Task.{M}

module _ (guild shard : ℕ) {P : (A : Type 0) → M A → Type 0} {r : Rules P} where
  send_frame-Holds :
      (fuel bytes wait_start : ℕ) (waited : Bool)
      → Holds r (send_frame alone guild shard fuel bytes wait_start waited)
  unfolding send_frame
  send_frame-Holds zero bytes wait_start waited = search rules
  send_frame-Holds (suc fuel) bytes wait_start waited =
      search (rules, send_frame-Holds fuel bytes wait_start) depth 12

  reset_skip-Holds : Holds r (reset_skip alone guild shard)
  unfolding reset_skip
  reset_skip-Holds = search rules

  after_frame-Holds :
      (next : ℕ → M Song) (wait_time : ℕ) (frame : Frame)
      → ((w : ℕ) → Holds r (next w))
      → Holds r (after_frame alone guild shard next wait_time frame)
  unfolding after_frame
  after_frame-Holds next wait_time (sent waited) n = search (rules, n)
  after_frame-Holds next wait_time interrupted n = n wait_time
  after_frame-Holds next wait_time gave_up n = search rules
  after_frame-Holds next wait_time starved n = search rules

  play_frames-Holds :
      (polls fuel remaining wait_time : ℕ)
      → Holds r (play_frames alone guild shard polls fuel remaining wait_time)
  unfolding play_frames
  play_frames-Holds polls zero remaining wait_time = search rules
  play_frames-Holds polls (suc fuel) remaining wait_time =
      search
        (rules, send_frame-Holds, reset_skip-Holds, after_frame-Holds, play_frames-Holds polls fuel)
        depth 14

module _ (files : Text → Option ℕ) (polls fuel guild : ℕ) {P : (A : Type 0) → M A → Type 0}
    {r : Rules P} where
  drain-Holds : (song : Song) → Holds r (drain files alone polls fuel guild song)
  unfolding drain
  drain-Holds (ended naturally wait_time) = search rules
  drain-Holds unfinished = search rules

  is_repeated-Holds :
      (naturally : Bool) → Holds r (is_repeated files alone polls fuel guild naturally)
  unfolding is_repeated
  is_repeated-Holds false = search rules
  is_repeated-Holds true = search rules

  finish_song-Holds :
      (naturally : Bool) → Holds r (finish_song files alone polls fuel guild naturally)
  unfolding finish_song
  finish_song-Holds naturally = search (rules, is_repeated-Holds) depth 12

  close_song-Holds :
      (path : Text) (song : Song) → Holds r (close_song files alone polls fuel guild path song)
  unfolding close_song close_audio_stream cleanup
  close_song-Holds path (ended naturally wait_time) =
      search (rules, drain-Holds, finish_song-Holds) depth 12
  close_song-Holds path unfinished = search rules

  reconnect-Holds : (o : Option Shard) → Holds r (reconnect files alone polls fuel guild o)
  unfolding reconnect
  reconnect-Holds none = search rules
  reconnect-Holds (some s) = search rules depth 12

  idle-Holds : (shard : ℕ) → Holds r (idle files alone polls fuel guild shard)
  unfolding idle
  idle-Holds shard = search rules

  look_up-Holds : Holds r (look_up files alone polls fuel guild)
  unfolding look_up
  look_up-Holds = search rules

  own_shard-Holds : (going : Bool) → Holds r (own_shard files alone polls fuel guild going)
  unfolding own_shard
  own_shard-Holds false = search rules
  own_shard-Holds true = search rules

  -- The first song leaves the play list.
  take_song-Holds :
      (videos : List VideoDbInfo)
      → Holds r (elim videos as (λ x. M (Option Text)) [
        | [] ↦ return (some [])
        | video ∷ rest ↦ do modify_info guild (take_front video rest); return (some video.file_path)
      ])
  take_song-Holds [] = search rules
  take_song-Holds (video ∷ rest) = search rules

  chosen-Holds :
      (info : GuildInfo)
      → Holds r (
          if info.should_stop
          then return none
          else if is_empty info.current_play.file_path
          then with_lock (list_mutex guild) (elim info.video_lists as (λ x. M (Option Text)) [
            | [] ↦ return (some [])
            | video ∷ rest ↦ do
              modify_info guild (take_front video rest)
              return (some video.file_path)
          ])
          else return (some info.current_play.file_path))
  chosen-Holds info = Holds-if info.should_stop _ _ (Holds-return none) (
      Holds-if (is_empty info.current_play.file_path) _ _
        (Holds-lock (list_mutex guild) _ (take_song-Holds info.video_lists))
        (Holds-return (some info.current_play.file_path)))

  next_song-Holds : Holds r (next_song files alone polls fuel guild)
  unfolding next_song
  next_song-Holds = search (rules, chosen-Holds) depth 12

  get_audio_stream-Holds : (path : Text) → Holds r (get_audio_stream files path)
  unfolding get_audio_stream
  get_audio_stream-Holds path =
      elim (files path)
        as (λ o. Holds r (elim o as (λ x. M (Option ℕ)) [
          | none ↦ return none
          | some size ↦ do call (open_stream path); return (some size)
        ])) [ none ↦ Holds-return none | some size ↦ search rules ]

  play_song-Holds :
      (shard : ℕ) (path : Text) → Holds r (play_song files alone polls fuel guild shard path)
  unfolding play_song
  play_song-Holds shard path =
      search (rules, get_audio_stream-Holds, finish_song-Holds, play_frames-Holds, close_song-Holds)
        depth 12

  play_next-Holds :
      (shard : ℕ) (path : Option Text) → Holds r (play_next files alone polls fuel guild shard path)
  unfolding play_next
  play_next-Holds shard none = search rules
  play_next-Holds shard (some path) = search (rules, idle-Holds, play_song-Holds)

  with_shard-Holds : (o : Option ℕ) → Holds r (with_shard files alone polls fuel guild o)
  unfolding with_shard
  with_shard-Holds none = search rules
  with_shard-Holds (some shard) =
      search (rules, next_song-Holds, play_next-Holds, reconnect-Holds) depth 12

  pub play_round-Holds : Holds r (play_round files alone polls fuel guild)
  unfolding play_round
  play_round-Holds = search (rules, look_up-Holds, own_shard-Holds, with_shard-Holds)
