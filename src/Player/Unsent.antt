-- ===== src/Player/Unsent.antt =====
-- What is left of a song once a skip is asked for.
use dpp_bot.Base.{ℕ, suc, ◌≡◌, refl, true, false, Option, some, [], ◌∷◌, arith, subst, sym}
use dpp_bot.Text.{Text}
use dpp_bot.Dict.{find}
use dpp_bot.Dict.Laws.{find-update}
use dpp_bot.Guild.{GuildInfo}
use dpp_bot.Task.{Task, ◌>>=◌, returns, on_info, open_stream}
use dpp_bot.Task.Endings.{Returns, Returns-bind}
use dpp_bot.FileLoader.{get_audio_stream, close_audio_stream, cleanup}
use dpp_bot.Player.{
  Song, ended, Round, goes_on, alone, clear_skip, clear_current, play_frames, play_song, close_song,
  finish_song, drain,
}
use dpp_bot.Player.Playing.{audio}

-- The thread goes on; the guild has neither a current song nor a pending skip, but is as `info`
-- otherwise; no audio went out.
abbrev pub Skipped : ℕ → GuildInfo → Task → Round → Task → Type 0
Skipped guild info t r u =
    (r ≡ goes_on)
    × (find guild u.bot.guild_infos ≡ some (clear_current (clear_skip info)))
    × (audio u.log ≡ audio t.log)

module _ (files : Text → Option ℕ) (polls fuel guild shard : ℕ) where
  play_frames_skipped :
      (remaining wait : ℕ) (t : Task) (info : GuildInfo)
      → find guild t.bot.guild_infos ≡ some info
      → info.should_stop ≡ false
      → info.skip_requested ≡ true
      → t.held ≡ []
      → play_frames alone guild shard polls (suc fuel) remaining wait t
        ≡ returns
            (ended false wait)
            (record t { bot = on_info guild clear_skip t.bot; tick = suc (suc t.tick) })
  unfolding play_frames
  play_frames_skipped remaining wait t info known go skip h = ground (arith, known, go, skip)

  close_song_skipped :
      (wait : ℕ) (path : Text) (t : Task) (info : GuildInfo)
      → find guild t.bot.guild_infos ≡ some info
      → info.should_stop ≡ false
      → t.held ≡ []
      → Returns
          (λ r u.
            (r ≡ goes_on)
            × (find guild u.bot.guild_infos ≡ some (clear_current info))
            × (audio u.log ≡ audio t.log))
          (close_song files alone polls (suc fuel) guild path (ended false wait) t)
  unfolding close_song finish_song drain close_audio_stream cleanup
  close_song_skipped wait path t info known go h =
      ground (arith, known, go, find-update guild guild clear_current t.bot.guild_infos)

  -- The rest of a song that plays, once a skip is asked for.
  pub rest_of_song-Skipped :
      (remaining wait : ℕ) (path : Text) (t : Task) (info : GuildInfo)
      → find guild t.bot.guild_infos ≡ some info
      → info.should_stop ≡ false
      → info.skip_requested ≡ true
      → t.held ≡ []
      → Returns (Skipped guild info t) (
          (play_frames alone guild shard polls (suc fuel) remaining wait
              >>= close_song files alone polls (suc fuel) guild path)
            t)
  rest_of_song-Skipped remaining wait path t info known go skip h =
      let u : Task = record t { bot = on_info guild clear_skip t.bot; tick = suc (suc t.tick) } in
      Returns-bind (λ s v. (s ≡ ended false wait) × (v ≡ u)) (Skipped guild info t)
        (play_frames alone guild shard polls (suc fuel) remaining wait) _ t
        (subst (Returns (λ s v. (s ≡ ended false wait) × (v ≡ u)))
          (sym (play_frames_skipped remaining wait t info known go skip h)) (h, (refl, refl)))
        λ s v _ e.
          subst
            (λ (p : Song).
              Returns (Skipped guild info t)
                (close_song files alone polls (suc fuel) guild path p v))
            (sym e.0)
            (subst
              (λ (x : Task).
                Returns (Skipped guild info t)
                  (close_song files alone polls (suc fuel) guild path (ended false wait) x))
              (sym e.1)
              (close_song_skipped wait path u (clear_skip info)
                (ground (arith, known, find-update guild guild clear_skip t.bot.guild_infos)) go h))

  pub play_song-Skipped :
      (size : ℕ) (path : Text) (t : Task) (info : GuildInfo)
      → files path ≡ some size
      → find guild t.bot.guild_infos ≡ some info
      → info.should_stop ≡ false
      → info.skip_requested ≡ true
      → t.held ≡ []
      → Returns (Skipped guild info t) (play_song files alone polls (suc fuel) guild shard path t)
  unfolding play_song get_audio_stream
  play_song-Skipped size path t info f known go skip h =
      let opened : Task = record t { log = open_stream path ∷ t.log } in
      ground (arith, f, rest_of_song-Skipped size 0 path opened info known go skip h)
