-- ===== src/Player/Songs.antt =====
-- The whole play list: its songs are played in order.
use mathlib.Core.List.{reverse, reverse-cons}
use dpp_bot.Base.{
  ℕ, suc, ◌+◌, ◌-◌, ◌*◌, ◌/◌, ◌%◌, ◌<◌, ◌≤◌, ◌≡◌, refl, sym, subst, true, false, Option, none, some,
  List, [], ◌∷◌, ◌++◌, map, append_assoc, arith, int_mod, is_empty, length, All, ◌∙◌,
}
use dpp_bot.Text.{Text}
use dpp_bot.Dict.{find}
use dpp_bot.Guild.{GuildInfo, VideoDbInfo, no_video}
use dpp_bot.Task.{M, Task, Bot, Dpp, return}
use dpp_bot.Task.Endings.{Returns, Returns-bind, Returns-map}
use dpp_bot.Player.{
  Round, goes_on, exits, starves, frame_size, can_send, take_front, play_round, play_audio_thread,
}
use dpp_bot.Player.Playing.{audio, opened_paths, Calm}
use dpp_bot.Player.Rounds.{Closed, play_round_lem}

-- The bytes of a file that are sent.
abbrev pub sent_of : Option ℕ → ℕ
sent_of none = 0
sent_of (some size) = size - size % 2

abbrev pub paths_of : List VideoDbInfo → List Text
paths_of videos = map (λ (video : VideoDbInfo). video.file_path) videos

module _ (files : Text → Option ℕ) (others : ℕ → Bot → Bot) (polls fuel guild : ℕ) where
  -- The file can be opened, the fuel is enough for it, and its lead fits the counter.
  abbrev pub Playable : VideoDbInfo → Type 0
  Playable video =
      (size : ℕ) × (files video.file_path ≡ some size)
      × (is_empty video.file_path ≡ false)
      × (size + frame_size ≤ frame_size * fuel)
      × (2 * ((size + 11519) / frame_size) < int_mod)

  abbrev pub bytes_of : List VideoDbInfo → ℕ
  bytes_of [] = 0
  bytes_of (video ∷ videos) = sent_of (files video.file_path) + bytes_of videos

  -- The play list is empty, no song is the current one, and the songs went out in order.
  abbrev pub PlayedAll : List VideoDbInfo → Task → Round → Task → Type 0
  PlayedAll videos t r u =
      (r ≡ goes_on)
      × ((info : GuildInfo) × (find guild u.bot.guild_infos ≡ some info)
          × (info.video_lists ≡ [])
          × (info.current_play.file_path ≡ []))
      × (opened_paths u.log ≡ reverse (paths_of videos) ++ opened_paths t.log)
      × (audio u.log ≡ audio t.log + bytes_of videos)

  -- The audio thread and its guild between two songs.
  pub record IsResting (shard : ℕ) (videos : List VideoDbInfo) (t : Task) : Type 0 where
    pub calm : Calm others guild shard t
    pub unlocked : t.held ≡ []
    pub own_shard : calm.info.shard_id ≡ shard
    pub no_current : calm.info.current_play.file_path ≡ []
    pub unrepeated : calm.info.repeat_current ≡ false
    pub listed : calm.info.video_lists ≡ videos

  rests_again :
      (shard size : ℕ) (video : VideoDbInfo) (rest : List VideoDbInfo) (paths : List Text)
      (t u : Task) (c : IsResting shard (video ∷ rest) t)
      → u.held ≡ []
      → Closed guild (take_front video rest c.calm.info) size paths t goes_on u
      → IsResting shard rest u
  rests_again shard size video rest paths t u c hu cl = record {
    calm = record {
      info = record c.calm.info { current_play = no_video; video_lists = rest };
      alone = c.calm.alone;
      known = ground (arith, cl.1, c.unrepeated);
      not_stopped = c.calm.not_stopped;
      not_skipped = c.calm.not_skipped;
      open_voice =
          subst (λ (env : ℕ → Dpp). (n : ℕ) → can_send shard guild (env n) ≡ true) (sym cl.4)
            c.calm.open_voice;
      no_exception =
          subst (λ (env : ℕ → Dpp). (n : ℕ) → (env n).send_fails ≡ false) (sym cl.4)
            c.calm.no_exception;
    };
    unlocked = hu;
    own_shard = c.own_shard;
    no_current = refl;
    unrepeated = c.unrepeated;
    listed = refl;
  }

  rest_of_songs :
      (video : VideoDbInfo) (videos : List VideoDbInfo) (size : ℕ) (t u v : Task) (r : Round)
      → files video.file_path ≡ some size
      → audio u.log ≡ audio t.log + (size - size % 2)
      → opened_paths u.log ≡ video.file_path ∷ opened_paths t.log
      → PlayedAll videos u r v
      → PlayedAll (video ∷ videos) t r v
  rest_of_songs video videos size t u v r f a o p =
      (p.0, p.1, p.2 ∙ simp (reverse-cons, append_assoc, o), rw f (omega (arith, p.3, a)))

  -- If nothing disturbs the audio thread, the guild does not repeat, no song is the current one, and
  -- every file of the play list can be opened, the thread plays the play list in order, in a round for
  -- each song: every file is sent whole, but for an odd last byte, then the play list is empty, no
  -- song is the current one, no lock is held, and the thread goes on.
  pub play_audio_thread_lem :
      (shard : ℕ) (videos : List VideoDbInfo) (t : Task)
      → IsResting shard videos t
      → All Playable videos
      → Returns
          (PlayedAll videos t)
          (play_audio_thread files others (suc polls) fuel guild (length videos) t)
  unfolding play_audio_thread
  play_audio_thread_lem shard [] t c h =
      (c.unlocked, (refl, (c.calm.info, c.calm.known, c.listed, c.no_current), refl, omega arith))
  play_audio_thread_lem shard (video ∷ rest) t c ((size, f, name, enough, small), others_ok) =
      Returns-bind
        (Closed guild (take_front video rest c.calm.info) (size - size % 2)
          (video.file_path ∷ opened_paths t.log) t)
        (PlayedAll (video ∷ rest) t) (play_round files others (suc polls) fuel guild) _ t
        (play_round_lem files others polls fuel guild shard size video rest t c.calm c.unlocked
          c.own_shard c.no_current c.listed name f enough small)
        λ round u hu cl.
          subst
            (λ (r : Round). Returns (PlayedAll (video ∷ rest) t) (
              elim r as (λ x. M Round) [
                | exits ↦ return exits
                | goes_on ↦ play_audio_thread files others (suc polls) fuel guild (length rest)
                | starves ↦ return starves
              ]
                u))
            (sym cl.0)
            (Returns-map (PlayedAll rest u) (PlayedAll (video ∷ rest) t)
              (λ r v. rest_of_songs video rest size t u v r f cl.2 cl.3)
              (play_audio_thread files others (suc polls) fuel guild (length rest) u)
              (play_audio_thread_lem shard rest u
                (rests_again shard (size - size % 2) video rest
                  (video.file_path ∷ opened_paths t.log) t u c hu (refl, cl.1, cl.2, cl.3, cl.4))
                others_ok))
