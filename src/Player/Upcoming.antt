-- ===== src/Player/Upcoming.antt =====
-- The song that the audio thread turns to when it chooses one.
use dpp_bot.Base.{
  ℕ, suc, ◌≡◌, refl, false, Option, some, List, [], ◌∷◌, arith, is_empty, if◌then◌else◌,
}
use dpp_bot.Text.{Text}
use dpp_bot.Dict.{find}
use dpp_bot.Dict.Laws.{find-update}
use dpp_bot.Guild.{GuildInfo, VideoDbInfo}
use dpp_bot.Task.{Task}
use dpp_bot.Task.Endings.{Returns}
use dpp_bot.Queue.{request_skip}
use dpp_bot.Player.{alone, take_front, next_song}

-- The guild whose next song is chosen: its current one, or else the first of its play list.
abbrev pub upcoming : GuildInfo → GuildInfo
upcoming info =
    if is_empty info.current_play.file_path
    then elim info.video_lists [ [] ↦ info | video ∷ rest ↦ take_front video rest info ]
    else info

pub upcoming-flags :
    (info : GuildInfo)
    → ((upcoming info).should_stop ≡ info.should_stop)
      × ((upcoming info).skip_requested ≡ info.skip_requested)
upcoming-flags info = listed info.video_lists refl
  where
    listed :
        (videos : List VideoDbInfo)
        → info.video_lists ≡ videos
        → ((upcoming info).should_stop ≡ info.should_stop)
          × ((upcoming info).skip_requested ≡ info.skip_requested)
    listed [] e = ground (arith, e)
    listed (video ∷ rest) e = ground (arith, e)

pub upcoming-request_skip :
    (info : GuildInfo) → upcoming (request_skip info) ≡ request_skip (upcoming info)
upcoming-request_skip info = listed info.video_lists refl
  where
    listed :
        (videos : List VideoDbInfo)
        → info.video_lists ≡ videos
        → upcoming (request_skip info) ≡ request_skip (upcoming info)
    listed [] e = ground (arith, e)
    listed (video ∷ rest) e = ground (arith, e)

module _ (files : Text → Option ℕ) (polls fuel guild : ℕ) where
  pub next_song-upcoming :
      (t : Task) (info : GuildInfo)
      → find guild t.bot.guild_infos ≡ some info
      → info.should_stop ≡ false
      → is_empty (upcoming info).current_play.file_path ≡ false
      → t.held ≡ []
      → Returns
          (λ path u.
            (path ≡ some (upcoming info).current_play.file_path)
            × (find guild u.bot.guild_infos ≡ some (upcoming info))
            × (u.log ≡ t.log)
            × (u.env ≡ t.env))
          (next_song files alone polls (suc fuel) guild t)
  unfolding next_song
  next_song-upcoming t info known go name h = listed info.video_lists refl
    where
      listed :
          (videos : List VideoDbInfo)
          → info.video_lists ≡ videos
          → Returns
              (λ path u.
                (path ≡ some (upcoming info).current_play.file_path)
                × (find guild u.bot.guild_infos ≡ some (upcoming info))
                × (u.log ≡ t.log)
                × (u.env ≡ t.env))
              (next_song files alone polls (suc fuel) guild t)
      listed [] e = ground (arith, known, go, e)
      listed (video ∷ rest) e =
          ground
            (arith, known, go, e, find-update guild guild (take_front video rest) t.bot.guild_infos)
