-- ===== src/Player/Lasting.antt =====
-- A round of the audio thread does not run out of fuel.
use dpp_bot.Base.{
  ℕ, suc, ◌+◌, ◌*◌, ◌≤◌, ◌≡◌, ◌≢◌, refl, true, false, Bool, Option, none, some, List, [], ◌∷◌,
  arith, inl, inr, Option-cases, is_empty, if◌then◌else◌, subst, sym,
}
use dpp_bot.Text.{Text}
use dpp_bot.Dict.{find, contains}
use dpp_bot.Dict.Laws.{find-update}
use dpp_bot.Guild.{GuildInfo, VideoDbInfo}
use dpp_bot.Task.{
  M, Task, Bot, Dpp, Outcome, returns, throws, deadlock, fault, ◌>>=◌, ◌>>◌, return, call, when,
  observe, send_silence, sleep, open_stream,
}
use dpp_bot.Task.Endings.{Returns}
use dpp_bot.FileLoader.{get_audio_stream}
use dpp_bot.Player.{
  Song, ended, unfinished, Round, goes_on, starves, frame_size, can_send, take_front, finish_song,
  close_song, play_frames, play_song, reconnect, next_song, idle, play_next, look_up, own_shard,
  with_shard, play_round,
}
use dpp_bot.Player.Disturbed.{
  Considerate, Advancing, has_entry, enough_polls, SongDone, play_frames_lem,
}

-- If the round returns, it did not run out of fuel.
abbrev pub Lasts : Outcome Round → Type 0
Lasts (returns r t) = r ≢ starves
Lasts (throws e t) = Unit {0}
Lasts (deadlock m) = Unit {0}
Lasts fault = Unit {0}

Lasts-then :
    {A : Type 0} (m : M A) (f : A → M Round) (t : Task)
    → ((a : A) (u : Task) → Lasts (f a u))
    → Lasts ((m >>= f) t)
Lasts-then {A} m f t k = go (m t)
  where
    go :
        (o : Outcome A)
        → Lasts (elim o [
          | returns a u ↦ f a u
          | throws e u ↦ throws e u
          | deadlock x ↦ deadlock x
          | fault ↦ fault
        ])
    go (returns a u) = k a u
    go (throws e u) = tt
    go (deadlock x) = tt
    go fault = tt

Lasts-bind :
    {A : Type 0} (P : A → Task → Type 0) (m : M A) (f : A → M Round) (t : Task)
    → Returns P (m t)
    → ((a : A) (u : Task) → u.held ≡ [] → P a u → Lasts (f a u))
    → Lasts ((m >>= f) t)
Lasts-bind {A} P m f t h k = go (m t) h
  where
    go :
        (o : Outcome A)
        → Returns P o
        → Lasts (elim o [
          | returns a u ↦ f a u
          | throws e u ↦ throws e u
          | deadlock x ↦ deadlock x
          | fault ↦ fault
        ])
    go (returns a u) p = k a u p.0 p.1
    go (throws e u) p = tt
    go (deadlock x) p = tt
    go fault p = tt

Lasts-if :
    (b : Bool) (m n : M Round) (t : Task)
    → Lasts (m t)
    → Lasts (n t)
    → Lasts ((if b then m else n) t)
Lasts-if true m n t h k = h
Lasts-if false m n t h k = k

-- No lock is held, the guild's entry is there, and the clock advances.
pub record IsAwake (guild : ℕ) (t : Task) : Type 0 where
  pub unlocked : t.held ≡ []
  pub entered : has_entry guild t.bot ≡ true
  pub advancing : Advancing t.env

-- The fuel is enough for every file that can be opened.
abbrev pub Fits : (Text → Option ℕ) → ℕ → Type 0
Fits files fuel =
    (path : Text) (size : ℕ) → files path ≡ some size → size + 2 * frame_size ≤ frame_size * fuel

module _ (files : Text → Option ℕ) (others : ℕ → Bot → Bot) (polls fuel guild : ℕ)
    (c : Considerate others guild) (enough : enough_polls ≤ suc polls)
    (fits : Fits files fuel) where
  last_step : (m : M (Unit {0})) (t : Task) → Lasts ((m >> return goes_on) t)
  last_step m t = Lasts-then m (λ _. return goes_on) t λ _ u e. ground arith

  close_song-Lasts :
      (path : Text) (naturally : Bool) (wait : ℕ) (t : Task)
      → Lasts (close_song files others (suc polls) fuel guild path (ended naturally wait) t)
  unfolding close_song
  close_song-Lasts path naturally wait t = search (Lasts-then, last_step) depth 8

  opened-Lasts :
      (shard : ℕ) (path : Text) (file : Option ℕ) (t : Task)
      → files path ≡ file
      → IsAwake guild t
      → Lasts (
          ((elim file as (λ x. M (Option ℕ)) [
            | none ↦ return none
            | some size ↦ do call (open_stream path); return (some size)
          ])
              >>= λ pipe. elim pipe as (λ x. M Round) [
                | none ↦ do finish_song files others (suc polls) fuel guild false; return goes_on
                | some size ↦ do
                  song ← play_frames others guild shard (suc polls) fuel size 0
                  close_song files others (suc polls) fuel guild path song
              ])
            t)
  opened-Lasts shard path none t f a =
      last_step (finish_song files others (suc polls) fuel guild false) t
  opened-Lasts shard path (some size) t f a =
      let u = record t { log = open_stream path ∷ t.log } in
      Lasts-bind (SongDone size u) (play_frames others guild shard (suc polls) fuel size 0)
        (close_song files others (suc polls) fuel guild path) u
        (play_frames_lem others guild shard c polls fuel size 0 u a.unlocked a.entered a.advancing
          enough (fits path size f))
        closing
    where
      closing :
          (song : Song) (v : Task)
          → v.held ≡ []
          → SongDone size (record t { log = open_stream path ∷ t.log }) song v
          → Lasts (close_song files others (suc polls) fuel guild path song v)
      closing (ended true w) v h d = close_song-Lasts path true w v
      closing (ended false w) v h d = close_song-Lasts path false w v
      closing unfinished v h d = absurd d

  play_song-Lasts :
      (shard : ℕ) (path : Text) (t : Task)
      → IsAwake guild t
      → Lasts (play_song files others (suc polls) fuel guild shard path t)
  unfolding play_song get_audio_stream
  play_song-Lasts shard path t a = opened-Lasts shard path (files path) t refl a

  next_song-Keeps :
      (t : Task)
      → IsAwake guild t
      → Returns
          (λ _ u. (has_entry guild u.bot ≡ true) × (u.env ≡ t.env))
          (next_song files others (suc polls) fuel guild t)
  unfolding next_song contains
  next_song-Keeps t a = elim (Option-cases (find guild t.bot.guild_infos)) [
    | inl p ↦ absurd (ground (arith, a.entered))
    | inr (info, p) ↦ taken info p info.video_lists refl
  ]
    where
      taken :
          (info : GuildInfo)
          → find guild t.bot.guild_infos ≡ some info
          → (videos : List VideoDbInfo) → info.video_lists ≡ videos
          → Returns
              (λ _ u. (has_entry guild u.bot ≡ true) × (u.env ≡ t.env))
              (next_song files others (suc polls) fuel guild t)
      taken info p [] e = ground (arith, a.unlocked)
      taken info p (video ∷ rest) e =
          ground
            (arith, a.unlocked, find-update guild guild (take_front video rest) t.bot.guild_infos)

  idle-Lasts : (shard : ℕ) (t : Task) → Lasts (idle files others (suc polls) fuel guild shard t)
  unfolding idle
  idle-Lasts shard t = Lasts-then observe _ t λ d u.
      Lasts-then (silence d) (λ _. call (sleep 20) >> return goes_on) u
        λ _ v. last_step (call (sleep 20)) v
    where
      silence : Dpp → M (Unit {0})
      silence d = when (can_send shard guild d) (call (send_silence guild 20))

  play_next-Lasts :
      (shard : ℕ) (path : Option Text) (t : Task)
      → IsAwake guild t
      → Lasts (play_next files others (suc polls) fuel guild shard path t)
  unfolding play_next
  play_next-Lasts shard none t a = λ e. ground arith
  play_next-Lasts shard (some path) t a =
      Lasts-if (is_empty path) (idle files others (suc polls) fuel guild shard)
        (play_song files others (suc polls) fuel guild shard path) t (idle-Lasts shard t)
        (play_song-Lasts shard path t a)

  with_shard-Lasts :
      (shard : ℕ) (t : Task)
      → IsAwake guild t
      → Lasts (with_shard files others (suc polls) fuel guild (some shard) t)
  unfolding with_shard
  with_shard-Lasts shard t a =
      let d = t.env t.tick in
      let u : Task = record t { tick = suc t.tick } in
      let v : Task = record u { bot = others u.tick u.bot; tick = suc u.tick } in
      let awake : IsAwake guild v = record {
        unlocked = a.unlocked;
        entered = c.keeps u.tick u.bot a.entered;
        advancing = a.advancing;
      } in
      Lasts-if (can_send shard guild d) _ _ u
        (Lasts-bind (λ _ w. (has_entry guild w.bot ≡ true) × (w.env ≡ t.env))
          (next_song files others (suc polls) fuel guild)
          (play_next files others (suc polls) fuel guild shard) v (next_song-Keeps v awake)
          λ path w hw k. play_next-Lasts shard path w (record {
            unlocked = hw;
            entered = k.0;
            advancing = subst Advancing (sym k.1) a.advancing;
          }))
        (Lasts-then (reconnect files others (suc polls) fuel guild (d.get_shard shard)) _ u
          λ _ w. last_step (call (sleep 100)) w)

  -- A round of the audio thread does not run out of fuel, whatever dpp answers and the other threads
  -- do, as long as they keep the guild's entry and clear no flag, the clock gains 50 milliseconds in
  -- any ten questions, frames are polled 1340 times, and the loop over the frames has two rounds more
  -- than any file has frames.
  pub play_round-Lasts :
      (t : Task)
      → t.held ≡ []
      → Advancing t.env
      → Lasts (play_round files others (suc polls) fuel guild t)
  unfolding play_round look_up own_shard with_shard contains
  play_round-Lasts t h adv =
      let b = others t.tick t.bot in
      let d = others (suc t.tick) b in
      elim (Option-cases (find guild b.guild_infos)) [
        | inl p ↦ ground arith
        | inr (info, p) ↦ elim (Option-cases (find guild d.guild_infos)) [
          | inl q ↦ absurd (ground (arith, c.keeps (suc t.tick) b))
          | inr (now, q) ↦
              let u : Task = record t { bot = d; tick = suc (suc t.tick) } in
              let awake : IsAwake guild u = record {
                unlocked = h;
                entered = ground arith;
                advancing = adv;
              } in
              ground (arith, with_shard-Lasts now.shard_id u awake)
        ]
      ]
