-- ===== src/Player/Disturbed.antt =====
-- A song under whatever the other threads and the voice connection do.
use Prim.Native.Nat.{min}
use dpp_bot.Base.{
  ℕ, zero, suc, ◌+◌, ◌-◌, ◌*◌, ◌%◌, ◌<◌, ◌≤◌, ◌≡◌, Bool, true, false, none, some, [], ◌∷◌, arith,
  ltb→lt, ◌||◌, subst, sym, inl, inr, Option-cases, ltb, Bool-cases,
}
use dpp_bot.Dict.{find, contains}
use dpp_bot.Guild.{seconds}
use dpp_bot.Task.{M, Task, Bot, Dpp, sleep, ◌>>=◌}
use dpp_bot.Task.Endings.{Returns, Returns-bind, Returns-map}
use dpp_bot.Player.{
  Frame, sent, interrupted, gave_up, starved, Song, ended, unfinished, send_frame, play_frames,
  frame_size, whole_samples, lead, send_interval_ms, after_frame,
}
use dpp_bot.Player.Playing.{audio, whole_samples_lem}

-- The guild was told to stop or to skip.
abbrev pub halting : ℕ → Bot → Bool
halting guild b = elim (find guild b.guild_infos) [
  | none ↦ false
  | some info ↦ info.should_stop || info.skip_requested
]

abbrev pub has_entry : ℕ → Bot → Bool
has_entry guild b = contains guild b.guild_infos

-- What the other threads may do to a guild whose player runs: its entry stays, since it is only
-- removed behind a join of the player, and a flag that is set stays set: the start of a player, which
-- clears the stop flag, is taken not to come while one runs.
pub record Considerate (others : ℕ → Bot → Bot) (guild : ℕ) : Type 0 where
  pub keeps : (n : ℕ) (b : Bot) → has_entry guild b ≡ true → has_entry guild (others n b) ≡ true
  pub persists : (n : ℕ) (b : Bot) → halting guild b ≡ true → halting guild (others n b) ≡ true

abbrev pub poll : ℕ
poll = 50000000

-- Of any ten questions in a row, a sleep of 50 milliseconds or more stands between two: up to its
-- first frame a round asks no more than nine questions, and behind that there are no more than five
-- between two sleeps of a song. A question after the round's last is not asked.
abbrev pub Advancing : (ℕ → Dpp) → Type 0
Advancing env = (n : ℕ) → (env n).now + poll ≤ (env (n + 10)).now

advanced :
    (env : ℕ → Dpp)
    → Advancing env
    → (k n : ℕ) → (env n).now + k * (3 * poll) ≤ (env (n + 30 * k)).now
advanced env adv zero n =
    let same : n ≡ n + 30 * 0 = omega arith in
    subst (λ (m : ℕ). (env n).now + 0 ≤ (env m).now) same (omega arith)
advanced env adv (suc k) n =
    let index : n + 10 + 10 + 10 + 30 * k ≡ n + 30 * suc k = omega arith in
    subst (λ (m : ℕ). (env n).now + suc k * (3 * poll) ≤ (env m).now) index
      (omega (arith, adv n, adv (n + 10), adv (n + 10 + 10), advanced env adv k (n + 10 + 10 + 10)))

-- The polls of a frame in which 20 seconds are certain to go by: a poll asks three questions.
abbrev pub enough_polls : ℕ
enough_polls = 1340

fuel_left :
    (fuel remaining : ℕ)
    → 0 < remaining
    → remaining + 2 * frame_size ≤ frame_size * suc (suc fuel)
    → remaining - min frame_size remaining + 2 * frame_size ≤ frame_size * suc fuel
fuel_left fuel remaining z enough = omega arith

abbrev FrameDone : ℕ → ℕ → Task → Frame → Task → Type 0
FrameDone guild bytes t (sent waited) u = audio u.log ≡ audio t.log + bytes
FrameDone guild bytes t interrupted u = (audio u.log ≡ audio t.log) × (halting guild u.bot ≡ true)
FrameDone guild bytes t gave_up u = audio u.log ≤ audio t.log + bytes
FrameDone guild bytes t starved u = ⊥

abbrev Framed : ℕ → ℕ → Task → Frame → Task → Type 0
Framed guild bytes t frame u =
    (u.env ≡ t.env) × (has_entry guild u.bot ≡ true) × FrameDone guild bytes t frame u

abbrev pub Halted : Task → Song → Task → Type 0
Halted t (ended true w) u = ⊥
Halted t (ended false w) u = audio u.log ≡ audio t.log
Halted t unfinished u = ⊥

abbrev pub SongDone : ℕ → Task → Song → Task → Type 0
SongDone size t (ended true w) u = audio u.log ≡ audio t.log + (size - size % 2)
SongDone size t (ended false w) u = audio u.log ≤ audio t.log + size
SongDone size t unfinished u = ⊥

module _ (others : ℕ → Bot → Bot) (guild shard : ℕ) (c : Considerate others guild) where
  send_frame-Framed :
      (fuel bytes start : ℕ) (waited : Bool) (t : Task) (k late : ℕ)
      → t.held ≡ []
      → has_entry guild t.bot ≡ true
      → k ≤ fuel
      → late ≡ suc (suc (t.tick + 3 * k))
      → start + seconds 20 < (t.env late).now
      → Returns
          (Framed guild bytes t)
          (send_frame others guild shard (suc fuel) bytes start waited t)
  unfolding send_frame contains
  send_frame-Framed zero bytes start waited t k late h e kf at enough =
      let index : late ≡ suc (suc t.tick) = omega (arith, at, kf) in
      let now = subst (λ (m : ℕ). start + seconds 20 < (t.env m).now) index enough in
      elim (Option-cases (find guild (others t.tick t.bot).guild_infos)) [
        | inl none_left ↦ absurd (ground (arith, c.keeps t.tick t.bot e))
        | inr (info, found) ↦ ground (arith, now)
      ]
  send_frame-Framed (suc fuel) bytes start waited t zero late h e kf at enough =
      let index : late ≡ suc (suc t.tick) = omega (arith, at, kf) in
      let now = subst (λ (m : ℕ). start + seconds 20 < (t.env m).now) index enough in
      elim (Option-cases (find guild (others t.tick t.bot).guild_infos)) [
        | inl none_left ↦ absurd (ground (arith, c.keeps t.tick t.bot e))
        | inr (info, found) ↦ ground (arith, now)
      ]
  send_frame-Framed (suc fuel) bytes start waited t (suc k) late h e kf at enough =
      elim (Option-cases (find guild (others t.tick t.bot).guild_infos)) [
        | inl none_left ↦ absurd (ground (arith, c.keeps t.tick t.bot e))
        | inr (info, found) ↦
            let u = record t {
              bot = others t.tick t.bot;
              tick = suc (suc (suc t.tick));
              log = sleep 50 ∷ t.log;
            } in
            ground (
              arith,
              send_frame-Framed fuel bytes start true u k late h (c.keeps t.tick t.bot e)
                  (omega (arith, kf)) (omega (arith, at)) enough,
            )
      ]

  halted :
      (polls fuel remaining wait : ℕ) (t : Task)
      → t.held ≡ []
      → has_entry guild t.bot ≡ true
      → halting guild t.bot ≡ true
      → Returns (Halted t) (play_frames others guild shard polls (suc fuel) remaining wait t)
  unfolding play_frames contains
  halted polls fuel remaining wait t h e k =
      elim (Option-cases (find guild (others t.tick t.bot).guild_infos)) [
        | inl none_left ↦ absurd (ground (arith, c.keeps t.tick t.bot e))
        | inr (info, found) ↦ ground (arith, c.persists t.tick t.bot k)
      ]

  -- What the loop makes of a frame, where it goes on well with the rest of the file.
  frame_done :
      (polls fuel remaining wait : ℕ) (v : Task)
      → 0 < remaining
      → ((w : ℕ) (u : Task)
          → u.held ≡ []
          → has_entry guild u.bot ≡ true
          → u.env ≡ v.env
          → Returns (SongDone (remaining - min frame_size remaining) u) (
              play_frames others guild shard polls
                (suc fuel)
                (remaining - min frame_size remaining)
                w
                u))
      → (frame : Frame) (u : Task) → u.held ≡ []
      → Framed guild (whole_samples (min frame_size remaining)) v frame u
      → Returns (SongDone remaining v) (
          after_frame others guild shard
            (play_frames others guild shard polls (suc fuel) (remaining - min frame_size remaining))
            wait
            frame
            u)
  unfolding after_frame
  frame_done polls fuel remaining wait v z next (sent w) u hu f =
      Returns-map (SongDone (remaining - min frame_size remaining) slept) (SongDone remaining v)
        counted _ (next (lead w wait) slept hu f.1 f.0)
    where
      slept : Task
      slept = record u { log = sleep send_interval_ms ∷ u.log }

      counted :
          (s : Song) (x : Task)
          → SongDone (remaining - min frame_size remaining) slept s x
          → SongDone remaining v s x
      counted (ended true w) x d = omega (arith, whole_samples_lem (min frame_size remaining))
      counted (ended false w) x d = omega (arith, whole_samples_lem (min frame_size remaining))
      counted unfinished x d = d
  frame_done polls fuel remaining wait v z next interrupted u hu f =
      Returns-map (Halted u) (SongDone remaining v) counted _
        (halted polls fuel (remaining - min frame_size remaining) wait u hu f.1 (f.2.1))
    where
      counted : (s : Song) (x : Task) → Halted u s x → SongDone remaining v s x
      counted (ended true w) x d = absurd d
      counted (ended false w) x d = omega arith
      counted unfinished x d = d
  frame_done polls fuel remaining wait v z next gave_up u hu f =
      (hu, omega (arith, whole_samples_lem (min frame_size remaining)))
  frame_done polls fuel remaining wait v z next starved u hu f = absurd f.2

  -- Whatever dpp answers and the other threads do, as long as they keep the guild's entry and clear
  -- no flag of it, and the clock gains 50 milliseconds in any ten questions, which the sleeps of the
  -- loops see to, a song comes to an end, with no fault, deadlock or exception and no lock held: if
  -- the loop reports the natural end then every byte of the file was sent once, but for an odd last
  -- one, and otherwise no more bytes than the file has. The polls of a frame have fuel for
  -- 1340, and the loop for the file's frames and two more.
  pub play_frames_lem :
      (polls fuel remaining wait : ℕ) (t : Task)
      → t.held ≡ []
      → has_entry guild t.bot ≡ true
      → Advancing t.env
      → enough_polls ≤ suc polls
      → remaining + 2 * frame_size ≤ frame_size * fuel
      → Returns
          (SongDone remaining t)
          (play_frames others guild shard (suc polls) fuel remaining wait t)
  unfolding play_frames contains
  play_frames_lem polls zero remaining wait t h e adv p enough = absurd (omega arith)
  play_frames_lem polls (suc zero) remaining wait t h e adv p enough = absurd (omega arith)
  play_frames_lem polls (suc (suc fuel)) remaining wait t h e adv p enough =
      elim (Option-cases (find guild (others t.tick t.bot).guild_infos)) [
        | inl none_left ↦ absurd (ground (arith, c.keeps t.tick t.bot e))
        | inr (info, found) ↦ elim (Bool-cases (ltb 0 remaining)) [
          | inl z ↦ ground (
            arith,
            sending (ground arith) λ w u hu eu envu.
                play_frames_lem polls (suc fuel) (remaining - bytes) w u hu eu
                  (subst Advancing (sym envu) adv) p
                  (fuel_left fuel remaining (ltb→lt 0 remaining z) enough),
          )
          | inr z ↦ ground arith
        ]
      ]
    where
      bytes : ℕ
      bytes = min frame_size remaining

      v : Task
      v = record t { bot = others t.tick t.bot; tick = suc (suc t.tick) }

      next : ℕ → M Song
      next = play_frames others guild shard (suc polls) (suc fuel) (remaining - bytes)

      sending :
          0 < remaining
          → ((w : ℕ) (u : Task)
              → u.held ≡ []
              → has_entry guild u.bot ≡ true
              → u.env ≡ v.env
              → Returns
                  (SongDone (remaining - bytes) u)
                  (play_frames others guild shard (suc polls) (suc fuel) (remaining - bytes) w u))
          → Returns (SongDone remaining t) (
              (send_frame others guild shard
                    (suc polls)
                    (whole_samples bytes)
                    (t.env (suc t.tick)).now
                    false
                  >>= after_frame others guild shard next wait)
                v)
      sending z ih =
          Returns-bind (Framed guild (whole_samples bytes) v) (SongDone remaining t)
            (send_frame others guild shard (suc polls) (whole_samples bytes)
              (t.env (suc t.tick)).now false)
            (after_frame others guild shard next wait) v
            (send_frame-Framed polls (whole_samples bytes) (t.env (suc t.tick)).now false v 1339
              (suc t.tick + 30 * 134) h (c.keeps t.tick t.bot e) (omega (arith, p)) (omega arith)
              (omega (arith, advanced t.env adv 134 (suc t.tick))))
            (λ frame u hu f. frame_done (suc polls) fuel remaining wait v z ih frame u hu f)
