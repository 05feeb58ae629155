-- ===== src/Player/Staying.antt =====
-- The steps of an audio thread that keep its pointer good and its streams as they are, as long as the
-- other threads keep the entry.
use dpp_bot.Base.{
  ℕ, zero, suc, ◌+◌, ◌≡◌, refl, Bool, true, false, not, Option, none, some, List, [], ◌∷◌, arith,
  inl, inr, Option-cases, if◌then◌else◌,
}
use dpp_bot.Text.{Text}
use dpp_bot.Dict.{find, contains}
use dpp_bot.Dict.Laws.{find-update}
use dpp_bot.Guild.{GuildInfo, VideoDbInfo}
use dpp_bot.Task.{
  open_stream, close_stream, M, Task, Bot, Call, Shard, Outcome, returns, throws, deadlock, fault,
  ◌>>=◌, done, return, when, call, observe, deref, modify_info, with_lock, find_info,
  guild_infos_mutex,
}
use dpp_bot.Player.{
  is_repeated, Frame, sent, interrupted, gave_up, starved, Song, ended, unfinished, yield_to,
  send_frame, reset_skip, after_frame, play_frames, drain, finish_song, reconnect, next_song, idle,
  clear_current, clear_skip, take_front,
}
use dpp_bot.Player.Disturbed.{has_entry}

-- How many streams a log opens, and closes.
unfoldable pub opened : List Call → ℕ
opened [] = 0
opened (open_stream path ∷ log) = suc (opened log)
opened (c ∷ log) = opened log

unfoldable pub closed : List Call → ℕ
closed [] = 0
closed (close_stream path ∷ log) = suc (closed log)
closed (c ∷ log) = closed log

pub opened-nil : opened [] ≡ closed []
unfolding opened closed
opened-nil = refl

abbrev is_stream : Call → Bool
is_stream (open_stream path) = true
is_stream (close_stream path) = true
is_stream c = false

module _ (guild n : ℕ) where
  -- The thread goes on with the entry there, no lock held, and `n` streams open.
  abbrev pub Stay : {A : Type 0} → Outcome A → Type 0
  Stay (returns a t) =
      (t.held ≡ []) × (has_entry guild t.bot ≡ true) × (opened t.log ≡ n + closed t.log)
  Stay (throws e t) = ⊥
  Stay (deadlock m) = ⊥
  Stay fault = ⊥

  pub record Stays {A : Type 0} (m : M A) : Type 0 where
    pub at :
        (t : Task)
        → t.held ≡ []
        → has_entry guild t.bot ≡ true
        → opened t.log ≡ n + closed t.log
        → Stay (m t)

  pub Stays-return : {A : Type 0} (a : A) → Stays (return a)
  Stays-return a = record { at = λ t h e o. (h, e, o) }

  Stays-done : Stays done
  Stays-done = record { at = λ t h e o. (h, e, o) }

  Stays-observe : Stays observe
  Stays-observe = record { at = λ t h e o. (h, e, o) }

  pub Stays-call : (c : Call) → is_stream c ≡ false → Stays (call c)
  unfolding opened closed
  Stays-call c s = record { at = λ t h e o. (h, e, ground arith) }

  pub Stays-bind :
      {A B : Type 0} (m : M A) (f : A → M B) → Stays m → ((a : A) → Stays (f a)) → Stays (m >>= f)
  Stays-bind {A} m f k l = record { at = λ t h e o. go (m t) (k.at t h e o) }
    where
      go :
          (o : Outcome A)
          → Stay o
          → Stay (elim o [
            | returns a u ↦ f a u
            | throws e u ↦ throws e u
            | deadlock x ↦ deadlock x
            | fault ↦ fault
          ])
      go (returns a u) p = (l a).at u p.0 p.1 p.2
      go (throws e u) p = absurd p
      go (deadlock x) p = absurd p
      go fault p = absurd p

  Stays-cases :
      {A B : Type 0} (m : M (Option A)) (k : Option A → M B)
      → Stays m
      → Stays (k none)
      → ((a : A) → Stays (k (some a)))
      → Stays (m >>= k)
  Stays-cases {A} m k h l s = Stays-bind m k h go
    where
      go : (o : Option A) → Stays (k o)
      go none = l
      go (some a) = s a

  Stays-when : (b : Bool) (m : M (Unit {0})) → Stays m → Stays (when b m)
  Stays-when true m k = record { at = k.at }
  Stays-when false m k = record { at = λ t h e o. (h, e, o) }

  Stays-if : {A : Type 0} (b : Bool) (m m' : M A) → Stays m → Stays m' → Stays (if b then m else m')
  Stays-if true m m' k l = k
  Stays-if false m m' k l = l

  Stays-deref : Stays (deref guild)
  unfolding contains
  Stays-deref = record {
    at = λ t h e o. elim (Option-cases (find guild t.bot.guild_infos)) [
      | inl p ↦ absurd (ground arith)
      | inr (info, p) ↦ ground arith
    ];
  }

  Stays-modify_info : (f : GuildInfo → GuildInfo) → Stays (modify_info guild f)
  unfolding contains
  Stays-modify_info f = record {
    at = λ t h e o. (h, ground (arith, find-update guild guild f t.bot.guild_infos), o);
  }

  -- A write under the mutex, if the entry is there.
  Stays-locked :
      (f : GuildInfo → GuildInfo)
      → Stays (
          with_lock guild_infos_mutex
            do it ← find_info guild; elim it [ none ↦ done | some info ↦ modify_info guild f ])
  unfolding contains
  Stays-locked f = record {
    at = λ t h e o. elim (Option-cases (find guild t.bot.guild_infos)) [
      | inl p ↦ absurd (ground arith)
      | inr (info, p) ↦ ground (arith, find-update guild guild f t.bot.guild_infos)
    ];
  }

  ruleset stays_rules = (
    Stays-return, Stays-done, Stays-observe, Stays-call, Stays-cases, Stays-bind, Stays-when,
    Stays-if, Stays-deref, Stays-modify_info, Stays-locked,
  )

  module _ (others : ℕ → Bot → Bot)
      (keeps : (i : ℕ) (b : Bot)
        → has_entry guild b ≡ true
        → has_entry guild (others i b) ≡ true) where
    Stays-yield_to : Stays (yield_to others)
    Stays-yield_to = record { at = λ t h e o. (h, keeps t.tick t.bot e, o) }

    send_frame-Stays :
        (shard fuel bytes wait_start : ℕ) (waited : Bool)
        → Stays (send_frame others guild shard fuel bytes wait_start waited)
    unfolding send_frame
    send_frame-Stays shard zero bytes wait_start waited = search stays_rules
    send_frame-Stays shard (suc fuel) bytes wait_start waited =
        search (stays_rules, Stays-yield_to, send_frame-Stays shard fuel bytes wait_start) depth 12

    reset_skip-Stays : (shard : ℕ) → Stays (reset_skip others guild shard)
    unfolding reset_skip
    reset_skip-Stays shard = Stays-locked clear_skip

    after_frame-Stays :
        (shard : ℕ) (next : ℕ → M Song) (wait_time : ℕ) (frame : Frame)
        → ((w : ℕ) → Stays (next w))
        → Stays (after_frame others guild shard next wait_time frame)
    unfolding after_frame
    after_frame-Stays shard next wait_time (sent waited) k = search (stays_rules, k)
    after_frame-Stays shard next wait_time interrupted k = k wait_time
    after_frame-Stays shard next wait_time gave_up k = search stays_rules
    after_frame-Stays shard next wait_time starved k = search stays_rules

    pub play_frames-Stays :
        (shard polls fuel remaining wait_time : ℕ)
        → Stays (play_frames others guild shard polls fuel remaining wait_time)
    unfolding play_frames
    play_frames-Stays shard polls zero remaining wait_time = search stays_rules
    play_frames-Stays shard polls (suc fuel) remaining wait_time =
        search
          (
            stays_rules,
            Stays-yield_to,
            send_frame-Stays,
            reset_skip-Stays,
            after_frame-Stays,
            play_frames-Stays shard polls fuel,
          )
          depth 14

    module _ (files : Text → Option ℕ) (polls fuel : ℕ) where
      pub drain-Stays : (song : Song) → Stays (drain files others polls fuel guild song)
      unfolding drain
      drain-Stays (ended naturally wait_time) = search (stays_rules, Stays-yield_to)
      drain-Stays unfinished = search stays_rules

      is_repeated-Stays :
          (naturally : Bool) → Stays (is_repeated files others polls fuel guild naturally)
      unfolding is_repeated
      is_repeated-Stays false = search stays_rules
      is_repeated-Stays true = search (stays_rules, Stays-yield_to)

      pub finish_song-Stays :
          (naturally : Bool) → Stays (finish_song files others polls fuel guild naturally)
      unfolding finish_song
      finish_song-Stays naturally =
          Stays-bind (is_repeated files others polls fuel guild naturally) _
            (is_repeated-Stays naturally)
            λ should_repeat.
              Stays-when (not should_repeat) _
                (Stays-bind (yield_to others) _ Stays-yield_to λ v. Stays-locked clear_current)

      pub reconnect-Stays : (o : Option Shard) → Stays (reconnect files others polls fuel guild o)
      unfolding reconnect
      reconnect-Stays none = search stays_rules
      reconnect-Stays (some s) = search (stays_rules, Stays-yield_to) depth 12

      pub next_song-Stays : Stays (next_song files others polls fuel guild)
      unfolding next_song contains
      next_song-Stays = record {
        at = λ t h e o. elim (Option-cases (find guild t.bot.guild_infos)) [
          | inl p ↦ absurd (ground arith)
          | inr (info, p) ↦ taken t info h p o info.video_lists refl
        ];
      }
        where
          taken :
              (t : Task) (info : GuildInfo)
              → t.held ≡ []
              → find guild t.bot.guild_infos ≡ some info
              → opened t.log ≡ n + closed t.log
              → (videos : List VideoDbInfo) → info.video_lists ≡ videos
              → Stay (next_song files others polls fuel guild t)
          taken t info h p o [] e = ground arith
          taken t info h p o (video ∷ rest) e =
              ground (arith, find-update guild guild (take_front video rest) t.bot.guild_infos)

      pub idle-Stays : (shard : ℕ) → Stays (idle files others polls fuel guild shard)
      unfolding idle
      idle-Stays shard = search stays_rules
