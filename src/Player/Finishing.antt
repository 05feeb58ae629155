-- ===== src/Player/Finishing.antt =====
-- The steps of an audio thread that open and close a stream.
use dpp_bot.Base.{
  ℕ, suc, ◌+◌, ◌≡◌, refl, ◌⊎◌, Bool, true, false, Option, none, some, [], ◌∷◌, arith, inl, inr,
  if◌then◌else◌, is_empty,
}
use dpp_bot.Text.{Text}
use dpp_bot.Task.{
  open_stream, close_stream, sleep, M, Task, Bot, Shard, Outcome, returns, throws, deadlock, fault,
  ◌>>=◌, ◌>>◌, return, call,
}
use dpp_bot.FileLoader.{get_audio_stream, close_audio_stream, cleanup}
use dpp_bot.Player.{
  Song, ended, unfinished, Round, goes_on, starves, can_send, play_frames, drain, finish_song,
  close_song, play_song, reconnect, next_song, idle, play_next, with_shard,
}
use dpp_bot.Player.Disturbed.{has_entry}
use dpp_bot.Player.Staying.{
  opened, closed, Stay, Stays, Stays-return, Stays-call, Stays-bind, play_frames-Stays, drain-Stays,
  finish_song-Stays, reconnect-Stays, next_song-Stays, idle-Stays,
}

-- The end of a round: the entry is there, no lock is held, and every stream is closed, unless the fuel
-- ran out in the middle of a song.
abbrev pub Finish : ℕ → Outcome Round → Type 0
Finish guild (returns r t) =
    (t.held ≡ [])
    × (has_entry guild t.bot ≡ true)
    × ((r ≡ starves) ⊎ (opened t.log ≡ 0 + closed t.log))
Finish guild (throws e t) = ⊥
Finish guild (deadlock m) = ⊥
Finish guild fault = ⊥

Finish-bind :
    {A : Type 0} (guild n : ℕ) (m : M A) (f : A → M Round) (t : Task)
    → Stay guild n (m t)
    → ((a : A) (u : Task)
        → u.held ≡ []
        → has_entry guild u.bot ≡ true
        → opened u.log ≡ n + closed u.log
        → Finish guild (f a u))
    → Finish guild ((m >>= f) t)
Finish-bind {A} guild n m f t s k = go (m t) s
  where
    go :
        (o : Outcome A)
        → Stay guild n o
        → Finish guild (elim o [
          | returns a u ↦ f a u
          | throws e u ↦ throws e u
          | deadlock x ↦ deadlock x
          | fault ↦ fault
        ])
    go (returns a u) p = k a u p.0 p.1 p.2
    go (throws e u) p = absurd p
    go (deadlock x) p = absurd p
    go fault p = absurd p

Finish-if :
    (guild : ℕ) (b : Bool) (m n : M Round) (t : Task)
    → Finish guild (m t)
    → Finish guild (n t)
    → Finish guild ((if b then m else n) t)
Finish-if guild true m n t p q = p
Finish-if guild false m n t p q = q

module _ (files : Text → Option ℕ) (others : ℕ → Bot → Bot) (polls fuel guild : ℕ)
    (keeps : (i : ℕ) (b : Bot)
      → has_entry guild b ≡ true
      → has_entry guild (others i b) ≡ true) where
  close_song-Finish :
      (path : Text) (song : Song) (t : Task)
      → t.held ≡ []
      → has_entry guild t.bot ≡ true
      → opened t.log ≡ 1 + closed t.log
      → Finish guild (close_song files others polls fuel guild path song t)
  unfolding close_song close_audio_stream cleanup opened closed
  close_song-Finish path (ended naturally wait_time) t h e o =
      Finish-bind guild 1 (drain files others polls fuel guild (ended naturally wait_time)) _ t
        ((drain-Stays guild 1 others keeps files polls fuel (ended naturally wait_time)).at t h e o)
        λ a u hu eu ou.
          Finish-bind guild 0 (finish_song files others polls fuel guild naturally) _
            (record u { log = close_stream path ∷ u.log })
            ((finish_song-Stays guild 0 others keeps files polls fuel naturally).at
              (record u { log = close_stream path ∷ u.log }) hu eu (ground arith))
            λ b v hv ev ov. (hv, ev, inr ov)
  close_song-Finish path unfinished t h e o = (h, e, inl refl)

  opened-Finish :
      (shard : ℕ) (path : Text) (size : Option ℕ) (t : Task)
      → t.held ≡ []
      → has_entry guild t.bot ≡ true
      → opened t.log ≡ 0 + closed t.log
      → Finish guild (
          (elim size as (λ x. M (Option ℕ)) [
            | none ↦ return none
            | some size ↦ do call (open_stream path); return (some size)
          ]
              >>= λ pipe. elim pipe as (λ x. M Round) [
                | none ↦ do finish_song files others polls fuel guild false; return goes_on
                | some size ↦ do
                  song ← play_frames others guild shard polls fuel size 0
                  close_song files others polls fuel guild path song
              ])
            t)
  unfolding opened closed
  opened-Finish shard path none t h e o =
      Finish-bind guild 0 (finish_song files others polls fuel guild false) _ t
        ((finish_song-Stays guild 0 others keeps files polls fuel false).at t h e o)
        λ b v hv ev ov. (hv, ev, inr ov)
  opened-Finish shard path (some size) t h e o =
      let u = record t { log = open_stream path ∷ t.log } in
      Finish-bind guild 1 (play_frames others guild shard polls fuel size 0) _ u
        ((play_frames-Stays guild 1 others keeps shard polls fuel size 0).at u h e (ground arith))
        (close_song-Finish path)

  play_song-Finish :
      (shard : ℕ) (path : Text) (t : Task)
      → t.held ≡ []
      → has_entry guild t.bot ≡ true
      → opened t.log ≡ 0 + closed t.log
      → Finish guild (play_song files others polls fuel guild shard path t)
  unfolding play_song get_audio_stream
  play_song-Finish shard path = opened-Finish shard path (files path)

  Stay-Finish : (o : Outcome Round) → Stay guild 0 o → Finish guild o
  Stay-Finish (returns r t) p = (p.0, p.1, inr p.2)
  Stay-Finish (throws e t) p = p
  Stay-Finish (deadlock m) p = p
  Stay-Finish fault p = p

  play_next-Finish :
      (shard : ℕ) (path : Option Text) (t : Task)
      → t.held ≡ []
      → has_entry guild t.bot ≡ true
      → opened t.log ≡ 0 + closed t.log
      → Finish guild (play_next files others polls fuel guild shard path t)
  unfolding play_next
  play_next-Finish shard none t h e o = (h, e, inr o)
  play_next-Finish shard (some path) t h e o =
      Finish-if guild (is_empty path) (idle files others polls fuel guild shard)
        (play_song files others polls fuel guild shard path) t
        (Stay-Finish (idle files others polls fuel guild shard t)
          ((idle-Stays guild 0 others keeps files polls fuel shard).at t h e o))
        (play_song-Finish shard path t h e o)

  down : Option Shard → M Round
  down shard = do reconnect files others polls fuel guild shard; call (sleep 100); return goes_on

  down-Stays : (shard : Option Shard) → Stays guild 0 (down shard)
  unfolding down
  down-Stays shard =
      Stays-bind guild 0 (reconnect files others polls fuel guild shard) _
        (reconnect-Stays guild 0 others keeps files polls fuel shard)
        λ u.
          Stays-bind guild 0 (call (sleep 100)) _ (Stays-call guild 0 (sleep 100) refl)
            λ v. Stays-return guild 0 goes_on

  pub with_shard-Finish :
      (shard : ℕ) (t : Task)
      → t.held ≡ []
      → has_entry guild t.bot ≡ true
      → opened t.log ≡ 0 + closed t.log
      → Finish guild (with_shard files others polls fuel guild (some shard) t)
  unfolding with_shard down
  with_shard-Finish shard t h e o =
      let d = t.env t.tick in
      let u = record t { tick = suc t.tick } in
      let v = record u { bot = others u.tick u.bot; tick = suc u.tick } in
      Finish-if guild (can_send shard guild d) _ (down (d.get_shard shard)) u
        (Finish-bind guild 0 (next_song files others polls fuel guild) _ v
          ((next_song-Stays guild 0 others keeps files polls fuel).at v h (keeps u.tick u.bot e) o)
          (play_next-Finish shard))
        (Stay-Finish (down (d.get_shard shard) u) ((down-Stays (d.get_shard shard)).at u h e o))
