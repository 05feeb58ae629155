-- ===== src/Player/Skipping.antt =====
-- What `!skip` does to the audio thread: to a song that plays, and to one that is still to come.
use dpp_bot.Base.{
  Bool, ℕ, suc, ◌≡◌, refl, true, false, Option, some, [], arith, is_empty, subst, sym, ap, ◌∙◌,
}
use dpp_bot.Text.{Text}
use dpp_bot.Dict.{find}
use dpp_bot.Dict.Laws.{find-update}
use dpp_bot.Guild.{GuildInfo}
use dpp_bot.Task.{M, Task, Bot, Dpp, Message, ◌>>=◌, returns, start, on_info}
use dpp_bot.Task.Endings.{Returns, Returns-bind, Returns-map}
use dpp_bot.Queue.{handle_skip, request_skip}
use dpp_bot.Queue.Laws.{handle_skip_lem}
use dpp_bot.Player.{
  send_frame, Frame, interrupted, after_frame, own_shard, Round, alone, can_send, play_frames,
  play_round, play_song, close_song, look_up, with_shard, next_song, play_next,
}
use dpp_bot.Player.Playing.{audio}
use dpp_bot.Player.Upcoming.{upcoming, upcoming-flags, upcoming-request_skip, next_song-upcoming}
use dpp_bot.Player.Unsent.{Skipped, rest_of_song-Skipped, play_song-Skipped}

module _ (files : Text → Option ℕ) (polls fuel guild : ℕ) where
  with_shard-Skipped :
      (size : ℕ) (t : Task) (info : GuildInfo)
      → find guild t.bot.guild_infos ≡ some info
      → info.should_stop ≡ false
      → info.skip_requested ≡ true
      → ((n : ℕ) → can_send info.shard_id guild (t.env n) ≡ true)
      → is_empty (upcoming info).current_play.file_path ≡ false
      → files (upcoming info).current_play.file_path ≡ some size
      → t.held ≡ []
      → Returns
          (Skipped guild (upcoming info) t)
          (with_shard files alone polls (suc fuel) guild (some info.shard_id) t)
  unfolding with_shard play_next
  with_shard-Skipped size t info known go skip open_voice name f h =
      let u : Task = record t { tick = suc (suc t.tick) } in
      let flags = upcoming-flags info in
      let path = (upcoming info).current_play.file_path in
      rw (open_voice t.tick) (
        Returns-bind
          (λ p v.
            (p ≡ some path)
            × (find guild v.bot.guild_infos ≡ some (upcoming info))
            × (v.log ≡ t.log)
            × (v.env ≡ t.env))
          (Skipped guild (upcoming info) t) (next_song files alone polls (suc fuel) guild)
          (play_next files alone polls (suc fuel) guild info.shard_id) u
          (next_song-upcoming files polls fuel guild u info known go name h)
          λ p v hv c.
            subst
              (λ (x : Option Text).
                Returns (Skipped guild (upcoming info) t)
                  (play_next files alone polls (suc fuel) guild info.shard_id x v))
              (sym c.0)
              (rw name (
                Returns-map (Skipped guild (upcoming info) v) (Skipped guild (upcoming info) t)
                  (λ r w k. (k.0, k.1, k.2 ∙ ap audio c.2))
                  (play_song files alone polls (suc fuel) guild info.shard_id path v)
                  (play_song-Skipped files polls fuel guild info.shard_id size path v
                    (upcoming info) f c.1 (flags.0 ∙ go) (flags.1 ∙ skip) hv))))

  play_round-Skipped :
      (size : ℕ) (t : Task) (info : GuildInfo)
      → find guild t.bot.guild_infos ≡ some info
      → info.should_stop ≡ false
      → info.skip_requested ≡ true
      → ((n : ℕ) → can_send info.shard_id guild (t.env n) ≡ true)
      → is_empty (upcoming info).current_play.file_path ≡ false
      → files (upcoming info).current_play.file_path ≡ some size
      → t.held ≡ []
      → Returns (Skipped guild (upcoming info) t) (play_round files alone polls (suc fuel) guild t)
  unfolding play_round look_up own_shard
  play_round-Skipped size t info known go skip open_voice name f h = ground (
    arith,
    known,
    go,
    with_shard-Skipped size (record t { tick = suc (suc t.tick) }) info known go skip open_voice
        name f h,
  )

module _ (files : Text → Option ℕ) (polls fuel guild shard : ℕ) where
  -- A frame that waits for the connection is given up at once.
  frame_skipped :
      (bytes since : ℕ) (waited : Bool) (t : Task) (info : GuildInfo)
      → find guild t.bot.guild_infos ≡ some info
      → info.skip_requested ≡ true
      → send_frame alone guild shard (suc polls) bytes since waited t
        ≡ returns interrupted (record t { tick = suc t.tick })
  unfolding send_frame
  frame_skipped bytes since waited t info known skip = ground (arith, known, skip)

  -- What becomes of a song from the loop over its frames on, and from the wait of a frame on.
  abbrev pub from_loop : ℕ → ℕ → Text → M Round
  from_loop remaining wait path =
      play_frames alone guild shard (suc polls) (suc fuel) remaining wait
      >>= close_song files alone (suc polls) (suc fuel) guild path

  abbrev pub from_frame : ℕ → ℕ → Bool → ℕ → ℕ → Text → M Round
  from_frame bytes since waited remaining wait path =
      send_frame alone guild shard (suc polls) bytes since waited >>= λ frame.
      after_frame alone guild shard (play_frames alone guild shard (suc polls) (suc fuel) remaining)
        wait frame
      >>= close_song files alone (suc polls) (suc fuel) guild path

  frame_rest-Skipped :
      (bytes since : ℕ) (waited : Bool) (remaining wait : ℕ) (path : Text) (t : Task)
      (info : GuildInfo)
      → find guild t.bot.guild_infos ≡ some info
      → info.should_stop ≡ false
      → info.skip_requested ≡ true
      → t.held ≡ []
      → Returns (Skipped guild info t) (from_frame bytes since waited remaining wait path t)
  unfolding after_frame
  frame_rest-Skipped bytes since waited remaining wait path t info known go skip h =
      let u : Task = record t { tick = suc t.tick } in
      let rest =
        rest_of_song-Skipped files (suc polls) fuel guild shard remaining wait path u info known go
          skip h in
      Returns-bind (λ frame v. (frame ≡ interrupted) × (v ≡ u)) (Skipped guild info t)
        (send_frame alone guild shard (suc polls) bytes since waited) _ t
        (subst (Returns (λ frame v. (frame ≡ interrupted) × (v ≡ u)))
          (sym (frame_skipped bytes since waited t info known skip)) (h, (refl, refl)))
        λ frame v _ e.
          subst
            (λ (f : Frame). Returns (Skipped guild info t) (
              (after_frame alone guild shard
                    (play_frames alone guild shard (suc polls) (suc fuel) remaining) wait f
                  >>= close_song files alone (suc polls) (suc fuel) guild path)
                v))
            (sym e.0)
            (subst (λ (x : Task). Returns (Skipped guild info t) (from_loop remaining wait path x))
              (sym e.1) rest)

-- What is left of a song ends, in front of a frame and in the wait for one.
abbrev pub EndsSong : (t : Task) → ℕ → GuildInfo → (loop frame : M Round) → Type 0
EndsSong t guild info loop frame =
    Returns (Skipped guild info t) (loop t) × Returns (Skipped guild info t) (frame t)

module _ (files : Text → Option ℕ) (polls fuel : ℕ) where
  -- After `!skip` in a guild whose audio thread is not to stop, with no other thread at work and
  -- whatever dpp answers, also while the voice connection is down, a song under way ends: in front of
  -- any frame and in the wait for one, whatever remains of its file, none of it is sent, the thread
  -- goes on, the guild has no current song, even if it repeats, and no skip is pending any more.
  pub handle_skip-EndsSong :
      (env env' : ℕ → Dpp) (b : Bot) (msg : Message) (info : GuildInfo)
      (remaining wait bytes since : ℕ) (waited : Bool) (path : Text)
      → find msg.guild_id b.guild_infos ≡ some info
      → info.should_stop ≡ false
      → Returns
          (λ _ t.
            EndsSong
              (start env' t.bot)
              msg.guild_id
              info
              (from_loop files polls fuel msg.guild_id info.shard_id remaining wait path)
              (from_frame files polls fuel msg.guild_id info.shard_id bytes since waited remaining
                wait path))
          (handle_skip msg (start env b))
  handle_skip-EndsSong env env' b msg info remaining wait bytes since waited path known go =
      let guild = msg.guild_id in
      let t : Task = start env' (on_info guild request_skip b) in
      let known' : find guild t.bot.guild_infos ≡ some (request_skip info) =
        ground (arith, known, find-update guild guild request_skip b.guild_infos) in
      subst
        (Returns (λ _ v.
          EndsSong (start env' v.bot) guild info
            (from_loop files polls fuel guild info.shard_id remaining wait path)
            (from_frame files polls fuel guild info.shard_id bytes since waited remaining wait
              path)))
        (sym (handle_skip_lem env b msg))
        (
          refl,
          (
            rest_of_song-Skipped files (suc polls) fuel guild info.shard_id remaining wait path t
                (request_skip info) known' go refl refl,
            frame_rest-Skipped files polls fuel guild info.shard_id bytes since waited remaining
                wait path t (request_skip info) known' go refl refl,
          ),
        )

  -- After `!skip` in a guild whose audio thread is not to stop and has a song to come, its current one
  -- or else the first of its play list, whose file can be opened: with no other thread at work and
  -- while the voice client can be sent to, the thread's next round takes that song and sends nothing
  -- of it. The thread goes on, the guild has no current song, even if it repeats, and no skip is
  -- pending any more.
  pub handle_skip-Skipped :
      (env env' : ℕ → Dpp) (b : Bot) (msg : Message) (info : GuildInfo) (size : ℕ)
      → find msg.guild_id b.guild_infos ≡ some info
      → info.should_stop ≡ false
      → ((n : ℕ) → can_send info.shard_id msg.guild_id (env' n) ≡ true)
      → is_empty (upcoming info).current_play.file_path ≡ false
      → files (upcoming info).current_play.file_path ≡ some size
      → Returns
          (λ _ t.
            Returns
              (Skipped msg.guild_id (upcoming info) (start env' t.bot))
              (play_round files alone polls (suc fuel) msg.guild_id (start env' t.bot)))
          (handle_skip msg (start env b))
  handle_skip-Skipped env env' b msg info size known go open_voice name f =
      let guild = msg.guild_id in
      let t : Task = start env' (on_info guild request_skip b) in
      let known' : find guild t.bot.guild_infos ≡ some (request_skip info) =
        ground (arith, known, find-update guild guild request_skip b.guild_infos) in
      let next = upcoming-request_skip info in
      subst
        (Returns (λ _ v.
          Returns (Skipped guild (upcoming info) (start env' v.bot))
            (play_round files alone polls (suc fuel) guild (start env' v.bot))))
        (sym (handle_skip_lem env b msg))
        (
          refl,
          Returns-map (Skipped guild (upcoming (request_skip info)) t)
              (Skipped guild (upcoming info) t)
              (λ r u k. subst (λ (i : GuildInfo). Skipped guild i t r u) next k)
              (play_round files alone polls (suc fuel) guild t)
              (play_round-Skipped files polls fuel guild size t (request_skip info) known' go refl
                open_voice
                (subst (λ (i : GuildInfo). is_empty i.current_play.file_path ≡ false) (sym next)
                  name)
                (subst (λ (i : GuildInfo). files i.current_play.file_path ≡ some size) (sym next) f)
                refl),
        )
