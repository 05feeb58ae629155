-- ===== src/Player/Recovering.antt =====
-- The rounds of the audio thread while the voice connection is down between two songs.
use dpp_bot.Base.{
  true, ℕ, zero, suc, ◌+◌, ◌-◌, ◌*◌, ◌≤◌, ◌≡◌, ◌≢◌, refl, sym, subst, ◌∙◌, false, Option, some,
  List, [], ◌∷◌, arith, if◌then◌else◌, ltb, ◌==◌, Bool-cases, inl, inr,
}
use dpp_bot.Text.{Text}
use dpp_bot.Dict.{find}
use dpp_bot.Dict.Laws.{find-update}
use dpp_bot.Guild.{GuildInfo, seconds}
use dpp_bot.Task.{◌>>=◌, M, Task, Dpp, Call, Shard, return, connect_voice, on_info, sleep, returns}
use dpp_bot.Task.Endings.{Returns, Returns-bind, Returns-map}
use dpp_bot.Player.{
  own_shard, Round, goes_on, exits, starves, alone, can_send, attempted_at, look_up, with_shard,
  reconnect, play_round, play_audio_thread,
}
use dpp_bot.Player.Playing.{audio}

-- How often a log asks for the guild's connection.
abbrev pub connects : ℕ → List Call → ℕ
connects guild [] = 0
connects guild (connect_voice g channel ∷ log) = (if g == guild then 1 else 0) + connects guild log
connects guild (_ ∷ log) = connects guild log

-- The audio thread between two songs, with no connection that it can send to, in a guild whose
-- channel and shard are known.
pub record IsDown (guild : ℕ) (info : GuildInfo) (t : Task) : Type 0 where
  pub known : find guild t.bot.guild_infos ≡ some info
  pub unlocked : t.held ≡ []
  pub not_stopped : info.should_stop ≡ false
  pub has_channel : info.voice_channel_id ≢ 0
  pub shut : (n : ℕ) → can_send info.shard_id guild (t.env n) ≡ false
  pub has_shard : (n : ℕ) → (s : Shard) × ((t.env n).get_shard info.shard_id ≡ some s)

-- The thread goes on, `asked` more calls ask for the connection, and the entry is as it was but for
-- the time `a` of the last attempt. Attempts are five seconds apart, and at the last look at the clock
-- the last one was no more than five seconds ago.
abbrev pub Paced : ℕ → GuildInfo → Task → Round → Task → Type 0
Paced guild info t r u =
    (a : ℕ) × (asked : ℕ) × (r ≡ goes_on)
    × (find guild u.bot.guild_infos ≡ some (attempted_at a info))
    × (connects guild u.log ≡ asked + connects guild t.log)
    × (info.last_reconnect_attempt + seconds 5 * asked ≤ a)
    × ((u.env (u.tick - 1)).now ≤ a + seconds 5)
    × (audio u.log ≡ audio t.log)
    × (u.env ≡ t.env)

module _ (files : Text → Option ℕ) (polls fuel guild : ℕ) where
  still_down :
      (info : GuildInfo) (t u : Task) (a : ℕ)
      → IsDown guild info t
      → find guild u.bot.guild_infos ≡ some (attempted_at a info)
      → u.held ≡ []
      → u.env ≡ t.env
      → IsDown guild (attempted_at a info) u
  still_down info t u a d known unlocked e = record {
    known = known;
    unlocked = unlocked;
    not_stopped = d.not_stopped;
    has_channel = d.has_channel;
    shut =
        subst (λ (env : ℕ → Dpp). (n : ℕ) → can_send info.shard_id guild (env n) ≡ false) (sym e)
          d.shut;
    has_shard =
        subst
          (λ (env : ℕ → Dpp). (n : ℕ) → (s : Shard) × ((env n).get_shard info.shard_id ≡ some s))
          (sym e) d.has_shard;
  }

  look_up_down :
      (info : GuildInfo) (t : Task)
      → IsDown guild info t
      → look_up files alone polls fuel guild t ≡ returns true t
  unfolding look_up
  look_up_down info t d = ground (arith, d.known, d.not_stopped, d.unlocked)

  -- The task behind a round without a connection.
  abbrev looked : GuildInfo → Task → Task
  looked info t =
      let now = (t.env (suc (suc (suc (suc t.tick))))).now in
      let late = ltb (seconds 5) (now - info.last_reconnect_attempt) in
      record t {
        bot = if late then on_info guild (attempted_at now) t.bot else t.bot;
        log =
            sleep 100 ∷ (if late then connect_voice guild info.voice_channel_id ∷ t.log else t.log);
        tick = suc (suc (suc (suc (suc t.tick))));
      }

  with_shard_down :
      (info : GuildInfo) (t : Task)
      → IsDown guild info t
      → with_shard files alone polls fuel guild
          (some info.shard_id)
          (record t { tick = suc (suc t.tick) })
        ≡ returns goes_on (looked info t)
  unfolding with_shard reconnect
  with_shard_down info t d =
      let s = d.has_shard (suc (suc t.tick)) in
      ground (arith, d.known, d.unlocked, d.shut (suc (suc t.tick)), s.1, d.has_channel)

  play_round_down :
      (info : GuildInfo) (t : Task)
      → IsDown guild info t
      → play_round files alone polls fuel guild t ≡ returns goes_on (looked info t)
  unfolding play_round own_shard
  play_round_down info t d = ground (
    arith,
    look_up_down info (record t { tick = suc t.tick })
        (still_down info t (record t { tick = suc t.tick }) info.last_reconnect_attempt d d.known
          d.unlocked refl),
    with_shard_down info t d,
  )

  looked-Paced :
      (info : GuildInfo) (t : Task)
      → IsDown guild info t
      → Paced guild info t goes_on (looked info t)
  looked-Paced info t d =
      let now = (t.env (suc (suc (suc (suc t.tick))))).now in
      elim (Bool-cases (ltb (seconds 5) (now - info.last_reconnect_attempt))) [
        | inl late ↦ (
          now,
          1,
          refl,
          ground
              (arith, late, d.known, find-update guild guild (attempted_at now) t.bot.guild_infos),
          ground (arith, late),
          ground (arith, late),
          ground (arith, late),
          ground (arith, late),
          ground (arith, late),
        )
        | inr early ↦ (
          info.last_reconnect_attempt,
          0,
          refl,
          ground (arith, early, d.known),
          ground (arith, early),
          ground (arith, early),
          ground (arith, early),
          ground (arith, early),
          ground (arith, early),
        )
      ]

  -- One round, and then others that are paced too.
  Paced-trans :
      (info : GuildInfo) (t u v : Task) (q r : Round) (p : Paced guild info t q u)
      → Paced guild (attempted_at p.0 info) u r v
      → Paced guild info t r v
  Paced-trans info t u v q r (a, n, g, f, c, l, s, b, e) (a', n', g', f', c', l', s', b', e') =
      (a', n' + n, g', f', omega (arith, c, c'), omega (arith, l, l'), s', b' ∙ b, e' ∙ e)

  first_round :
      (info : GuildInfo) (t : Task) (rest : M Round)
      → IsDown guild info t
      → ((u : Task)
          → u.held ≡ []
          → Paced guild info t goes_on u
          → Returns (Paced guild info t) (rest u))
      → Returns (Paced guild info t) (
          (play_round files alone polls fuel guild >>= λ r. elim r as (λ x. M Round) [
            | exits ↦ return exits
            | goes_on ↦ rest
            | starves ↦ return starves
          ])
            t)
  first_round info t rest d k =
      Returns-bind (λ r u. (r ≡ goes_on) × Paced guild info t goes_on u) (Paced guild info t)
        (play_round files alone polls fuel guild) _ t
        (subst (Returns (λ r u. (r ≡ goes_on) × Paced guild info t goes_on u))
          (sym (play_round_down info t d)) (d.unlocked, (refl, looked-Paced info t d)))
        λ r u hu p.
          subst
            (λ (x : Round). Returns (Paced guild info t) (
              elim x as (λ y. M Round) [
                | exits ↦ return exits
                | goes_on ↦ rest
                | starves ↦ return starves
              ]
                u))
            (sym p.0) (k u hu p.1)

  -- While the voice connection of a guild whose channel and shard are known is down, the audio thread,
  -- with no other thread at work and between two songs, goes round with no lock held. In any number
  -- of rounds, one at least, it asks for the connection no more often than once in five seconds, counted
  -- from the last attempt before and not from when the connection went down, so that the first round
  -- asks at once if that attempt is older; when it looks at the clock in the last round, its last attempt is no
  -- more than five seconds old; and the play list, the current song and the flags are as they were, and
  -- no audio was sent.
  pub play_audio_thread-Paced :
      (rounds : ℕ) (info : GuildInfo) (t : Task)
      → IsDown guild info t
      → Returns (Paced guild info t) (play_audio_thread files alone polls fuel guild (suc rounds) t)
  unfolding play_audio_thread
  play_audio_thread-Paced zero info t d =
      first_round info t (play_audio_thread files alone polls fuel guild 0) d λ u hu p. (hu, p)
  play_audio_thread-Paced (suc rounds) info t d =
      first_round info t (play_audio_thread files alone polls fuel guild (suc rounds)) d λ u hu p.
        Returns-map (Paced guild (attempted_at p.0 info) u) (Paced guild info t)
          (λ r v. Paced-trans info t u v goes_on r p)
          (play_audio_thread files alone polls fuel guild (suc rounds) u)
          (play_audio_thread-Paced rounds (attempted_at p.0 info) u
            (still_down info t u p.0 d p.3 hu p.8))
