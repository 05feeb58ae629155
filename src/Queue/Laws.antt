-- ===== src/Queue/Laws.antt =====
-- What each command on a play list does to the bot, on every branch.
use mathlib.Core.List.{Perm}
use mathlib.Core.List.Perm
use dpp_bot.Base.{
  ℕ, zero, suc, ◌≤◌, ◌≡◌, refl, not, Option, none, some, List, [], ◌∷◌, ◌++◌, arith, inl, inr,
  Option-cases, ℤ, pos, take, drop, int_max, length, erase_at, insert_at, int_of_size_small,
}
use dpp_bot.Text.{text, space, find_char, stoi}
use dpp_bot.Dict.{find}
use dpp_bot.Dict.Laws.{update-missing, update-agree, update-update, update-id, find-update}
use dpp_bot.Guild.{GuildInfo, VideoDbInfo}
use dpp_bot.Task.{Task, Bot, Dpp, Message, returns, on_info, start, guild_infos_mutex, bot_of, ◌>>◌}
use dpp_bot.Messages.{send_bot_message}
use dpp_bot.Messages.Laws.{sent, send_bot_message_lem}
use dpp_bot.Queue.{
  handle_skip, request_skip, handle_repeat, set_repeat, shuffle, handle_random, on_videos,
  handle_remove, remove_parsed, remove_video,
}

abbrev under : Task → Task
under t = record t { held = guild_infos_mutex ∷ [] }

-- `!skip` sets the guild's skip flag and nothing else of the bot, whether the guild is known or not.
pub handle_skip_lem :
    (env : ℕ → Dpp) (b : Bot) (msg : Message)
    → handle_skip msg (start env b)
      ≡ returns tt
          (sent msg.channel_id (text "넘김") (start env (on_info msg.guild_id request_skip b)))
unfolding handle_skip
handle_skip_lem env b msg = ground (
  arith,
  update-missing msg.guild_id request_skip b.guild_infos,
  send_bot_message_lem msg.channel_id (text "넘김") (under (start env b)),
  send_bot_message_lem msg.channel_id (text "넘김")
      (under (start env (on_info msg.guild_id request_skip b))),
)

toggle : GuildInfo → GuildInfo
toggle info = record info { repeat_current = not info.repeat_current }

handle_repeat_bot :
    (t : Task) (msg : Message)
    → t.held ≡ []
    → bot_of (handle_repeat msg t) ≡ some (on_info msg.guild_id toggle t.bot)
unfolding handle_repeat toggle send_bot_message
handle_repeat_bot t msg h = elim (Option-cases (find msg.guild_id t.bot.guild_infos)) [
  | inl e ↦ ground (arith, update-missing msg.guild_id toggle t.bot.guild_infos)
  | inr (info, e) ↦ ground (
    arith,
    update-agree msg.guild_id info (set_repeat (not info.repeat_current)) toggle t.bot.guild_infos,
  )
]

insert_at-Perm {ℓ} : {A : Type ℓ} (i : ℕ) (x : A) (xs : List A) → Perm (insert_at i x xs) (x ∷ xs)
insert_at-Perm zero x xs = Perm.refl _
insert_at-Perm (suc i) x [] = Perm.refl _
insert_at-Perm (suc i) x (y ∷ xs) =
    Perm.trans (Perm.cons y (insert_at-Perm i x xs)) (Perm.swap x y xs)

shuffle-Perm {ℓ} : {A : Type ℓ} (ds : List ℕ) (xs : List A) → Perm (shuffle ds xs) xs
unfolding shuffle
shuffle-Perm ds [] = Perm.nil
shuffle-Perm [] (x ∷ xs) = Perm.refl _
shuffle-Perm (d ∷ ds) (x ∷ xs) =
    Perm.trans (insert_at-Perm d x (shuffle ds xs)) (Perm.cons x (shuffle-Perm ds xs))

-- The removal that a command asks for: the `k`-th video, counted from one, if there is one.
abbrev pub removal : Option ℤ → List VideoDbInfo → List VideoDbInfo
removal (some (pos (suc k))) videos = take k videos ++ drop (suc k) videos
removal _ videos = videos

toggle_twice : (info : GuildInfo) → toggle (toggle info) ≡ info
unfolding toggle
toggle_twice info = ground arith

-- `!repeat` given twice leaves the bot as it was, for a known and for an unknown guild.
pub repeat_twice :
    (env : ℕ → Dpp) (b : Bot) (msg : Message)
    → bot_of ((handle_repeat msg >> handle_repeat msg) (start env b)) ≡ some b
unfolding handle_repeat send_bot_message
repeat_twice env b msg = elim (Option-cases (find msg.guild_id b.guild_infos)) [
  | inl e ↦ ground arith
  | inr (info, e) ↦ ground (
    arith,
    find-update msg.guild_id msg.guild_id (set_repeat (not info.repeat_current)) b.guild_infos,
    update-update msg.guild_id (set_repeat (not info.repeat_current))
        (set_repeat (not (not info.repeat_current))) b.guild_infos,
    update-agree msg.guild_id info (set_repeat (not (not info.repeat_current)))
        (λ (i : GuildInfo). i) b.guild_infos,
    update-id msg.guild_id (λ (i : GuildInfo). i) b.guild_infos (λ v. refl),
  )
]

-- `!random` leaves a permutation of the guild's play list and changes nothing else of the bot.
pub handle_random_lem :
    (draws : List ℕ) (env : ℕ → Dpp) (b : Bot) (msg : Message)
    → (bot_of (handle_random draws msg (start env b))
        ≡ some (on_info msg.guild_id (on_videos (shuffle draws)) b))
      × ((videos : List VideoDbInfo) → Perm (shuffle draws videos) videos)
unfolding handle_random send_bot_message
handle_random_lem draws env b msg = (
  elim (Option-cases (find msg.guild_id b.guild_infos)) [
    | inl e ↦ ground (arith, update-missing msg.guild_id (on_videos (shuffle draws)) b.guild_infos)
    | inr (info, e) ↦ ground (
      arith,
      update-agree msg.guild_id info (on_videos (shuffle draws)) (λ (i : GuildInfo). i)
          b.guild_infos,
      update-id msg.guild_id (λ (i : GuildInfo). i) b.guild_infos (λ v. refl),
    )
  ],
  λ videos. shuffle-Perm draws videos,
)

-- The index that `!remove` is given: the number behind the first space.
abbrev pub wanted : Message → Option ℤ
wanted msg =
    let command = drop 1 msg.content in
    elim (find_char space command) [ none ↦ none | some i ↦ stoi (drop (suc i) command) ]

erase_at-removal :
    (k : ℕ) (videos : List VideoDbInfo) → erase_at k videos ≡ take k videos ++ drop (suc k) videos
erase_at-removal zero [] = refl
erase_at-removal zero (v ∷ vs) = refl
erase_at-removal (suc k) [] = refl
erase_at-removal (suc k) (v ∷ vs) = rw (erase_at-removal k vs)

removal_beyond :
    (k : ℕ) (videos : List VideoDbInfo)
    → length videos ≤ k
    → take k videos ++ drop (suc k) videos ≡ videos
removal_beyond zero [] h = refl
removal_beyond zero (v ∷ vs) h = absurd (omega arith)
removal_beyond (suc k) [] h = refl
removal_beyond (suc k) (v ∷ vs) h = rw (removal_beyond k vs (omega arith))

remove_video_bot :
    (env : ℕ → Dpp) (b : Bot) (msg : Message) (k : ℕ)
    → ((info : GuildInfo)
        → find msg.guild_id b.guild_infos ≡ some info
        → length info.video_lists ≤ int_max)
    → bot_of (remove_video msg (pos (suc k)) (start env b))
      ≡ some (on_info msg.guild_id (on_videos (removal (some (pos (suc k))))) b)
unfolding remove_video send_bot_message
remove_video_bot env b msg k small = elim (Option-cases (find msg.guild_id b.guild_infos)) [
  | inl e ↦
      ground (
        arith,
        update-missing msg.guild_id (on_videos (removal (some (pos (suc k))))) b.guild_infos,
      )
  | inr (info, e) ↦ ground (
    arith,
    int_of_size_small (length info.video_lists) (small info e),
    erase_at-removal k info.video_lists,
    removal_beyond k info.video_lists,
    update-agree msg.guild_id info (on_videos (erase_at k))
        (on_videos (removal (some (pos (suc k))))) b.guild_infos,
    update-agree msg.guild_id info (on_videos (removal (some (pos (suc k))))) (λ (i : GuildInfo). i)
        b.guild_infos,
    update-id msg.guild_id (λ (i : GuildInfo). i) b.guild_infos (λ v. refl),
  )
]

remove_parsed_bot :
    (env : ℕ → Dpp) (b : Bot) (msg : Message) (parsed : Option ℤ)
    → ((info : GuildInfo)
        → find msg.guild_id b.guild_infos ≡ some info
        → length info.video_lists ≤ int_max)
    → bot_of (remove_parsed msg parsed (start env b))
      ≡ some (on_info msg.guild_id (on_videos (removal parsed)) b)
unfolding remove_parsed send_bot_message
remove_parsed_bot env b msg (some (pos (suc k))) small =
    ground (arith, remove_video_bot env b msg k small)
remove_parsed_bot env b msg parsed small =
    ground (arith, update-id msg.guild_id (on_videos (removal parsed)) b.guild_infos (λ v. refl))

-- `!remove` takes out the video whose number, counted from one, stands behind the first space, if
-- that is the number of a video in the play list; with no number, a number below one or one beyond
-- the end, and in a guild that is not known, it changes nothing. The list is no longer than the
-- largest `int`.
pub handle_remove_lem :
    (env : ℕ → Dpp) (b : Bot) (msg : Message)
    → ((info : GuildInfo)
        → find msg.guild_id b.guild_infos ≡ some info
        → length info.video_lists ≤ int_max)
    → bot_of (handle_remove msg (start env b))
      ≡ some (on_info msg.guild_id (on_videos (removal (wanted msg))) b)
unfolding handle_remove send_bot_message
handle_remove_lem env b msg small = elim (Option-cases (find_char space (drop 1 msg.content))) [
  | inl e ↦
      ground (arith, update-id msg.guild_id (on_videos (removal none)) b.guild_infos (λ v. refl))
  | inr (i, e) ↦
      ground (arith, remove_parsed_bot env b msg (stoi (drop (suc i) (drop 1 msg.content))) small)
]
