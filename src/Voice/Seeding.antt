-- ===== src/Voice/Seeding.antt =====
-- The snapshot of a guild and the events that came before it.
use dpp_bot.Base.{
  ℕ, suc, ◌≡◌, refl, true, false, Option, none, some, [], ◌∷◌, arith, inl, inr, Option-cases, ◌==◌,
  if◌then◌else◌, ap,
}
use dpp_bot.Dict.{Map, find, emplace, contains}
use dpp_bot.Dict.Laws.{find-assign, find-emplace, find-nil}
use dpp_bot.Guild.{VoiceMemberInfo}
use dpp_bot.Task.{Task, Bot, Dpp, DppGuild, start}
use dpp_bot.Task.Endings.{Returns, Returns-bind}
use dpp_bot.Voice.{members_of, snapshot_entries, emplace_all, seed, seed_from, ensure_voice_seeded}
use dpp_bot.Voice.Occupancy.{member}

-- The channel of a user in a snapshot of dpp's.
abbrev pub channel_in : ℕ → Map ℕ → Option ℕ
channel_in user [] = none
channel_in user ((u, ch) ∷ ms) =
    if u == user then (if ch == 0 then channel_in user ms else some ch) else channel_in user ms

abbrev pub channel_known : Option VoiceMemberInfo → Option ℕ
channel_known none = none
channel_known (some info) = some info.channel_id

-- What the snapshot's entries say of a user's channel.
EntriesOf : ℕ → Map ℕ → Task → Map VoiceMemberInfo → Task → Type 0
EntriesOf user ms t entries u =
    (channel_known (find user entries) ≡ channel_in user ms) × (u.bot ≡ t.bot)

snapshot_entries-EntriesOf :
    (user : ℕ) (ms : Map ℕ) (t : Task)
    → t.held ≡ []
    → Returns (EntriesOf user ms t) (snapshot_entries ms t)
unfolding snapshot_entries EntriesOf find
snapshot_entries-EntriesOf user [] t h = (h, (refl, refl))
snapshot_entries-EntriesOf user ((u, ch) ∷ ms) t h = ground (
  arith,
  snapshot_entries-EntriesOf user ms t h,
  snapshot_entries-EntriesOf user ms (record t { tick = suc t.tick }) h,
)

-- What is known, and otherwise what comes new.
abbrev pub known_or {ℓ} : {A : Type ℓ} → Option A → Option A → Option A
known_or (some a) new = some a
known_or none new = new

find-emplace_all :
    (user : ℕ) (entries members : Map VoiceMemberInfo)
    → find user (emplace_all entries members) ≡ known_or (find user members) (find user entries)
unfolding emplace_all find
find-emplace_all user [] members = elim (Option-cases (find user members)) [
  | inl e ↦ ground arith
  | inr (i, e) ↦ ground arith
]
find-emplace_all user ((u, i) ∷ entries) members = elim (Option-cases (find user members)) [
  | inl e ↦
      ground
        (arith, find-emplace_all user entries (emplace u i members), find-emplace user u i members)
  | inr (w, e) ↦
      ground
        (arith, find-emplace_all user entries (emplace u i members), find-emplace user u i members)
]

member-seed :
    (guild user : ℕ) (entries : Map VoiceMemberInfo) (b : Bot)
    → member guild user (seed guild entries b) ≡ known_or (member guild user b) (find user entries)
member-seed guild user entries b = elim (Option-cases (find guild b.voice_occupancy)) [
  | inl e ↦ ground (
    arith,
    find-assign guild guild (emplace_all entries (members_of guild b.voice_occupancy))
        b.voice_occupancy,
    find-emplace_all user entries [],
    find-nil {V = VoiceMemberInfo} user,
  )
  | inr (ms, e) ↦ ground (
    arith,
    find-assign guild guild (emplace_all entries (members_of guild b.voice_occupancy))
        b.voice_occupancy,
    find-emplace_all user entries ms,
  )
]

channel_known_or :
    (old new : Option VoiceMemberInfo)
    → channel_known (known_or old new) ≡ known_or (channel_known old) (channel_known new)
channel_known_or none new = refl
channel_known_or (some i) new = refl

abbrev Seeded : ℕ → ℕ → Option ℕ → Bot → Task → Type 0
Seeded guild user new b t =
    (channel_known (member guild user t.bot) ≡ known_or (channel_known (member guild user b)) new)
    × (contains guild t.bot.seeded_voice_guilds ≡ true)

seed-Seeded :
    (guild user : ℕ) (entries : Map VoiceMemberInfo) (b : Bot) (u : Task)
    → u.bot ≡ b
    → Seeded guild user
        (channel_known (find user entries))
        b
        (record u { bot = seed guild entries u.bot })
unfolding contains
seed-Seeded guild user entries b u e = ground (
  arith,
  ap (seed guild entries) e,
  member-seed guild user entries b,
  channel_known_or (member guild user b) (find user entries),
  find-assign guild guild tt b.seeded_voice_guilds,
)

seed_from-Seeded :
    (guild user : ℕ) (g : DppGuild) (t : Task)
    → t.held ≡ []
    → Returns
        (λ _ u. Seeded guild user (channel_in user g.voice_members) t.bot u)
        (seed_from guild g t)
unfolding seed_from EntriesOf
seed_from-Seeded guild user g t h =
    Returns-bind (EntriesOf user g.voice_members t)
      (λ _ u. Seeded guild user (channel_in user g.voice_members) t.bot u)
      (snapshot_entries g.voice_members) _ t (snapshot_entries-EntriesOf user g.voice_members t h)
      λ entries u hu p. ground (arith, seed-Seeded guild user entries t.bot u p.1)

-- The first look at a guild that dpp has in its cache returns with every lock released and marks the
-- guild as seen. Of each user the bot knows then the channel that an event had told it before, and
-- otherwise the one of dpp's snapshot, where the channel 0 means none.
pub ensure_voice_seeded_lem :
    (env : ℕ → Dpp) (b : Bot) (guild user : ℕ) (g : DppGuild)
    → contains guild b.seeded_voice_guilds ≡ false
    → (env 0).find_guild guild ≡ some g
    → Returns
        (λ _ t.
          (channel_known (member guild user t.bot)
            ≡ known_or (channel_known (member guild user b)) (channel_in user g.voice_members))
          × (contains guild t.bot.seeded_voice_guilds ≡ true))
        (ensure_voice_seeded guild (start env b))
unfolding ensure_voice_seeded contains
ensure_voice_seeded_lem env b guild user g fresh cached =
    ground (arith, seed_from-Seeded guild user g (record (start env b) { tick = 1 }) refl)
