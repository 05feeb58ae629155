-- ===== src/Voice/Departing.antt =====
-- A voice event that tells of the last person in the bot's channel leaving it.
use dpp_bot.Base.{
  ℕ, ◌≤◌, ◌≡◌, true, some, [], ◌∷◌, arith, inl, inr, Bool-cases, ◌==◌, ◌≢◌, ◌⊎◌, All,
}
use dpp_bot.Dict.{Map, find, contains, assign, erase, Above, IsOrdered}
use dpp_bot.Dict.Laws.{find-assign, find-erase, find-update, Above-IsOrdered}
use dpp_bot.Guild.{VoiceMemberInfo}
use dpp_bot.Task.{Bot, Dpp, start}
use dpp_bot.Task.Endings.{Returns}
use dpp_bot.Voice.{VoiceState, on_voice_state_update, enter, exit, cached_bot}
use dpp_bot.Voice.Observing.{IsNobody, IsAlone}

module _ (user : ℕ) (P : ℕ × VoiceMemberInfo → Type 0) where
  -- Everybody but the user.
  abbrev pub Others : Map VoiceMemberInfo → Type 0
  Others = All (λ e. (e.0 ≡ user) ⊎ P e)

  Others-Above : (n : ℕ) (m : Map VoiceMemberInfo) → user ≤ n → Above n m → Others m → All P m
  Others-Above n [] h a o = tt
  Others-Above n ((k, v) ∷ m) h a (inl e, o) = absurd (omega (arith, a.0, e))
  Others-Above n ((k, v) ∷ m) h a (inr p, o) = (p, Others-Above k m (omega (arith, a.0)) a.1 o)

  All-erase : (m : Map VoiceMemberInfo) → Others m → All P (erase user m)
  unfolding erase
  All-erase [] o = tt
  All-erase ((k, v) ∷ m) (inl e, o) = ground (arith, e, All-erase m o)
  All-erase ((k, v) ∷ m) (inr p, o) = ground (arith, p, All-erase m o)

  All-assign :
      (info : VoiceMemberInfo) (m : Map VoiceMemberInfo)
      → P (user, info)
      → IsOrdered m
      → Others m
      → All P (assign user info m)
  unfolding assign
  All-assign info [] p a o = (p, tt)
  All-assign info ((k, v) ∷ m) p a (inl e, o) =
      ground (arith, e, p, Others-Above k m (omega (arith, e)) a o)
  All-assign info ((k, v) ∷ m) p a (inr q, o) =
      ground (arith, p, q, Others-Above k m, All-assign info m p (Above-IsOrdered k m a) o)

-- The event tells that a user is not in the bot's channel, and of those whom the bot knows to be
-- there, no other one is a person.
pub record Deserts (me : ℕ) (st : VoiceState) (b : Bot) : Type 0 where
  pub members : Map VoiceMemberInfo
  pub self : VoiceMemberInfo
  pub has_number : me ≢ 0
  pub of_guild : st.guild_id ≢ 0
  pub of_user : st.user_id ≢ 0
  pub of_another : st.user_id ≢ me
  pub elsewhere : st.channel_id ≢ self.channel_id
  pub seen : contains st.guild_id b.seeded_voice_guilds ≡ true
  pub found : find st.guild_id b.voice_occupancy ≡ some members
  pub in_order : IsOrdered members
  pub here : find me members ≡ some self
  pub nobody_else : Others st.user_id (IsNobody me self.channel_id) members

-- After it the bot is alone in its channel, and the guilds' entries are as they were.
pub on_voice_state_update-IsAlone :
    (env : ℕ → Dpp) (b : Bot) (me : ℕ) (st : VoiceState)
    → Deserts me st b
    → Returns
        (λ _ t. IsAlone me st.guild_id t.bot × (t.bot.guild_infos ≡ b.guild_infos))
        (on_voice_state_update st (start env b))
unfolding on_voice_state_update
on_voice_state_update-IsAlone env b me st d = elim (Bool-cases (st.channel_id == 0)) [
  | inl gone ↦
      let left : IsAlone me st.guild_id (exit st.guild_id st.user_id b) = (
        erase st.user_id d.members,
        d.self,
        d.has_number,
        d.seen,
        ground (
          arith,
          d.found,
          find-update st.guild_id st.guild_id (erase st.user_id) b.voice_occupancy,
        ),
        ground (arith, d.here, d.of_another, find-erase me st.user_id d.members),
        All-erase st.user_id (IsNobody me d.self.channel_id) d.members d.nobody_else,
      ) in
      ground (arith, gone, d.of_guild, d.of_user, left)
  | inr moved ↦
      let info : VoiceMemberInfo = record {
        channel_id = st.channel_id;
        is_bot = cached_bot ((env 0).find_user st.user_id);
      } in
      let went : IsAlone me st.guild_id (enter st.guild_id st.user_id info b) = (
        assign st.user_id info d.members,
        d.self,
        d.has_number,
        d.seen,
        ground (
          arith,
          d.found,
          find-assign st.guild_id st.guild_id (assign st.user_id info d.members) b.voice_occupancy,
        ),
        ground (arith, d.here, d.of_another, find-assign me st.user_id info d.members),
        All-assign st.user_id (IsNobody me d.self.channel_id) info d.members (inr (inr d.elsewhere))
            d.in_order d.nobody_else,
      ) in
      ground (arith, moved, d.of_guild, d.of_user, went)
]
