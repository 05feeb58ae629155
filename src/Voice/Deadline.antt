-- ===== src/Voice/Deadline.antt =====
-- The other side of the grace period: a guild whose channel stays empty is left in time.
use dpp_bot.Base.{ℕ, ◌+◌, ◌≤◌, ◌≡◌, true, List, [], ◌∷◌, ◌++◌, arith, ◌⊎◌}
use dpp_bot.Guild.{GuildInfo, VoiceObservation, seconds}
use dpp_bot.Voice.{judge}
use dpp_bot.Voice.Observing.{IsEmpty}
use dpp_bot.Voice.Grace.{Check, checks, check_once, AllEmpty}

-- Tracking goes back at least to `since`.
abbrev Waiting : ℕ → GuildInfo → Type 0
Waiting since info =
    (info.leave_pending ≡ true) ⊎ ((info.empty_tracking ≡ true) × (info.empty_since ≤ since))

judge-Waiting :
    (now since : ℕ) (obs : VoiceObservation) (info : GuildInfo)
    → IsEmpty obs
    → (info.empty_tracking ≡ true)
    → (info.empty_since ≤ since)
    → Waiting since (judge now obs info).0
unfolding judge
judge-Waiting now since obs info e t h = ground arith

judge_first :
    (now : ℕ) (obs : VoiceObservation) (info : GuildInfo)
    → IsEmpty obs
    → (info.empty_tracking ≡ true → info.empty_since ≤ now)
    → Waiting now (judge now obs info).0
unfolding judge
judge_first now obs info e h = ground arith

judge_late :
    (now since : ℕ) (obs : VoiceObservation) (info : GuildInfo)
    → IsEmpty obs
    → info.empty_tracking ≡ true
    → info.empty_since ≤ since
    → since + seconds 10 ≤ now
    → (judge now obs info).0.leave_pending ≡ true
unfolding judge
judge_late now since obs info e t h l = ground arith

checks-Waiting :
    (since : ℕ) (first : VoiceObservation) (recent : List Check) (info : GuildInfo)
    → IsEmpty first
    → AllEmpty recent
    → (info.empty_tracking ≡ true → info.empty_since ≤ since)
    → Waiting since (checks (recent ++ (since, first) ∷ []) info)
unfolding checks check_once
checks-Waiting since first [] info e a h = ground (arith, judge_first since first info e)
checks-Waiting since first ((now, obs) ∷ recent) info e (empty, a) h =
    let before = checks (recent ++ (since, first) ∷ []) info in
    ground (
      arith,
      checks-Waiting since first recent info e a h,
      judge-Waiting now since obs before empty,
    )

-- And it does come then: if a check, one at least ten seconds later, and all between them see an
-- empty channel, the guild is to be left at the later one at the latest, whatever its entry was,
-- unless that is tracked from the future.
pub long_empty_leaves :
    (since now : ℕ) (first seen : VoiceObservation) (recent : List Check) (info : GuildInfo)
    → IsEmpty first
    → AllEmpty recent
    → IsEmpty seen
    → since + seconds 10 ≤ now
    → (info.empty_tracking ≡ true → info.empty_since ≤ since)
    → (checks ((now, seen) ∷ (recent ++ (since, first) ∷ [])) info).leave_pending ≡ true
unfolding checks check_once
long_empty_leaves since now first seen recent info e a empty l h =
    let before = checks (recent ++ (since, first) ∷ []) info in
    ground
      (arith, checks-Waiting since first recent info e a h, judge_late now since seen before empty)
