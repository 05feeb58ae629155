-- ===== src/Voice/Grace.antt =====
-- The grace period: when a guild's checks, one after the other, come to a leave.
use dpp_bot.Base.{
  ltb, ℕ, ◌-◌, ◌≤◌, ◌≡◌, refl, true, false, not, ◌||◌, List, [], ◌∷◌, ◌++◌, arith, inl, inr,
  Bool-cases, if◌then◌else◌, ◌⊎◌, All, ap, subst, sym,
}
use dpp_bot.Guild.{GuildInfo, VoiceObservation, seconds}
use dpp_bot.Voice.{judge}
use dpp_bot.Voice.Observing.{IsEmpty}

-- The time of a check and what it saw.
abbrev pub Check : Type 0
Check = ℕ × VoiceObservation

-- A guild that is being left is passed over.
unfoldable pub check_once : ℕ → VoiceObservation → GuildInfo → GuildInfo
unfolding judge
check_once now obs info = if info.leave_pending then info else (judge now obs info).0

-- An entry after checks, the latest first.
unfoldable pub checks : List Check → GuildInfo → GuildInfo
unfolding check_once
checks [] info = info
checks ((now, obs) ∷ older) info = check_once now obs (checks older info)

abbrev pub AllEmpty : List Check → Type 0
AllEmpty = All (λ c. IsEmpty c.1)

-- The checks back to the one at `since` all saw an empty channel.
record EmptyFrom (since : ℕ) (cs : List Check) : Type 0 where
  recent : List Check
  first : VoiceObservation
  before : List Check
  split : cs ≡ recent ++ (since, first) ∷ before
  recent_empty : AllEmpty recent
  first_empty : IsEmpty first

-- Somewhere in the history a check and an earlier one at least ten seconds apart, and all checks
-- between them, saw an empty channel.
pub record LongEmpty (cs : List Check) : Type 0 where
  pub later : List Check
  pub now : ℕ
  pub seen : VoiceObservation
  pub recent : List Check
  pub since : ℕ
  pub first : VoiceObservation
  pub before : List Check
  pub split : cs ≡ later ++ (now, seen) ∷ (recent ++ (since, first) ∷ before)
  pub seen_empty : IsEmpty seen
  pub recent_empty : AllEmpty recent
  pub first_empty : IsEmpty first
  pub long : seconds 10 ≤ now - since

record Tracked (cs : List Check) (info : GuildInfo) : Type 0 where
  pending : info.leave_pending ≡ true → LongEmpty cs
  tracking : info.leave_pending ≡ false → info.empty_tracking ≡ true → EmptyFrom info.empty_since cs

LongEmpty-later : (c : Check) (cs : List Check) → LongEmpty cs → LongEmpty (c ∷ cs)
LongEmpty-later c cs r = record {
  later = c ∷ r.later;
  now = r.now;
  seen = r.seen;
  recent = r.recent;
  since = r.since;
  first = r.first;
  before = r.before;
  split = ap (◌∷◌ c) r.split;
  seen_empty = r.seen_empty;
  recent_empty = r.recent_empty;
  first_empty = r.first_empty;
  long = r.long;
}

EmptyFrom-next :
    (since : ℕ) (c : Check) (cs : List Check)
    → IsEmpty c.1
    → EmptyFrom since cs
    → EmptyFrom since (c ∷ cs)
EmptyFrom-next since c cs h r = record {
  recent = c ∷ r.recent;
  first = r.first;
  before = r.before;
  split = ap (◌∷◌ c) r.split;
  recent_empty = (h, r.recent_empty);
  first_empty = r.first_empty;
}

IsEmpty-cases :
    (obs : VoiceObservation)
    → IsEmpty obs ⊎ ((not obs.known || (not obs.bot_present || ltb 0 obs.humans)) ≡ true)
IsEmpty-cases obs = ground arith

-- What one check may make of an entry that no leave is under way for: it is reset, starts to be
-- tracked, goes on to be tracked, or is to be left.
abbrev Verdict : ℕ → VoiceObservation → GuildInfo → GuildInfo → Type 0
Verdict now obs info after =
    ((after.leave_pending ≡ false) × (after.empty_tracking ≡ false))
    ⊎ (((after.leave_pending ≡ false) × IsEmpty obs × (after.empty_since ≡ now))
        ⊎ (((after.leave_pending ≡ false)
              × IsEmpty obs
              × (info.empty_tracking ≡ true)
              × (after.empty_since ≡ info.empty_since))
            ⊎ (IsEmpty obs
                × (info.empty_tracking ≡ true)
                × (after.leave_pending ≡ true)
                × (seconds 10 ≤ now - info.empty_since))))

judge-Verdict :
    (now : ℕ) (obs : VoiceObservation) (info : GuildInfo)
    → info.leave_pending ≡ false
    → Verdict now obs info (judge now obs info).0
unfolding judge
judge-Verdict now obs info calm = ground (arith, IsEmpty-cases obs)

Verdict-Tracked :
    (now : ℕ) (obs : VoiceObservation) (cs : List Check) (info after : GuildInfo)
    → info.leave_pending ≡ false
    → Tracked cs info
    → Verdict now obs info after
    → Tracked ((now, obs) ∷ cs) after
Verdict-Tracked now obs cs info after calm t (inl (p, e)) = record {
  pending = λ q. cc;
  tracking = λ q r. cc;
}
Verdict-Tracked now obs cs info after calm t (inr (inl (p, empty, since))) = record {
  pending = λ q. cc;
  tracking = λ q r. rw since (record {
    recent = [];
    first = obs;
    before = cs;
    split = refl;
    recent_empty = tt;
    first_empty = empty;
  });
}
Verdict-Tracked now obs cs info after calm t (inr (inr (inl (p, empty, tracked, since)))) = record {
  pending = λ q. cc;
  tracking = λ q r.
      rw since (EmptyFrom-next info.empty_since (now, obs) cs empty (t.tracking calm tracked));
}
Verdict-Tracked now obs cs info after calm t (inr (inr (inr (empty, tracked, p, long)))) = record {
  pending = λ q. LongEmpty-now (t.tracking calm tracked);
  tracking = λ q r. cc;
}
  where
    LongEmpty-now : EmptyFrom info.empty_since cs → LongEmpty ((now, obs) ∷ cs)
    LongEmpty-now e = record {
      later = [];
      now = now;
      seen = obs;
      recent = e.recent;
      since = info.empty_since;
      first = e.first;
      before = e.before;
      split = ap (◌∷◌ (now, obs)) e.split;
      seen_empty = empty;
      recent_empty = e.recent_empty;
      first_empty = e.first_empty;
      long = long;
    }

check_once-Tracked :
    (now : ℕ) (obs : VoiceObservation) (cs : List Check) (info : GuildInfo)
    → Tracked cs info
    → Tracked ((now, obs) ∷ cs) (check_once now obs info)
check_once-Tracked now obs cs info t = elim (Bool-cases info.leave_pending) [
  | inl left ↦ subst (Tracked ((now, obs) ∷ cs)) (sym (passed_over left)) (record {
    pending = λ q. LongEmpty-later (now, obs) cs (t.pending left);
    tracking = λ q r. cc;
  })
  | inr calm ↦ subst (Tracked ((now, obs) ∷ cs)) (sym (judged calm)) (
      Verdict-Tracked now obs cs info (judge now obs info).0 calm t
        (judge-Verdict now obs info calm))
]
  where
    passed_over : info.leave_pending ≡ true → check_once now obs info ≡ info
    passed_over h = unfold check_once in ground arith

    judged : info.leave_pending ≡ false → check_once now obs info ≡ (judge now obs info).0
    judged h = unfold check_once in ground arith

checks-Tracked :
    (cs : List Check) (info : GuildInfo)
    → info.leave_pending ≡ false
    → info.empty_tracking ≡ false
    → Tracked cs (checks cs info)
unfolding checks
checks-Tracked [] info p t = record { pending = λ q. cc; tracking = λ q r. cc }
checks-Tracked ((now, obs) ∷ cs) info p t =
    check_once-Tracked now obs cs (checks cs info) (checks-Tracked cs info p t)

-- A leave comes only after the channel was seen empty at every check over at least ten seconds: an
-- entry that starts with no leave under way and no tracking is to be left only if its checks hold
-- two, ten seconds or more apart, that saw an empty channel, and so did all between them.
pub leave_needs_long_empty :
    (cs : List Check) (info : GuildInfo)
    → info.leave_pending ≡ false
    → info.empty_tracking ≡ false
    → (checks cs info).leave_pending ≡ true
    → LongEmpty cs
leave_needs_long_empty cs info p t h = (checks-Tracked cs info p t).pending h
