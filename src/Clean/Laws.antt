-- ===== src/Clean/Laws.antt =====
-- What `!clean` asks for and what it deletes.
use dpp_bot.Base.{
  ℕ, zero, suc, ◌+◌, ◌*◌, ◌<◌, ◌≤◌, ◌≡◌, refl, false, some, List, [], ◌∷◌, ◌++◌, ltb, inl, inr,
  arith, length, take, drop, length-drop, length-take, take-append-drop, append-nil, append_assoc,
  All, sym, ap, ◌∙◌, Bool-cases, ltb→lt, ◌≡⟨◌⟩◌, ◌∎,
}
use native.Mathlib.Nat.{zero-add, suc-add}
use dpp_bot.Text.{Text}
use dpp_bot.Task.{
  Task, Bot, Dpp, Call, Message, start, messages_get, message_delete, message_delete_bulk,
}
use dpp_bot.Task.Endings.{Returns, Returns-bind, Returns-map}
use dpp_bot.Messages.{send_bot_message}
use dpp_bot.Clean.{clean_count, handle_clean, delete_chunk, delete_chunks, on_messages}

clean_count_pos : (args : Text) → 0 < clean_count args
unfolding clean_count
clean_count_pos args = ground arith

-- How many messages a log asks for.
abbrev pub asked : List Call → List ℕ
asked [] = []
asked (messages_get channel count ∷ log) = count ∷ asked log
asked (_ ∷ log) = asked log

-- `!clean` asks for between one and ten messages, or for none; it never asks for more, whatever its
-- argument, and keeps the bot's state.
pub handle_clean_bounds :
    (env : ℕ → Dpp) (b : Bot) (msg : Message) (args : Text)
    → Returns
        (λ _ t. All (λ n. (1 ≤ n) × (n ≤ 10)) (asked t.log) × (t.bot ≡ b))
        (handle_clean args msg (start env b))
unfolding handle_clean send_bot_message
handle_clean_bounds env b msg args = ground (arith, clean_count_pos args)

-- The messages that a log, latest first, deletes, oldest call first; and the sizes that Discord
-- allows for a deletion in bulk.
abbrev pub deleted : List Call → List ℕ
deleted [] = []
deleted (message_delete id channel ∷ log) = deleted log ++ id ∷ []
deleted (message_delete_bulk ids channel ∷ log) = deleted log ++ ids
deleted (_ ∷ log) = deleted log

abbrev pub IsAllowed : Call → Type 0
IsAllowed (message_delete_bulk ids channel) = (2 ≤ length ids) × (length ids ≤ 100)
IsAllowed _ = Unit

-- From `t` to `u` these messages were deleted, in calls of allowed sizes.
abbrev Deletes : List ℕ → Task → Task → Type 0
Deletes ids t u =
    (deleted u.log ≡ deleted t.log ++ ids)
    × (All IsAllowed t.log → All IsAllowed u.log)
    × (u.bot ≡ t.bot)

delete_chunk-Deletes :
    (channel : ℕ) (ids : List ℕ) (t : Task)
    → t.held ≡ []
    → 0 < length ids
    → length ids ≤ 100
    → Returns (λ _ u. Deletes ids t u) (delete_chunk channel ids t)
unfolding delete_chunk
delete_chunk-Deletes channel [] t h some_ids le = absurd (omega arith)
delete_chunk-Deletes channel (id ∷ []) t h some_ids le = (h, (refl, λ a. (tt, a), refl))
delete_chunk-Deletes channel (id ∷ next ∷ ids) t h some_ids le =
    (h, (refl, λ a. ((omega arith, le), a), refl))

drop-nil : (n : ℕ) → drop {A = ℕ} n [] ≡ []
drop-nil zero = refl
drop-nil (suc n) = refl

drop-drop : (n m : ℕ) (ids : List ℕ) → drop m (drop n ids) ≡ drop (n + m) ids
drop-drop zero m ids = rw zero-add
drop-drop (suc n) m [] = drop-nil m ∙ sym (drop-nil (suc n + m))
drop-drop (suc n) m (id ∷ ids) = rw suc-add (drop-drop n m ids)

drop_all : (n : ℕ) (ids : List ℕ) → length ids ≤ n → drop n ids ≡ []
drop_all zero [] h = refl
drop_all zero (id ∷ ids) h = absurd (omega arith)
drop_all (suc n) [] h = refl
drop_all (suc n) (id ∷ ids) h = drop_all n ids (omega arith)

ge_of_not-ltb : (a b : ℕ) → ltb a b ≡ false → b ≤ a
ge_of_not-ltb a b h = ground arith

delete_chunks-Deletes :
    (fuel channel : ℕ) (ids : List ℕ) (offset : ℕ) (t : Task)
    → t.held ≡ []
    → length ids ≤ offset + 100 * fuel
    → Returns (λ _ u. Deletes (drop offset ids) t u) (delete_chunks fuel channel ids offset t)
unfolding delete_chunks
delete_chunks-Deletes zero channel ids offset t h enough =
    rw (drop_all offset ids (omega arith)) (h, (sym (append-nil _), λ a. a, refl))
delete_chunks-Deletes (suc fuel) channel ids offset t h enough =
    elim (Bool-cases (ltb offset (length ids))) [
      | inr over ↦ rw over (
          rw (drop_all offset ids (ge_of_not-ltb offset (length ids) over))
            (h, (sym (append-nil _), λ a. a, refl)))
      | inl more ↦
          let lt = ltb→lt offset (length ids) more in
          let left = drop offset ids in
          rw more (
            Returns-bind (λ _ u. Deletes (take 100 left) t u) (λ _ u. Deletes left t u)
              (delete_chunk channel (take 100 left)) _ t
              (delete_chunk-Deletes channel (take 100 left) t h
                (omega (arith, length-take 100 left, length-drop offset ids))
                (omega (arith, length-take 100 left)))
              λ _ u hu d.
                Returns-map (λ _ v. Deletes (drop (offset + 100) ids) u v) (λ _ v. Deletes left t v)
                  (λ _ v e. (joined v u d e, λ a. e.1 (d.1 a), e.2 ∙ d.2))
                  (delete_chunks fuel channel ids (offset + 100) u)
                  (delete_chunks-Deletes fuel channel ids (offset + 100) u hu (omega arith)))
    ]
  where
    joined :
        (v u : Task)
        → Deletes (take 100 (drop offset ids)) t u
        → Deletes (drop (offset + 100) ids) u v
        → deleted v.log ≡ deleted t.log ++ drop offset ids
    joined v u d e =
        deleted v.log
        ≡⟨ e.0 ⟩ deleted u.log ++ drop (offset + 100) ids
        ≡⟨ ap (λ (l : List ℕ). l ++ drop (offset + 100) ids) d.0 ⟩
          (deleted t.log ++ take 100 (drop offset ids)) ++ drop (offset + 100) ids
        ≡⟨ append_assoc (deleted t.log) (take 100 (drop offset ids)) (drop (offset + 100) ids) ⟩
          deleted t.log ++ (take 100 (drop offset ids) ++ drop (offset + 100) ids)
        ≡⟨ ap (λ (l : List ℕ). deleted t.log ++ (take 100 (drop offset ids) ++ l))
            (sym (drop-drop offset 100 ids)) ⟩
          deleted t.log ++ (take 100 (drop offset ids) ++ drop 100 (drop offset ids))
        ≡⟨ ap (λ (l : List ℕ). deleted t.log ++ l) (take-append-drop 100 (drop offset ids)) ⟩
          deleted t.log ++ drop offset ids ∎

-- The deletion goes through all messages that Discord listed, each once and in their order, one by
-- itself or two to a hundred in one call, and ends.
pub on_messages_lem :
    (env : ℕ → Dpp) (b : Bot) (channel : ℕ) (ids : List ℕ)
    → Returns
        (λ _ u. (deleted u.log ≡ ids) × All IsAllowed u.log × (u.bot ≡ b))
        (on_messages channel (some ids) (start env b))
unfolding on_messages
on_messages_lem env b channel ids =
    ground
      (arith, delete_chunks-Deletes (length ids) channel ids 0 (start env b) refl (omega arith))
