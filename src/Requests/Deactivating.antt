-- ===== src/Requests/Deactivating.antt =====
-- Every response to `!delete` is answered, and skips the song only if it was asked to.
use dpp_bot.Base.{
  ℕ, ◌+◌, ◌<◌, ◌≡◌, refl, Bool, true, false, List, [], ◌∷◌, ◌++◌, arith, inl, inr, Bool-cases, ◌⊎◌,
  subst, sym, ◌==◌, if◌then◌else◌,
}
use dpp_bot.Text.{Text, text, to_string}
use dpp_bot.Task.{
  Task, Bot, Dpp, Message, Outcome, Call, M, ◌>>=◌, ◌>>◌, when, returns, throws, deadlock, fault,
  start, message_create, catch, on_info,
}
use dpp_bot.Task.Endings.{Returns}
use dpp_bot.Messages.{send_bot_message}
use dpp_bot.Queue.{handle_skip, request_skip}
use dpp_bot.Queue.Laws.{handle_skip_lem}
use dpp_bot.Json.{JsonLib, lift}
use dpp_bot.FileLoader.{Response, on_response, answer}
use dpp_bot.Requests.Responses.{on_deactivate_response, refused, refusal_text}
use dpp_bot.Requests.Reading.{OnlyReads, OnlyReads-lift, OnlyReads-bind}

-- The messages that were posted in a channel.
abbrev pub posts : ℕ → List Call → ℕ
posts channel [] = 0
posts channel (message_create c s ∷ log) = (if c == channel then 1 else 0) + posts channel log
posts channel (_ ∷ log) = posts channel log

-- The user was told in the command's channel, and the bot is as it was, but for the skip flag if the
-- command asked for a skip.
abbrev pub Told : Message → Bool → Bot → Task → Type 0
Told msg skip b t =
    (0 < posts msg.channel_id t.log)
    × ((t.bot ≡ b) ⊎ ((skip ≡ true) × (t.bot ≡ on_info msg.guild_id request_skip b)))

-- The callback told the user, or threw before it did anything.
abbrev ToldOrThrew : {A : Type 0} → Message → Bool → Task → Outcome A → Type 0
ToldOrThrew msg skip t (returns a u) = (u.held ≡ []) × Told msg skip t.bot u
ToldOrThrew msg skip t (throws e u) = u ≡ t
ToldOrThrew msg skip t (deadlock m) = ⊥
ToldOrThrew msg skip t fault = ⊥

ToldOrThrew-bind :
    {A B : Type 0} (msg : Message) (skip : Bool) (m : M A) (f : A → M B) (t : Task)
    → OnlyReads t (m t)
    → ((a : A) → ToldOrThrew msg skip t (f a t))
    → ToldOrThrew msg skip t ((m >>= f) t)
ToldOrThrew-bind {A} {B} msg skip m f t r k = go (m t) r
  where
    go :
        (o : Outcome A)
        → OnlyReads t o
        → ToldOrThrew msg skip t (elim o [
          | returns a u ↦ f a u
          | throws e u ↦ throws e u
          | deadlock x ↦ deadlock x
          | fault ↦ fault
        ])
    go (returns a u) p = subst (λ v. ToldOrThrew msg skip t (f a v)) (sym p) (k a)
    go (throws e u) p = p
    go (deadlock x) p = absurd p
    go fault p = absurd p

module _ (lib : JsonLib) (env : ℕ → Dpp) (b : Bot) (msg : Message) (skip : Bool) where
  open lib use {Json, null_json, value_bool, value_string, parse}

  says :
      (message : Text)
      → ToldOrThrew msg skip (start env b) (send_bot_message msg.channel_id message (start env b))
  unfolding send_bot_message
  says message = ground arith

  succeeded-Told : ToldOrThrew msg skip (start env b) (
      (when skip (handle_skip msg) >> send_bot_message msg.channel_id (text "추천 비활성화됨"))
        (start env b))
  unfolding send_bot_message
  succeeded-Told = elim (Bool-cases skip) [
    | inl e ↦ ground (arith, handle_skip_lem env b msg)
    | inr e ↦ ground arith
  ]

  refused-Told :
      (json : Json) (err : Text)
      → Returns
          (λ _ t. Told msg skip b t)
          (on_deactivate_response lib msg skip false json err (start env b))
  unfolding on_deactivate_response refused refusal_text send_bot_message
  refused-Told json err = ground arith

  accepted-Told :
      (json : Json)
      → ToldOrThrew msg skip
          (start env b)
          (on_deactivate_response lib msg skip true json [] (start env b))
  unfolding on_deactivate_response refused refusal_text
  accepted-Told json =
      ToldOrThrew-bind msg skip (refused lib true json) _ (start env b)
        (OnlyReads-bind (lift (value_bool json (text "success") false)) _ (start env b)
          (OnlyReads-lift (value_bool json (text "success") false) (start env b)) λ success. refl)
        λ no_success. elim (Bool-cases no_success) [
          | inl e ↦ ground (
            arith,
            ToldOrThrew-bind msg skip (refusal_text lib true json [])
                (λ (message : Text). send_bot_message msg.channel_id (text "오류: " ++ message))
                (start env b)
                (OnlyReads-lift (value_string json (text "error") (text "Unknown error"))
                  (start env b))
                λ message. says (text "오류: " ++ message),
          )
          | inr e ↦ ground (arith, succeeded-Told)
        ]

  attempt-Told :
      (parsed : Text ⊎ Json)
      → Returns
          (λ _ t. Told msg skip b t)
          (catch
            (answer lib (on_deactivate_response lib msg skip) parsed)
            (λ e. on_deactivate_response lib msg skip false null_json (text "JSON 파싱 실패: " ++ e))
            (start env b))
  attempt-Told (inl e) = ground (arith, refused-Told null_json (text "JSON 파싱 실패: " ++ e))
  attempt-Told (inr json) =
      go (on_deactivate_response lib msg skip true json [] (start env b)) (accepted-Told json)
    where
      go :
          (o : Outcome (Unit {0}))
          → ToldOrThrew msg skip (start env b) o
          → Returns
              (λ _ t. Told msg skip b t)
              (elim o [
                | returns a u ↦ returns a u
                | throws e u ↦
                    on_deactivate_response lib msg skip false null_json (text "JSON 파싱 실패: " ++ e) u
                | deadlock x ↦ deadlock x
                | fault ↦ fault
              ])
      go (returns a u) p = p
      go (throws e u) p =
          subst
            (λ (v : Task).
              Returns (λ _ t. Told msg skip b t)
                (on_deactivate_response lib msg skip false null_json (text "JSON 파싱 실패: " ++ e) v))
            (sym p) (refused-Told null_json (text "JSON 파싱 실패: " ++ e))
      go (deadlock x) p = absurd p
      go fault p = absurd p

  -- Every response to `!delete` is handled to the end, whatever its status, body and JSON: no
  -- exception leaves the callback, no lock is kept, a message in the command's channel says how it
  -- went, and the bot is as it was, but that a command with a skip may have set the guild's skip flag.
  pub deactivate_response-Told :
      (response : Response)
      → Returns
          (λ _ t. Told msg skip b t)
          (on_response lib (on_deactivate_response lib msg skip) response (start env b))
  unfolding on_response
  deactivate_response-Told response = ground (
    arith,
    attempt-Told (parse response.body),
    refused-Told null_json (text "서버 응답이 비어있습니다."),
    refused-Told null_json (text "서버 응답 실패 (status " ++ (to_string response.status ++ text ")")),
  )
