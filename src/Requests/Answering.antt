-- ===== src/Requests/Answering.antt =====
-- Every response to `!play` and `!first` is answered.
use dpp_bot.Base.{
  ℕ, ◌+◌, ◌<◌, ◌≤◌, ◌≡◌, refl, Bool, true, false, Option, none, some, List, [], ◌∷◌, ◌++◌, arith,
  inl, inr, ◌⊎◌, subst, sym,
}
use dpp_bot.Text.{Text, text, to_string}
use dpp_bot.Guild.{VideoDbInfo}
use dpp_bot.Task.{
  Task, Bot, Dpp, Message, Outcome, Call, M, ◌>>=◌, returns, throws, deadlock, fault, start,
  guild_infos_mutex, delete_own_reaction, catch,
}
use dpp_bot.Task.Endings.{Returns}
use dpp_bot.Messages.{send_bot_message, delete_message}
use dpp_bot.Json.{JsonLib, lift}
use dpp_bot.FileLoader.{Response, on_response, answer}
use dpp_bot.Connection.Ensuring.{ensure-Ensured}
use dpp_bot.Requests.{failed}
use dpp_bot.Requests.Responses.{
  enqueue_batch, report_error, after_success, response_items, enqueue_items, on_enqueue_response,
}
use dpp_bot.Requests.Reading.{OnlyReads, OnlyReads-lift, response_items-OnlyReads}

abbrev pub swaps : List Call → ℕ
swaps [] = 0
swaps (delete_own_reaction m next ∷ log) = 1 + swaps log
swaps (_ ∷ log) = swaps log

-- A response that was handled to the end has swapped the reaction; an exception is left to the
-- caller. No lock is kept.
abbrev Answered : {A : Type 0} → ℕ → Outcome A → Type 0
Answered n (returns a t) = (t.held ≡ []) × (n < swaps t.log)
Answered n (throws e t) = (t.held ≡ []) × (n ≤ swaps t.log)
Answered n (deadlock m) = ⊥
Answered n fault = ⊥

Answered-bind :
    {A B : Type 0} (m : M A) (f : A → M B) (t : Task) (n : ℕ)
    → t.held ≡ []
    → n ≤ swaps t.log
    → OnlyReads t (m t)
    → ((a : A) → Answered n (f a t))
    → Answered n ((m >>= f) t)
Answered-bind {A} {B} m f t n h le r k = go (m t) r
  where
    go :
        (o : Outcome A)
        → OnlyReads t o
        → Answered n (elim o [
          | returns a u ↦ f a u
          | throws e u ↦ throws e u
          | deadlock x ↦ deadlock x
          | fault ↦ fault
        ])
    go (returns a u) p = subst (λ v. Answered n (f a v)) (sym p) (k a)
    go (throws e u) p = subst (λ (v : Task). (v.held ≡ []) × (n ≤ swaps v.log)) (sym p) (h, le)
    go (deadlock x) p = absurd p
    go fault p = absurd p

module _ (lib : JsonLib) where
  open lib use {
    Json, value_bool, value_string, contains_key, is_array, at, elements, value_int, value_json,
    object_json, null_json, parse,
  }

  enqueue_items-Answered :
      (msg : Message) (front : Bool) (batch : List VideoDbInfo × Text) (t : Task)
      → t.held ≡ []
      → Answered (swaps t.log) (enqueue_items lib msg front batch t)
  unfolding enqueue_items send_bot_message delete_message
  enqueue_items-Answered msg front (items, summary) t h =
      let r =
        ensure-Ensured msg.guild_id msg.shard_id 0 (record t { held = guild_infos_mutex ∷ [] }) in
      ground (arith, r.ran, r.held_kept, r.log_kept, r.found)

  enqueue_batch-Answered :
      (msg : Message) (front : Bool) (batch : Option (List VideoDbInfo × Text)) (t : Task)
      → t.held ≡ []
      → Answered (swaps t.log) (enqueue_batch lib msg front batch t)
  unfolding enqueue_batch
  enqueue_batch-Answered msg front none t h = ground arith
  enqueue_batch-Answered msg front (some batch) t h = enqueue_items-Answered msg front batch t h

  report_error-Answered :
      (msg : Message) (json : Json) (t : Task)
      → t.held ≡ []
      → Answered (swaps t.log) (report_error lib msg json t)
  unfolding report_error send_bot_message
  report_error-Answered msg json t h =
      let u = record t { log = delete_own_reaction msg.msg_id failed ∷ t.log } in
      Answered-bind (lift (value_string json (text "error") (text "Unknown error"))) _ u
        (swaps t.log) h (omega arith) (OnlyReads-lift _ u) λ error. ground arith

  read_success-Answered :
      (msg : Message) (front success : Bool) (json : Json) (t : Task)
      → t.held ≡ []
      → Answered (swaps t.log) (after_success lib msg front json success t)
  unfolding after_success
  read_success-Answered msg front false json t h = report_error-Answered msg json t h
  read_success-Answered msg front true json t h =
      Answered-bind (response_items lib json) _ t (swaps t.log) h (omega arith)
        (response_items-OnlyReads lib json t) λ batch. enqueue_batch-Answered msg front batch t h

  on_enqueue_response-Answered :
      (msg : Message) (front ok : Bool) (json : Json) (err : Text) (t : Task)
      → t.held ≡ []
      → Answered (swaps t.log) (on_enqueue_response lib msg front ok json err t)
  unfolding on_enqueue_response
  on_enqueue_response-Answered msg front false json err t h = ground arith
  on_enqueue_response-Answered msg front true json err t h =
      Answered-bind (lift (value_bool json (text "success") false)) _ t (swaps t.log) h
        (omega arith) (OnlyReads-lift _ t)
        λ success. read_success-Answered msg front success json t h

  refused-swaps :
      (msg : Message) (front : Bool) (json : Json) (err : Text) (t : Task)
      → t.held ≡ []
      → Returns
          (λ _ u. swaps t.log < swaps u.log)
          (on_enqueue_response lib msg front false json err t)
  unfolding on_enqueue_response
  refused-swaps msg front json err t h = ground arith

  attempt-swaps :
      (msg : Message) (front : Bool) (parsed : Text ⊎ Json) (t : Task)
      → t.held ≡ []
      → Returns
          (λ _ u. 0 < swaps u.log)
          (catch
            (answer lib (on_enqueue_response lib msg front) parsed)
            (λ e. on_enqueue_response lib msg front false null_json (text "JSON 파싱 실패: " ++ e))
            t)
  attempt-swaps msg front (inl e) t h =
      ground (arith, refused-swaps msg front null_json (text "JSON 파싱 실패: " ++ e) t h)
  attempt-swaps msg front (inr json) t h =
      go (on_enqueue_response lib msg front true json [] t)
        (on_enqueue_response-Answered msg front true json [] t h)
    where
      go :
          (o : Outcome (Unit {0}))
          → Answered (swaps t.log) o
          → Returns
              (λ _ u. 0 < swaps u.log)
              (elim o [
                | returns a u ↦ returns a u
                | throws e u ↦
                    on_enqueue_response lib msg front false null_json (text "JSON 파싱 실패: " ++ e) u
                | deadlock x ↦ deadlock x
                | fault ↦ fault
              ])
      go (returns a u) p = (p.0, omega arith)
      go (throws e u) p =
          ground (arith, refused-swaps msg front null_json (text "JSON 파싱 실패: " ++ e) u)
      go (deadlock x) p = absurd p
      go fault p = absurd p

  -- Every response to `!play` or `!first` is handled to the end, whatever its status, body and JSON:
  -- no exception leaves the callback, no lock is kept, and the "working" reaction is replaced.
  pub enqueue_response_answered :
      (env : ℕ → Dpp) (b : Bot) (msg : Message) (front : Bool) (response : Response)
      → Returns
          (λ _ t. 0 < swaps t.log)
          (on_response lib (on_enqueue_response lib msg front) response (start env b))
  unfolding on_response
  enqueue_response_answered env b msg front response = ground (
    arith,
    attempt-swaps msg front (parse response.body) (start env b) refl,
    refused-swaps msg front null_json (text "서버 응답이 비어있습니다.") (start env b) refl,
    refused-swaps msg front null_json
        (text "서버 응답 실패 (status " ++ (to_string response.status ++ text ")")) (start env b) refl,
  )
