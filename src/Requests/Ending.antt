-- ===== src/Requests/Ending.antt =====
-- With the guild's audio thread running, the response to `!omakase` is handled to its end.
use dpp_bot.Base.{
  ℕ, ◌≡◌, refl, Bool, true, false, not, none, some, List, [], ◌∷◌, ◌++◌, ◌⊎◌, inl, inr, arith,
  Option-cases, if◌then◌else◌,
}
use dpp_bot.Text.{Text}
use dpp_bot.Dict.{find}
use dpp_bot.Dict.Laws.{find-update}
use dpp_bot.Guild.{VideoDbInfo}
use dpp_bot.Task.{
  M, Task, Call, Message, Outcome, returns, throws, deadlock, fault, ◌>>=◌, ◌>>◌, return, done,
  when, catch, call, with_lock, on_info, find_info, guild_infos_mutex, list_mutex, Mutex,
  modify_info,
}
use dpp_bot.Messages.{send_bot_message}
use dpp_bot.Queue.{on_videos, send_list_message}
use dpp_bot.Json.{JsonLib, lift}
use dpp_bot.FileLoader.{Response, answer, on_response, parse_video_db_info}
use dpp_bot.Connection.{ensure_guild_info, start_audio_thread}
use dpp_bot.Connection.Leaving.{has_thread}
use dpp_bot.Connection.Ensuring.{ensure-Ensured}
use dpp_bot.Requests.Responses.{
  push_items, has_items, error_text, omakase_items, on_omakase_response, with_path,
}

module _ (guild : ℕ) where
  -- The method ends with no lock held and the guild's audio thread still running.
  abbrev pub Over : {A : Type 0} → Outcome A → Type 0
  Over (returns a t) = (t.held ≡ []) × (has_thread (find guild t.bot.guild_infos) ≡ true)
  Over (throws e t) = (t.held ≡ []) × (has_thread (find guild t.bot.guild_infos) ≡ true)
  Over (deadlock m) = ⊥
  Over fault = ⊥

  pub record Ending {A : Type 0} (m : M A) : Type 0 where
    pub at :
        (t : Task) → t.held ≡ [] → has_thread (find guild t.bot.guild_infos) ≡ true → Over (m t)

  Ending-return : {A : Type 0} (a : A) → Ending (return a)
  Ending-return a = record { at = λ t h l. (h, l) }

  Ending-call : (c : Call) → Ending (call c)
  Ending-call c = record { at = λ t h l. (h, l) }

  Ending-lift : {A : Type 0} (r : Text ⊎ A) → Ending (lift r)
  Ending-lift (inl e) = record { at = λ t h l. (h, l) }
  Ending-lift (inr a) = record { at = λ t h l. (h, l) }

  Ending-bind :
      {A B : Type 0} (m : M A) (f : A → M B)
      → Ending m
      → ((a : A) → Ending (f a))
      → Ending (m >>= f)
  Ending-bind {A} m f k n = record { at = λ t h l. go (m t) (k.at t h l) }
    where
      go :
          (o : Outcome A)
          → Over o
          → Over (elim o [
            | returns a u ↦ f a u
            | throws e u ↦ throws e u
            | deadlock x ↦ deadlock x
            | fault ↦ fault
          ])
      go (returns a u) p = (n a).at u p.0 p.1
      go (throws e u) p = p
      go (deadlock x) p = absurd p
      go fault p = absurd p

  Ending-if :
      {A : Type 0} (b : Bool) (m n : M A) → Ending m → Ending n → Ending (if b then m else n)
  Ending-if true m n k l = k
  Ending-if false m n k l = l

  Ending-send_bot_message :
      (channel : ℕ) (message : Text) → Ending (send_bot_message channel message)
  unfolding send_bot_message
  Ending-send_bot_message channel message = record { at = λ t h l. ground arith }

  Ending-send_list_message : (channel : ℕ) → Ending (send_list_message channel guild)
  unfolding send_list_message send_bot_message
  Ending-send_list_message channel = record {
    at = λ t h l. elim (Option-cases (find guild t.bot.guild_infos)) [
      | inl e ↦ ground arith
      | inr (info, e) ↦ ground arith
    ];
  }

  -- `StartAudioThread` is not called where the thread runs.
  Ending-started : Ending (
      with_lock guild_infos_mutex do
        it ← find_info guild
        elim it [
          | none ↦ done
          | some info ↦ when (not info.audio_thread) (start_audio_thread guild)
        ])
  Ending-started = record {
    at = λ t h l. elim (Option-cases (find guild t.bot.guild_infos)) [
      | inl e ↦ ground arith
      | inr (info, e) ↦ ground arith
    ];
  }

module _ (lib : JsonLib) (msg : Message) where
  open lib use {Json, at, elements, null_json, parse}

  -- The items are pushed under the locks that are held, as far as they can be read.
  abbrev Pushed : List Mutex → Outcome (Unit {0}) → Type 0
  Pushed held (returns a u) =
      (u.held ≡ held) × (has_thread (find msg.guild_id u.bot.guild_infos) ≡ true)
  Pushed held (throws e u) =
      (u.held ≡ held) × (has_thread (find msg.guild_id u.bot.guild_infos) ≡ true)
  Pushed held (deadlock m) = ⊥
  Pushed held fault = ⊥

  pushed_one :
      (t : Task) (info : VideoDbInfo)
      → has_thread (find msg.guild_id t.bot.guild_infos) ≡ true
      → has_thread (
          find msg.guild_id
            (on_info msg.guild_id
              (on_videos (λ videos. videos ++ with_path lib info []))
              t.bot).guild_infos)
        ≡ true
  pushed_one t info l = elim (Option-cases (find msg.guild_id t.bot.guild_infos)) [
    | inl e ↦ ground (arith)
    | inr (i, e) ↦ ground (
      arith,
      find-update msg.guild_id msg.guild_id
          (on_videos (λ (videos : List VideoDbInfo). videos ++ with_path lib info []))
          t.bot.guild_infos,
    )
  ]

  push_read :
      (r : Text ⊎ VideoDbInfo) (rest : List Json) (t : Task)
      → has_thread (find msg.guild_id t.bot.guild_infos) ≡ true
      → ((u : Task)
          → has_thread (find msg.guild_id u.bot.guild_infos) ≡ true
          → Pushed u.held (push_items lib msg rest u))
      → Pushed t.held (
          (lift r >>= λ info.
          modify_info msg.guild_id (on_videos (λ videos. videos ++ with_path lib info []))
          >> push_items lib msg rest)
            t)
  push_read (inl e) rest t l next = (refl, l)
  push_read (inr info) rest t l next = next _ (pushed_one t info l)

  push_items-Pushed :
      (items : List Json) (t : Task)
      → has_thread (find msg.guild_id t.bot.guild_infos) ≡ true
      → Pushed t.held (push_items lib msg items t)
  unfolding push_items
  push_items-Pushed [] t l = (refl, l)
  push_items-Pushed (item ∷ rest) t l =
      push_read (parse_video_db_info lib item) rest t l λ u. push_items-Pushed rest u

  -- The block under both locks.
  Ending-pushed :
      (items : List Json)
      → Ending msg.guild_id (
          with_lock guild_infos_mutex do
            ensure_guild_info msg.guild_id msg.shard_id
            with_lock (list_mutex msg.guild_id) (push_items lib msg items))
  Ending-pushed items = record {
    at = λ t h l.
        let r =
          ensure-Ensured msg.guild_id msg.shard_id 0 (record t { held = guild_infos_mutex ∷ [] }) in
        let u = record r.after { held = list_mutex msg.guild_id ∷ guild_infos_mutex ∷ [] } in
        ground (
          arith,
          r.ran,
          r.held_kept,
          r.found,
          r.thread_kept,
          push_items-Pushed items u (ground (arith, r.found, r.thread_kept)),
        );
  }

  ruleset ending_rules = (
    Ending-return, Ending-call, Ending-lift, Ending-bind, Ending-if, Ending-send_bot_message,
    Ending-send_list_message, Ending-started, Ending-pushed,
  )

  omakase_items-Ending : (items : List Json) → Ending msg.guild_id (omakase_items lib msg items)
  unfolding omakase_items
  omakase_items-Ending items = search ending_rules depth 12

  has_items-Ending : (ok : Bool) (json : Json) → Ending msg.guild_id (has_items lib ok json)
  unfolding has_items
  has_items-Ending false json = search ending_rules
  has_items-Ending true json = search ending_rules

  error_text-Ending :
      (ok : Bool) (json : Json) (err : Text) → Ending msg.guild_id (error_text lib ok json err)
  unfolding error_text
  error_text-Ending false json err = search ending_rules
  error_text-Ending true json err = search ending_rules

  on_omakase_response-Ending :
      (ok : Bool) (json : Json) (err : Text)
      → Ending msg.guild_id (on_omakase_response lib msg ok json err)
  unfolding on_omakase_response
  on_omakase_response-Ending ok json err =
      search (ending_rules, omakase_items-Ending, has_items-Ending, error_text-Ending) depth 12

  Ending-catch :
      (m : M (Unit {0})) (f : Text → M (Unit {0}))
      → Ending msg.guild_id m
      → ((e : Text) → Ending msg.guild_id (f e))
      → Ending msg.guild_id (catch m f)
  Ending-catch m f k n = record { at = λ t h l. go (m t) (k.at t h l) }
    where
      go :
          (o : Outcome (Unit {0}))
          → Over msg.guild_id o
          → Over msg.guild_id (elim o [
            | returns a u ↦ returns a u
            | throws e u ↦ f e u
            | deadlock x ↦ deadlock x
            | fault ↦ fault
          ])
      go (returns a u) p = p
      go (throws e u) p = (n e).at u p.0 p.1
      go (deadlock x) p = absurd p
      go fault p = absurd p

  answer-Ending :
      (parsed : Text ⊎ Json) → Ending msg.guild_id (answer lib (on_omakase_response lib msg) parsed)
  answer-Ending (inl e) = record { at = λ t h l. (h, l) }
  answer-Ending (inr json) = on_omakase_response-Ending true json []

  -- If the guild's audio thread runs, every response to `!omakase`, whatever its status, body and
  -- JSON, is handled to an end with every lock released, and the thread still runs.
  pub omakase_response-Ending :
      (response : Response)
      → Ending msg.guild_id (on_response lib (on_omakase_response lib msg) response)
  unfolding on_response
  omakase_response-Ending response =
      search (ending_rules, Ending-catch, on_omakase_response-Ending, answer-Ending) depth 12
