-- ===== src/Requests/Reading.antt =====
-- The parts of the callbacks that only read the JSON: they give a value or throw.
use dpp_bot.Base.{
  ◌≡◌, refl, List, [], ◌∷◌, arith, inl, inr, Bool-cases, ◌⊎◌, is_empty, length, int_of_size, subst,
  sym, pos,
}
use dpp_bot.Text.{Text, text}
use dpp_bot.Guild.{VideoDbInfo}
use dpp_bot.Task.{Task, Outcome, M, ◌>>=◌, returns, throws, deadlock, fault}
use dpp_bot.Json.{JsonLib, lift}
use dpp_bot.FileLoader.{parse_video_db_info}
use dpp_bot.Requests.Responses.{
  parse_items, playlist_summary, response_items, list_items, single_item,
}

-- A computation that only reads: it gives a value or throws, and leaves the task alone.
abbrev pub OnlyReads : {A : Type 0} → Task → Outcome A → Type 0
OnlyReads t (returns a u) = u ≡ t
OnlyReads t (throws e u) = u ≡ t
OnlyReads t (deadlock m) = ⊥
OnlyReads t fault = ⊥

pub OnlyReads-lift : {A : Type 0} (r : Text ⊎ A) (t : Task) → OnlyReads t (lift r t)
OnlyReads-lift (inl e) t = refl
OnlyReads-lift (inr a) t = refl

pub OnlyReads-bind :
    {A B : Type 0} (m : M A) (f : A → M B) (t : Task)
    → OnlyReads t (m t)
    → ((a : A) → OnlyReads t (f a t))
    → OnlyReads t ((m >>= f) t)
OnlyReads-bind {A} {B} m f t h k = go (m t) h
  where
    go :
        (o : Outcome A)
        → OnlyReads t o
        → OnlyReads t (elim o [
          | returns a u ↦ f a u
          | throws e u ↦ throws e u
          | deadlock x ↦ deadlock x
          | fault ↦ fault
        ])
    go (returns a u) p = subst (λ v. OnlyReads t (f a v)) (sym p) (k a)
    go (throws e u) p = p
    go (deadlock x) p = absurd p
    go fault p = absurd p

module _ (lib : JsonLib) where
  open lib use {
    Json, value_bool, value_string, contains_key, is_array, at, elements, value_int, value_json,
    object_json, null_json, parse,
  }

  parse_items-OnlyReads : (items : List Json) (t : Task) → OnlyReads t (parse_items lib items t)
  unfolding parse_items
  parse_items-OnlyReads [] t = refl
  parse_items-OnlyReads (item ∷ items) t =
      OnlyReads-bind (lift (parse_video_db_info lib item)) _ t (OnlyReads-lift _ t) λ info.
        OnlyReads-bind (parse_items lib items) _ t (parse_items-OnlyReads items t) λ rest. refl

  playlist_summary-OnlyReads :
      (json : Json) (items : List VideoDbInfo) (t : Task)
      → OnlyReads t (playlist_summary lib json items t)
  unfolding playlist_summary
  playlist_summary-OnlyReads json items t =
      OnlyReads-bind (lift (value_int json (text "total") (int_of_size (length items)))) _ t
        (OnlyReads-lift _ t)
        λ a.
          OnlyReads-bind (lift (value_int json (text "success_count") (int_of_size (length items))))
            _ t (OnlyReads-lift _ t)
            λ b.
              OnlyReads-bind (lift (value_int json (text "failed_count") (pos 0))) _ t
                (OnlyReads-lift _ t) λ c. refl

  single_item-OnlyReads : (json : Json) (t : Task) → OnlyReads t (single_item lib json t)
  unfolding single_item
  single_item-OnlyReads json t =
      OnlyReads-bind (lift (value_json json (text "metadata") object_json)) _ t (OnlyReads-lift _ t)
        λ m. OnlyReads-bind (lift (parse_video_db_info lib m)) _ t (OnlyReads-lift _ t) λ info.
          OnlyReads-bind (lift (value_string json (text "local_path") [])) _ t (OnlyReads-lift _ t)
            λ path. elim (Bool-cases (is_empty path)) [
              | inl e ↦ ground arith
              | inr e ↦ ground arith
            ]

  list_items-OnlyReads : (json : Json) (t : Task) → OnlyReads t (list_items lib json t)
  unfolding list_items
  list_items-OnlyReads json t =
      OnlyReads-bind (parse_items lib (elements (at json (text "list")))) _ t
        (parse_items-OnlyReads _ t)
        λ items.
          OnlyReads-bind (playlist_summary lib json items) _ t
            (playlist_summary-OnlyReads json items t) λ summary. refl

  pub response_items-OnlyReads : (json : Json) (t : Task) → OnlyReads t (response_items lib json t)
  unfolding response_items
  response_items-OnlyReads json t =
      ground (arith, single_item-OnlyReads json t, list_items-OnlyReads json t)
