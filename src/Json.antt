-- ===== src/Json.antt =====
-- nlohmann::json, which is no part of this repository: the operations that src/FileLoader.cpp and
-- src/DiscordBotClient.cpp use of it, as a parameter of the model. `inl` is an exception, with the
-- text of its `what()`.
use dpp_bot.Base.{Bool, List, ◌⊎◌, inl, inr, ℤ}
use dpp_bot.Text.{Text}
use dpp_bot.Task.{M, returns, throws}

pub record JsonLib : Type 1 where
  pub Json : Type 0
  pub null_json : Json
  pub object_json : Json
  pub parse : Text → Text ⊎ Json
  pub contains_key : Json → Text → Bool
  pub at : Json → Text → Json
  pub is_array : Json → Bool
  pub elements : Json → List Json
  pub value_bool : Json → Text → Bool → Text ⊎ Bool
  pub value_int : Json → Text → ℤ → Text ⊎ ℤ
  pub value_string : Json → Text → Text → Text ⊎ Text
  pub value_json : Json → Text → Json → Text ⊎ Json
  pub get_string : Json → Text ⊎ Text

-- What may throw, inside a method.
abbrev pub lift : {A : Type 0} → Text ⊎ A → M A
lift (inl e) t = throws e t
lift (inr a) t = returns a t
