-- ===== src/Startup.antt =====
-- `main` (src/main.cpp) and the configuration that it reads (src/JsonReader.h).
-- The static variables of `GetConfig` are explicit state; the file's text, nlohmann::json and the
-- run of the client are parameters.
pub mod Reading
mod Tests
use dpp_bot.Base.{
  ℕ, Bool, true, false, Option, none, some, [], ◌++◌, is_empty, ◌⊎◌, inl, inr, if◌then◌else◌,
}
use dpp_bot.Text.{Text, text}
use dpp_bot.Json.{JsonLib}
use dpp_bot.Crash.{Process, install_crash_handler}

-- How a call ends that may throw: a `std::exception` with its `what()`, or something else.
pub data Ending (A : Type 0) : Type 0 where
  returned : A → Ending A
  std_exception : Text → Ending A
  other_exception : Ending A

module _ (lib : JsonLib) where
  -- `data` and `loaded`. A read that throws leaves `loaded` false, and the next one reads again.
  pub record Config : Type 0 where
    pub contents : lib.Json
    pub loaded : Bool

  -- `file` is the text of `config.json` at this moment, `none` where it cannot be opened.
  unfoldable pub get_config : Option Text → Config → (Text ⊎ lib.Json) × Config
  get_config file config = if config.loaded then (inr config.contents, config) else elim file [
    | none ↦ (inl (text "config.json not found"), config)
    | some source ↦ elim (lib.parse source) [
      | inl e ↦ (inl e, config)
      | inr j ↦ (inr j, record { contents = j; loaded = true })
    ]
  ]

  unfoldable pub token_of : Text → lib.Json → Text ⊎ Text
  token_of key j = if lib.contains_key j key then lib.get_string (lib.at j key) else inr []

  unfoldable pub get_token : Text → Option Text → Config → (Text ⊎ Text) × Config
  unfolding get_config token_of
  get_token key file config =
      let r = get_config file config in
      elim r.0 [ inl e ↦ (inl e, r.1) | inr j ↦ (token_of key j, r.1) ]

  unfoldable pub get_discord_token : Option Text → Config → (Text ⊎ Text) × Config
  unfolding get_token
  get_discord_token = get_token (text "discord_token")

-- The exit code and what goes to the standard error; `run` is the client's construction and run.
abbrev pub report : Ending (Unit {0}) → ℕ × Text
report (returned u) = (0, [])
report (std_exception e) = (1, text "Error: " ++ e)
report other_exception = (1, text "Unknown error occurred.")

unfoldable pub run_main : (Text → Ending (Unit {0})) → Text ⊎ Text → ℕ × Text
run_main run (inl e) = report (std_exception e)
run_main run (inr token) =
    if is_empty token then (1, text "Discord token not found.") else report (run token)

-- `opened` is what `open` of the crash log returns; the exit code, what goes to the standard error,
-- and the process with its handler.
unfoldable pub main :
    (lib : JsonLib)
    → (Text → Ending (Unit {0}))
    → (opened : Option ℕ) → (file : Option Text) → Process
    → (ℕ × Text) × Process
unfolding get_discord_token run_main install_crash_handler
main lib run opened file p = (
  run_main run (get_discord_token lib file (record { contents = lib.null_json; loaded = false })).0,
  install_crash_handler opened p,
)
