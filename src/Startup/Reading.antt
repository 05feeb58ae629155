-- ===== src/Startup/Reading.antt =====
-- When the program runs the client, and how often it reads its configuration.
use dpp_bot.Base.{
  ℕ, sym, subst, Sum-cases, ◌≡◌, refl, true, false, Option, none, some, List, [], ◌∷◌, ◌⊎◌, inl,
  inr, ◌↔◌, is_empty, arith,
}
use dpp_bot.Text.{Text, text}
use dpp_bot.Json.{JsonLib}
use dpp_bot.Crash.{Process}
use dpp_bot.Startup.{
  Ending, returned, std_exception, other_exception, Config, get_config, token_of, get_token,
  get_discord_token, run_main, main, report,
}

-- What a text holds for the key, read with no static state.
abbrev pub token_in : (lib : JsonLib) → Text → Option Text → Text ⊎ Text
token_in lib key none = inl (text "config.json not found")
token_in lib key (some source) = elim (lib.parse source) [
  | inl e ↦ inl e
  | inr j ↦ token_of lib key j
]

Ending-cases : (r : Ending (Unit {0})) → (r ≡ returned tt) ⊎ ((report r).0 ≡ 1)
Ending-cases (returned u) = inl refl
Ending-cases (std_exception e) = inr refl
Ending-cases other_exception = inr refl

-- The keys that are asked for, each with the file's text at that moment, and the answers.
abbrev pub ask : (lib : JsonLib) → List (Text × Option Text) → Config lib → List (Text ⊎ Text)
ask lib [] c = []
ask lib ((key, file) ∷ qs) c =
    (get_token lib key file c).0 ∷ ask lib qs (get_token lib key file c).1

abbrev pub answers : (lib : JsonLib) → Option Text → List (Text × Option Text) → List (Text ⊎ Text)
answers lib file [] = []
answers lib file ((key, later) ∷ qs) = token_in lib key file ∷ answers lib file qs

abbrev pub asked_once : (lib : JsonLib) → List (Text × Option Text) → List (Text ⊎ Text)
asked_once lib [] = []
asked_once lib ((key, none) ∷ qs) = inl (text "config.json not found") ∷ asked_once lib qs
asked_once lib ((key, some source) ∷ qs) = elim (lib.parse source) [
  | inl e ↦ inl e ∷ asked_once lib qs
  | inr j ↦ token_of lib key j ∷ answers lib (some source) qs
]

loaded_lem :
    (lib : JsonLib) (source : Text) (j : lib.Json) (qs : List (Text × Option Text))
    → lib.parse source ≡ inr j
    → ask lib qs (record { contents = j; loaded = true }) ≡ answers lib (some source) qs
unfolding get_token get_config
loaded_lem lib source j [] h = refl
loaded_lem lib source j ((key, file) ∷ qs) h = ground (arith, loaded_lem lib source j qs h)

-- The configuration is read until a read succeeds and never again: a question before that is
-- answered from the file as it is then, with the failure if it is missing or no JSON, and every
-- later one from the text that was read first, whatever has become of the file.
pub get_token_lem :
    (lib : JsonLib) (c : Config lib) (qs : List (Text × Option Text))
    → c.loaded ≡ false
    → ask lib qs c ≡ asked_once lib qs
unfolding get_token get_config
get_token_lem lib c [] h = refl
get_token_lem lib c ((key, none) ∷ qs) h = ground (arith, get_token_lem lib c qs h)
get_token_lem lib c ((key, some source) ∷ qs) h = elim (Sum-cases (lib.parse source)) [
  | inl (e, q) ↦ ground (arith, get_token_lem lib c qs h)
  | inr (j, q) ↦ ground (arith, loaded_lem lib source j qs q)
]

first_answer :
    (lib : JsonLib) (key : Text) (file : Option Text)
    → (get_token lib key file (record { contents = lib.null_json; loaded = false })).0
      ≡ token_in lib key file
unfolding get_token get_config
first_answer lib key none = refl
first_answer lib key (some source) = elim (Sum-cases (lib.parse source)) [
  | inl (e, q) ↦ ground arith
  | inr (j, q) ↦ ground arith
]

-- The answer is a token that is not empty, and the client ends with no exception.
abbrev pub Succeeds : (Text → Ending (Unit {0})) → Text ⊎ Text → Type 0
Succeeds run r =
    (token : Text) × (r ≡ inr token) × (is_empty token ≡ false) × (run token ≡ returned tt)

run_main_iff :
    (run : Text → Ending (Unit {0})) (r : Text ⊎ Text) → ((run_main run r).0 ≡ 0) ↔ Succeeds run r
unfolding run_main
run_main_iff run (inl e) = ground arith
run_main_iff run (inr token) = (sound, complete)
  where
    sound : (run_main run (inr token)).0 ≡ 0 → Succeeds run (inr token)
    sound h = elim (Ending-cases (run token)) [
      | inl e ↦ (token, refl, ground arith, e)
      | inr e ↦ absurd (ground arith)
    ]

    complete : Succeeds run (inr token) → (run_main run (inr token)).0 ≡ 0
    complete (t, e, n, r) = ground arith

-- The exit code is 0 exactly when the file holds a token that is not empty and the client, built and
-- run with that token, ends with no exception.
pub main_exit_iff :
    (lib : JsonLib) (run : Text → Ending (Unit {0})) (opened : Option ℕ) (file : Option Text)
    (p : Process)
    → ((main lib run opened file p).0.0 ≡ 0)
      ↔ Succeeds run (token_in lib (text "discord_token") file)
unfolding main get_discord_token
main_exit_iff lib run opened file p =
    subst (λ r. ((run_main run r).0 ≡ 0) ↔ Succeeds run (token_in lib (text "discord_token") file))
      (sym (first_answer lib (text "discord_token") file))
      (run_main_iff run (token_in lib (text "discord_token") file))
