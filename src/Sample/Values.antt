-- ===== src/Sample/Values.antt =====
-- An instance of the JSON interface, for the tests and the witnesses of src/FileLoader.cpp and of
-- the callbacks: values as a tree, and a parser that knows four bodies.
use dpp_bot.Base.{
  Bool, true, false, Option, none, some, List, [], ◌∷◌, ◌⊎◌, inl, inr, ℤ, if◌then◌else◌,
}
use dpp_bot.Text.{Text, text, text_eq}
use dpp_bot.Json.{JsonLib}

mutual
  pub data Value : Type 0 where
    null_value : Value
    bool_value : Bool → Value
    int_value : ℤ → Value
    string_value : Text → Value
    array_value : Values → Value
    object_value : Members → Value

  pub data Values : Type 0 where
    no_values : Values
    value_then : Value → Values → Values

  pub data Members : Type 0 where
    no_members : Members
    member_then : Text → Value → Members → Members

unfoldable pub look : Text → Members → Option Value
unfolding text_eq
look key no_members = none
look key (member_then name v rest) = if text_eq name key then some v else look key rest

abbrev pub member_of : Value → Text → Option Value
member_of (object_value ms) key = look key ms
member_of _ key = none

abbrev pub is_object : Value → Bool
is_object (object_value ms) = true
is_object _ = false

abbrev pub list_of : Values → List Value
list_of no_values = []
list_of (value_then v vs) = v ∷ list_of vs

abbrev pub elements_of : Value → List Value
elements_of (array_value vs) = list_of vs
elements_of _ = []

abbrev pub as_bool : Value → Text ⊎ Bool
as_bool (bool_value b) = inr b
as_bool _ = inl (text "type_error")

abbrev pub as_int : Value → Text ⊎ ℤ
as_int (int_value n) = inr n
as_int _ = inl (text "type_error")

abbrev pub as_string : Value → Text ⊎ Text
as_string (string_value s) = inr s
as_string _ = inl (text "type_error")

-- `value(key, default)`: it throws on what is no object.
abbrev pub value_or : {A : Type 0} → (Value → Text ⊎ A) → Value → Text → A → Text ⊎ A
value_or read v key default = elim (is_object v) [
  | false ↦ inl (text "type_error")
  | true ↦ elim (member_of v key) [ none ↦ inr default | some w ↦ read w ]
]

-- `{"success": true, "items": [{"localPath": "/songs/3.pcm"}, {}]}`
abbrev pub items_value : Value
items_value = object_value (
    member_then (text "success") (bool_value true) (
      member_then (text "items")
        (array_value (
          value_then
            (object_value
              (member_then (text "localPath") (string_value (text "/songs/3.pcm")) no_members))
            (value_then (object_value no_members) no_values)))
        no_members))

-- `{"success": true, "items": [{"localPath": "/songs/3.pcm"}, false]}`
abbrev pub partial_value : Value
partial_value = object_value (
    member_then (text "success") (bool_value true) (
      member_then (text "items")
        (array_value (
          value_then
            (object_value
              (member_then (text "localPath") (string_value (text "/songs/3.pcm")) no_members))
            (value_then (bool_value false) no_values)))
        no_members))

-- `{"success": true, "local_path": "/songs/3.pcm"}`
abbrev pub video_value : Value
video_value = object_value (
    member_then (text "success") (bool_value true)
      (member_then (text "local_path") (string_value (text "/songs/3.pcm")) no_members))

-- `{"discord_token": "xyz"}`
abbrev pub config_value : Value
config_value =
    object_value (member_then (text "discord_token") (string_value (text "xyz")) no_members)

abbrev pub values : JsonLib
values = record {
  Json = Value;
  null_json = null_value;
  object_json = object_value no_members;
  parse = λ s.
      if text_eq s (text "partial")
      then inr partial_value
      else if text_eq s (text "items")
      then inr items_value
      else if text_eq s (text "video")
      then inr video_value
      else if text_eq s (text "config")
      then inr config_value
      else inl (text "parse_error");
  contains_key = λ v key. elim (member_of v key) [ none ↦ false | some w ↦ true ];
  at = λ v key. elim (member_of v key) [ none ↦ null_value | some w ↦ w ];
  is_array = λ v. elim v [ array_value vs ↦ true | _ ↦ false ];
  elements = elements_of;
  value_bool = value_or as_bool;
  value_int = value_or as_int;
  value_string = value_or as_string;
  value_json = value_or (λ v. inr v);
  get_string = as_string;
}
