-- ===== src/Command/Routing.antt =====
-- Every command is recognised in any case, and its argument reaches the handler as it was typed.
use dpp_bot.Base.{sym, subst, ℕ, false, [], ◌∷◌, ◌++◌, map, ◌≡◌, refl, ◌≢◌, arith, All, String}
use mathlib.Core.List.{map-append}
use dpp_bot.Text.{Text, text, space, to_lower, is_upper, text_eq, starts_with, find_char, has_char}
use dpp_bot.Command.{
  Command, join, leave, skip, list, random, remove, repeat, play, first, omakase, clean, delete,
  args_after_first_space, route, route_lower,
}

-- The words that take an argument, with their short forms, and what they mean.
pub data Verb : Type 0 where
  play_verb p_verb first_verb f_verb omakase_verb remove_verb delete_verb clean_verb : Verb

abbrev pub spelling : Verb → String
spelling play_verb = "play"
spelling p_verb = "p"
spelling first_verb = "first"
spelling f_verb = "f"
spelling omakase_verb = "omakase"
spelling remove_verb = "remove"
spelling delete_verb = "delete"
spelling clean_verb = "clean"

abbrev pub meaning : Verb → Text → Command
meaning play_verb args = play args
meaning p_verb args = play args
meaning first_verb args = first args
meaning f_verb args = first args
meaning omakase_verb args = omakase args
meaning remove_verb args = remove
meaning delete_verb args = delete (has_char b's' (map to_lower args))
meaning clean_verb args = clean args

-- The words that stand alone.
pub data Bare : Type 0 where
  join_bare j_bare leave_bare l_bare skip_bare s_bare omakase_bare list_bare random_bare
        remove_bare :
      Bare
  delete_bare repeat_bare clean_bare : Bare

abbrev pub bare_spelling : Bare → String
bare_spelling join_bare = "join"
bare_spelling j_bare = "j"
bare_spelling leave_bare = "leave"
bare_spelling l_bare = "l"
bare_spelling skip_bare = "skip"
bare_spelling s_bare = "s"
bare_spelling omakase_bare = "omakase"
bare_spelling list_bare = "list"
bare_spelling random_bare = "random"
bare_spelling remove_bare = "remove"
bare_spelling delete_bare = "delete"
bare_spelling repeat_bare = "repeat"
bare_spelling clean_bare = "clean"

abbrev pub bare_meaning : Bare → Command
bare_meaning join_bare = join
bare_meaning j_bare = join
bare_meaning leave_bare = leave
bare_meaning l_bare = leave
bare_meaning skip_bare = skip
bare_meaning s_bare = skip
bare_meaning omakase_bare = omakase []
bare_meaning list_bare = list
bare_meaning random_bare = random
bare_meaning remove_bare = remove
bare_meaning delete_bare = delete false
bare_meaning repeat_bare = repeat
bare_meaning clean_bare = clean []

-- No space, also after a change of case.
abbrev NoSpace : Text → Type 0
NoSpace = All (λ c. c ≢ space)

lower-space : (c : ℕ) → to_lower c ≢ space → c ≢ space
unfolding to_lower is_upper
lower-space c h e = ground arith

lower-NoSpace : (w : Text) → NoSpace (map to_lower w) → NoSpace w
lower-NoSpace [] h = tt
lower-NoSpace (c ∷ w) h = (lower-space c h.0, lower-NoSpace w h.1)

args-word : (w args : Text) → NoSpace w → args_after_first_space (w ++ space ∷ args) ≡ args
unfolding args_after_first_space find_char
args-word [] args h = refl
args-word (c ∷ w) args h = ground (arith, args-word w args h.1)

args-bare : (w : Text) → NoSpace w → args_after_first_space w ≡ []
unfolding args_after_first_space find_char
args-bare [] h = refl
args-bare (c ∷ w) h = ground (arith, args-bare w h.1)

has_char-NoSpace : (w : Text) → has_char space w ≡ false → NoSpace w
unfolding has_char find_char
has_char-NoSpace [] h = tt
has_char-NoSpace (c ∷ w) h = ((λ e. ground arith), has_char-NoSpace w (ground arith))

spelling_has_no_space : (v : Verb) → has_char space (text (spelling v)) ≡ false
unfolding text has_char find_char
spelling_has_no_space play_verb = refl
spelling_has_no_space p_verb = refl
spelling_has_no_space first_verb = refl
spelling_has_no_space f_verb = refl
spelling_has_no_space omakase_verb = refl
spelling_has_no_space remove_verb = refl
spelling_has_no_space delete_verb = refl
spelling_has_no_space clean_verb = refl

bare_spelling_has_no_space : (c : Bare) → has_char space (text (bare_spelling c)) ≡ false
unfolding text has_char find_char
bare_spelling_has_no_space join_bare = refl
bare_spelling_has_no_space j_bare = refl
bare_spelling_has_no_space leave_bare = refl
bare_spelling_has_no_space l_bare = refl
bare_spelling_has_no_space skip_bare = refl
bare_spelling_has_no_space s_bare = refl
bare_spelling_has_no_space omakase_bare = refl
bare_spelling_has_no_space list_bare = refl
bare_spelling_has_no_space random_bare = refl
bare_spelling_has_no_space remove_bare = refl
bare_spelling_has_no_space delete_bare = refl
bare_spelling_has_no_space repeat_bare = refl
bare_spelling_has_no_space clean_bare = refl

route_verb :
    (v : Verb) (lower args : Text)
    → route_lower (text (spelling v) ++ space ∷ lower) args ≡ meaning v args
unfolding route_lower text text_eq starts_with
route_verb play_verb lower args = refl
route_verb p_verb lower args = refl
route_verb first_verb lower args = refl
route_verb f_verb lower args = refl
route_verb omakase_verb lower args = refl
route_verb remove_verb lower args = refl
route_verb delete_verb lower args = refl
route_verb clean_verb lower args = refl

route_bare : (c : Bare) → route_lower (text (bare_spelling c)) [] ≡ bare_meaning c
unfolding route_lower text text_eq starts_with has_char find_char
route_bare join_bare = refl
route_bare j_bare = refl
route_bare leave_bare = refl
route_bare l_bare = refl
route_bare skip_bare = refl
route_bare s_bare = refl
route_bare omakase_bare = refl
route_bare list_bare = refl
route_bare random_bare = refl
route_bare remove_bare = refl
route_bare delete_bare = refl
route_bare repeat_bare = refl
route_bare clean_bare = refl

route_verb_lem :
    (v : Verb) (w args : Text)
    → map to_lower w ≡ text (spelling v)
    → route (w ++ space ∷ args) ≡ meaning v args
unfolding route to_lower is_upper
route_verb_lem v w args h =
    rw
      (
        map-append to_lower w (space ∷ args),
        h,
        args-word w args (
            lower-NoSpace w (
              subst NoSpace (sym h)
                (has_char-NoSpace (text (spelling v)) (spelling_has_no_space v)))),
      )
      (route_verb v (map to_lower args) args)

route_bare_lem :
    (c : Bare) (w : Text) → map to_lower w ≡ text (bare_spelling c) → route w ≡ bare_meaning c
unfolding route
route_bare_lem c w h =
    rw
      (
        h,
        args-bare w (
            lower-NoSpace w (
              subst NoSpace (sym h)
                (has_char-NoSpace (text (bare_spelling c)) (bare_spelling_has_no_space c)))),
      )
      (route_bare c)

-- How a command may be typed: a word in any case with a space and an argument, or a word alone.
pub data IsTyped : Text → Command → Type 0 where
  with_argument :
      (v : Verb) (w args : Text)
      → map to_lower w ≡ text (spelling v)
      → IsTyped (w ++ space ∷ args) (meaning v args)
  by_itself :
      (c : Bare) (w : Text) → map to_lower w ≡ text (bare_spelling c) → IsTyped w (bare_meaning c)

-- A word that takes an argument, typed in any case and followed by a space, is recognised whatever
-- follows, and the handler gets what follows exactly as it was typed, cases and spaces included
-- (`delete` looks for an `s` or an `S` in it, `remove` does not use it). A word that stands alone,
-- typed in any case, is recognised, and a handler that takes an argument gets the empty one.
pub route_typed : (t : Text) (c : Command) → IsTyped t c → route t ≡ c
route_typed _ _ (with_argument v w args h) = route_verb_lem v w args h
route_typed _ _ (by_itself c w h) = route_bare_lem c w h
