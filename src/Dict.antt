-- ===== src/Dict.antt =====
-- `std::map` with numbers as keys (`guildInfos`, `lastBotMessages`, `voiceOccupancy`, and, with unit
-- values, the `std::set` `seededVoiceGuilds` of src/DiscordBotClient.h): an association list in the
-- order of its keys. The laws have no side condition; `IsOrdered` says that a list is such a map.
pub mod Laws
use dpp_bot.Base.{
  ℕ, ◌<◌, Option, none, some, List, [], ◌∷◌, Bool, true, false, ◌==◌, ltb, if◌then◌else◌,
}
use Prim.Native.Nat.{compare, Ordering}

abbrev pub Map {ℓ} : Type ℓ → Type ℓ
Map V = List (ℕ × V)

module _ {ℓ} {V : Type ℓ} where
  -- `find`, with `none` for `end()`.
  unfoldable pub find : ℕ → Map V → Option V
  find k [] = none
  find k ((j, v) ∷ m) = if j == k then some v else find k m

  -- `m[k] = v`.
  unfoldable pub assign : ℕ → V → Map V → Map V
  assign k v [] = (k, v) ∷ []
  assign k v ((j, w) ∷ m) =
      let rest = assign k v m in
      elim (compare k j) [
        | Ordering.lt ↦ (k, v) ∷ (j, w) ∷ m
        | Ordering.eq ↦ (k, v) ∷ m
        | Ordering.gt ↦ (j, w) ∷ rest
      ]

  unfoldable pub keep_or : Option V → Map V → Map V → Map V
  keep_or none m fresh = fresh
  keep_or (some v) m fresh = m

  -- `m.emplace(k, v)`: a key that is there keeps its value.
  unfoldable pub emplace : ℕ → V → Map V → Map V
  unfolding keep_or find assign
  emplace k v m = keep_or (find k m) m (assign k v m)

  unfoldable pub erase : ℕ → Map V → Map V
  erase k [] = []
  erase k ((j, w) ∷ m) = let rest = erase k m in if j == k then rest else (j, w) ∷ rest

  -- A write through the iterator that `find` returned.
  unfoldable pub update : ℕ → (V → V) → Map V → Map V
  update k f [] = []
  update k f ((j, w) ∷ m) =
      let rest = update k f m in if j == k then (j, f w) ∷ m else (j, w) ∷ rest

  -- Keys rise along the list, from above the bound on.
  abbrev pub Above : ℕ → Map V → Type 0
  Above n [] = Unit {0}
  Above n ((k, v) ∷ m) = (n < k) × Above k m

  abbrev pub IsOrdered : Map V → Type 0
  IsOrdered [] = Unit {0}
  IsOrdered ((k, v) ∷ m) = Above k m

  unfoldable pub contains : ℕ → Map V → Bool
  unfolding find
  contains k m = elim (find k m) [ none ↦ false | some v ↦ true ]
