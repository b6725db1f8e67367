-- ===== src/State/Health.antt =====
-- `set_live_ai_state` and `set_health` of src/hfp_mcp/state.py.
use hermes_phone_hfp.Prelude.{
  String, Bool, true, false, ◌&&◌, none, some, List, [], ◌∷◌, str_eq, ◌==◌, if◌then◌else◌,
}
use hermes_phone_hfp.Prelude.Dict.{lookup, insert, option_eq, string_eq}
use hermes_phone_hfp.State.Types.{LiveValue, Reading, HfpState, publish}

abbrev same_value : LiveValue → LiveValue → Bool
same_value LiveValue.null LiveValue.null = true
same_value (LiveValue.text a) (LiveValue.text b) = str_eq a b
same_value (LiveValue.number a) (LiveValue.number b) = a == b
same_value _ _ = false

-- `self.live_ai.get(key) == value`: a missing key reads as `None`.
abbrev holds : List (String × LiveValue) → String → LiveValue → Bool
holds d key value = elim (lookup key d) [
  | none ↦ same_value LiveValue.null value
  | some old ↦ same_value old value
]

unfoldable pub holds_all : List (String × LiveValue) → List (String × LiveValue) → Bool
holds_all d [] = true
holds_all d ((key, value) ∷ rest) = holds d key value && holds_all d rest

-- `dict.update`
unfoldable pub update :
    List (String × LiveValue) → List (String × LiveValue) → List (String × LiveValue)
update d [] = d
update d ((key, value) ∷ rest) = update (insert key value d) rest

unfoldable pub set_live_ai_state : Reading → List (String × LiveValue) → HfpState → HfpState
unfolding publish holds_all update
set_live_ai_state r values s =
    if holds_all s.live_ai values
    then s
    else publish r (record s { live_ai = update s.live_ai values })

unfoldable pub set_health : Reading → String → String → HfpState → HfpState
unfolding publish
set_health r component value s =
    if option_eq (lookup component s.health) (some value)
    then s
    else publish r (record s { health = insert component value s.health })
