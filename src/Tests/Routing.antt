-- ===== src/Tests/Routing.antt =====
-- The theorems about src/hfp_mcp/routing.py at a configuration with one route and one blocked number.
use hermes_phone_hfp.Prelude.{true, false, none, some, [], ◌∷◌, ◌≡◌, refl, ◌⊎◌}
use hermes_phone_hfp.Prelude.Text.{Text, codes, text_eq}
use hermes_phone_hfp.Prelude.Dict.{lookup}
use hermes_phone_hfp.Hfp.Line.{strip, lstrip, rstrip}
use hermes_phone_hfp.Contracts.Validate.{
  without_library, without_separators, is_e164, normalize_phone_number,
}
use hermes_phone_hfp.Routing.{
  Route, RoutingConfig, Reason, resolve, resolve_outbound, resolve-route, resolve_outbound-refused,
}

abbrev family : Route
family = record {
  endpoint = "home";
  policy = "family";
  voice = "gemini_live";
  fallback = none;
  continuity = false;
}

abbrev known : Text
known = codes "+15550100"

abbrev nuisance : Text
nuisance = codes "+15550199"

abbrev config : RoutingConfig
config = record {
  enabled = true;
  region = "IN";
  numbers = (known, family) ∷ [];
  default_route = none;
  blocked = nuisance ∷ [];
  outbound = some family;
}

resolve-route_example :
    (true ≡ true)
    × (false ≡ false)
    × ((some family ≡ some family) ⊎ ((some family ≡ none) × (config.default_route ≡ some family)))
unfolding resolve normalize_phone_number without_library without_separators is_e164 lookup strip
    lstrip rstrip text_eq
resolve-route_example =
    resolve-route without_library config (some (codes "+1 555-0100")) true family
      Reason.number_match refl

resolve_outbound-refused_example :
    resolve_outbound without_library config (codes "+1 555-0199") ≡ some (none, Reason.is_blocked)
unfolding normalize_phone_number without_library without_separators is_e164 strip lstrip rstrip
    text_eq
resolve_outbound-refused_example =
    resolve_outbound-refused without_library config (codes "+1 555-0199") nuisance refl refl refl
