-- ===== src/Routing.antt =====
-- Caller routing of src/hfp_mcp/routing.py, on a configuration that was parsed. What the library
-- `phonenumbers` makes of a number and a region is a parameter.
use hermes_phone_hfp.Prelude.{
  String, Bool, true, false, not, ◌||◌, Option, none, some, List, [], ◌∷◌, any, if◌then◌else◌, ◌≡◌,
  refl, ◌⊎◌, inl, inr, arith, Bool-cases,
}
use hermes_phone_hfp.Prelude.Text.{Text, text_eq}
use hermes_phone_hfp.Prelude.Dict.{lookup, text_equality}
use hermes_phone_hfp.Contracts.Validate.{is_e164, normalize_phone_number}
use hermes_phone_hfp.Contracts.PhoneNumber.{normalized-is_e164, normalize_phone_number-again}

pub record Route : Type 0 where
  pub endpoint : String
  pub policy : String
  pub voice : String
  pub fallback : Option String
  pub continuity : Bool

pub record RoutingConfig : Type 0 where
  pub enabled : Bool
  pub region : String
  pub numbers : List (Text × Route)
  pub default_route : Option Route
  pub blocked : List Text
  pub outbound : Option Route

pub data Reason : Type 0 where
  routing_disabled is_blocked number_match fallback_default unmapped outbound_notes
        outbound_endpoint_required :
      Reason

module _ (phonenumbers : Text → String → Option Text) where
  abbrev normalized_of : RoutingConfig → Option Text → Bool → Option Text
  normalized_of c none presented = none
  normalized_of c (some []) presented = none
  normalized_of c (some number) false = none
  normalized_of c (some number) true = normalize_phone_number phonenumbers c.region number

  abbrev is_in : List Text → Option Text → Bool
  is_in blocked none = false
  is_in blocked (some number) = any (text_eq number) blocked

  abbrev route_of : List (Text × Route) → Option Text → Option Route
  route_of numbers none = none
  route_of numbers (some number) = lookup number numbers

  abbrev default_or_none : Option Route → Option Route × Reason
  default_or_none none = (none, unmapped)
  default_or_none (some route) = (some route, fallback_default)

  abbrev found : Option Route → Option Route → Option Route × Reason
  found (some route) d = (some route, number_match)
  found none d = default_or_none d

  -- `resolve`
  unfoldable pub resolve : RoutingConfig → Option Text → Bool → Option Route × Reason
  resolve c number presented =
      let normalized = normalized_of c number presented in
      if not c.enabled
      then (none, routing_disabled)
      else if is_in c.blocked normalized
      then (none, is_blocked)
      else found (route_of c.numbers normalized) c.default_route

  abbrev outbound_or_none : Option Route → Option Route × Reason
  outbound_or_none none = (none, outbound_endpoint_required)
  outbound_or_none (some route) = (some route, outbound_notes)

  abbrev or_outbound : RoutingConfig → Option Route × Reason → Option Route × Reason
  or_outbound c (some route, reason) = (some route, reason)
  or_outbound c (none, Reason.is_blocked) = (none, Reason.is_blocked)
  or_outbound c (none, Reason.routing_disabled) = (none, Reason.routing_disabled)
  or_outbound c (none, _) = outbound_or_none c.outbound

  abbrev outbound_of : RoutingConfig → Option Text → Option (Option Route × Reason)
  outbound_of c none = none
  outbound_of c (some normalized) = some (or_outbound c (resolve c (some normalized) true))

  -- `resolve_outbound`; none stands for the `ValueError` of a number that is not valid.
  unfoldable pub resolve_outbound : RoutingConfig → Text → Option (Option Route × Reason)
  resolve_outbound c number = outbound_of c (normalize_phone_number phonenumbers c.region number)

  found-route :
      (r d : Option Route) (route : Route) (reason : Reason)
      → found r d ≡ (some route, reason)
      → (r ≡ some route) ⊎ ((r ≡ none) × (d ≡ some route))
  found-route (some r) d route reason e = inl (ground (arith, e))
  found-route none none route reason e = absurd (ground (arith, e))
  found-route none (some d) route reason e = inr (refl, ground (arith, e))

  -- A caller gets a route only where routing is enabled and the normalised number is not blocked,
  -- and the route is the one configured for that number, or the default where there is none.
  pub resolve-route :
      (c : RoutingConfig) (number : Option Text) (presented : Bool) (route : Route)
      (reason : Reason)
      → resolve c number presented ≡ (some route, reason)
      → let normalized = normalized_of c number presented in
        (c.enabled ≡ true)
        × (is_in c.blocked normalized ≡ false)
        × ((route_of c.numbers normalized ≡ some route)
            ⊎ ((route_of c.numbers normalized ≡ none) × (c.default_route ≡ some route)))
  unfolding resolve
  resolve-route c number presented route reason e =
      let normalized = normalized_of c number presented in
      elim (Bool-cases c.enabled) [
        | inr off ↦ absurd (ground (arith, e, off))
        | inl on ↦ elim (Bool-cases (is_in c.blocked normalized)) [
          | inl out ↦ absurd (ground (arith, e, on, out))
          | inr free ↦ (
            on,
            free,
            found-route (route_of c.numbers normalized) c.default_route route reason
                (rw (on, free) at e),
          )
        ]
      ]

  -- The two refusals that no outgoing call overrides, whatever the outbound route is: disabled
  -- routing, and a number whose normalised form is on the list of blocked numbers. The library gives
  -- a number that it has normalised back as it is, in the region of the configuration; the code
  -- normalises a second time.
  pub resolve_outbound-refused :
      (c : RoutingConfig) (number normalized : Text)
      → normalize_phone_number phonenumbers c.region number ≡ some normalized
      → phonenumbers normalized c.region ≡ some normalized
      → (not c.enabled || any (text_eq normalized) c.blocked) ≡ true
      → resolve_outbound c number
        ≡ some (none, (if c.enabled then Reason.is_blocked else Reason.routing_disabled))
  unfolding resolve_outbound resolve is_e164
  resolve_outbound-refused c number [] e kept refused =
      absurd (ground (arith, normalized-is_e164 phonenumbers c.region number [] e))
  resolve_outbound-refused c number (digit ∷ digits) e kept refused =
      let again =
        normalize_phone_number-again phonenumbers c.region number (digit ∷ digits) e kept in
      elim (Bool-cases c.enabled) [
        | inr off ↦ rw (e, off) refl
        | inl on ↦ rw (e, on, again, (rw on at refused)) refl
      ]
