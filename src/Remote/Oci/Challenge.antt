-- ===== src/Remote/Oci/Challenge.antt =====
-- The challenge of a registry: `BearerChallenge` and its parser.
use lazyd.Base.{
  Text, text, text_eq, Bool, false, ◌&&◌, not, Option, none, some, List, [], ◌∷◌, ◌++◌, ◌==◌,
  if◌then◌else◌,
}
use lazyd.Control.{strip_prefix}
use lazyd.Control.Http.{trim, split_once, to_lower, reverse_onto}

pub record BearerChallenge : Type 0 where
  pub realm : Text
  pub service : Option Text
  pub scope : Option Text

-- `as_deref().unwrap_or_default()`
abbrev pub or_empty : Option Text → Text
or_empty none = []
or_empty (some s) = s

unfoldable pub cache_key : BearerChallenge → Text
cache_key c = c.realm ++ (text "|" ++ (or_empty c.service ++ (text "|" ++ or_empty c.scope)))

-- `trim_matches('"')`
unfoldable pub unquote_start : Text → Text
unquote_start [] = []
unquote_start (c ∷ s) = let rest = unquote_start s in if c == b'"' then rest else c ∷ s

unfoldable pub unquote : Text → Text
unquote s = reverse_onto (unquote_start (reverse_onto (unquote_start s) [])) []

unfoldable pub lower : Text → Text
lower [] = []
lower (c ∷ s) = to_lower c ∷ lower s

unfoldable pub push_auth_param : Text → List (Text × Text) → List (Text × Text)
push_auth_param input params = elim (split_once b'=' (trim input)) [
  | none ↦ params
  | some (key, value) ↦ params ++ (lower (trim key), unquote (trim value)) ∷ []
]

-- The loop of `split_auth_params`: the bytes since `start`, backwards, and whether a quotation is
-- open.
unfoldable pub split_from : Text → Bool → Text → List (Text × Text) → List (Text × Text)
split_from piece in_quotes [] params = push_auth_param (reverse_onto piece []) params
split_from piece in_quotes (c ∷ s) params =
    let is_cut = c == b',' && not in_quotes in
    split_from (if is_cut then [] else c ∷ piece) (if c == b'"' then not in_quotes else in_quotes) s
      (if is_cut then push_auth_param (reverse_onto piece []) params else params)

unfoldable pub split_auth_params : Text → List (Text × Text)
split_auth_params input = split_from [] false input []

-- The loop of `parse_bearer_challenge`, where a later value of a key takes the place of an earlier
-- one.
pub record Fields : Type 0 where
  pub realm : Option Text
  pub service : Option Text
  pub scope : Option Text

unfoldable pub set_field : Text → Text → Fields → Fields
set_field key value f =
    if text_eq key (text "realm")
    then record f { realm = some value }
    else if text_eq key (text "service")
    then record f { service = some value }
    else if text_eq key (text "scope")
    then record f { scope = some value }
    else f

unfoldable pub set_fields : List (Text × Text) → Fields → Fields
set_fields [] f = f
set_fields ((key, value) ∷ params) f = set_fields params (set_field key value f)

unfoldable pub challenge_of : Fields → Option BearerChallenge
challenge_of f = elim f.realm [
  | none ↦ none
  | some realm ↦ some (record { realm = realm; service = f.service; scope = f.scope })
]

unfoldable pub parse_bearer_challenge : Text → Option BearerChallenge
parse_bearer_challenge value = elim (strip_prefix (text "Bearer ") (trim value)) [
  | none ↦ none
  | some params ↦ challenge_of (
      set_fields (split_auth_params params) (record { realm = none; service = none; scope = none }))
]
