-- ===== src/Sdk/Models/RegisterRequest.antt =====
-- ui/v1/src/lib/sdk/models/RegisterRequest.ts
use ragbag.Common.{◌≡◌, refl, String, Bool, true, ◌&&◌, Option, some, List, [], ◌∷◌, if◌then◌else◌}
use ragbag.Sdk.Value.{Value, bool, text, obj, end, field, Dates, is_nullish, prop, wire}
use ragbag.Sdk.Codec.{optional, object, has_field, or_undefined, ModelTrips}
use ragbag.Sdk.Codec.Trips.{Trip, model-trips}
use ragbag.Sdk.Codec.Forms.{same}
use ragbag.Sdk.Codec.Rows.{text_trip, optional_text_trip, optional_bool_trip}

pub record RegisterRequest : Type 0 where
  pub username : String
  pub email : String
  pub password : String
  pub accept_terms : Option Bool
  pub display_name : Option String
  pub invite_token : Option String

-- The object, with undefined for a property that is missing.
abbrev pub register_request_value : RegisterRequest → Value
register_request_value d = obj (
    field "username" (text d.username) (
      field "email" (text d.email) (
        field "password" (text d.password) (
          field "acceptTerms" (or_undefined bool d.accept_terms) (
            field "displayName" (or_undefined text d.display_name)
              (field "inviteToken" (or_undefined text d.invite_token) end))))))

unfoldable pub instance_of_register_request : Value → Bool
instance_of_register_request v =
    has_field v "username" && has_field v "email" && has_field v "password"

unfoldable pub register_request_from_json : Value → Option Value
register_request_from_json json =
    if is_nullish json
    then some json
    else object (
        ("username", same (prop json "username"))
        ∷ ("email", same (prop json "email"))
        ∷ ("password", same (prop json "password"))
        ∷ ("acceptTerms", optional same (prop json "acceptTerms"))
        ∷ ("displayName", optional same (prop json "displayName"))
        ∷ ("inviteToken", optional same (prop json "inviteToken"))
        ∷ [])

unfoldable pub register_request_to_json : Value → Option Value
register_request_to_json v =
    if is_nullish v
    then some v
    else object (
        ("username", same (prop v "username"))
        ∷ ("email", same (prop v "email"))
        ∷ ("password", same (prop v "password"))
        ∷ ("acceptTerms", same (prop v "acceptTerms"))
        ∷ ("displayName", same (prop v "displayName"))
        ∷ ("inviteToken", same (prop v "inviteToken"))
        ∷ [])

-- Sent and read back, a `RegisterRequest` is what it was, and it passes the test for the model.
pub register_request-trips :
    (dates : Dates) (d : RegisterRequest)
    → ModelTrips dates register_request_to_json register_request_from_json
        (register_request_value d)
      × (instance_of_register_request (register_request_value d) ≡ true)
unfolding register_request_to_json register_request_from_json instance_of_register_request wire
register_request-trips dates d =
    let properties : List (Trip dates) =
      text_trip "username" d.username
      ∷ text_trip "email" d.email
      ∷ text_trip "password" d.password
      ∷ optional_bool_trip "acceptTerms" d.accept_terms
      ∷ optional_text_trip "displayName" d.display_name
      ∷ optional_text_trip "inviteToken" d.invite_token
      ∷ [] in
    (model-trips properties refl, refl)
