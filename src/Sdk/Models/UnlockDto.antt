-- ===== src/Sdk/Models/UnlockDto.antt =====
-- ui/v1/src/lib/sdk/models/UnlockDto.ts
use ragbag.Common.{
  ℕ, ◌≡◌, refl, String, Bool, true, ◌&&◌, Option, some, List, [], ◌∷◌, if◌then◌else◌,
}
use ragbag.Sdk.Value.{Value, text, obj, end, field, Dates, is_nullish, prop, wire}
use ragbag.Sdk.Codec.{parse_date_time, serialize_date_time, nullable, object, has_field, ModelTrips}
use ragbag.Sdk.Codec.Trips.{Trip, model-trips}
use ragbag.Sdk.Codec.Forms.{same, instant}
use ragbag.Sdk.Codec.Rows.{text_trip, date_trip}

pub record UnlockDto : Type 0 where
  pub token : String
  pub expires_at : ℕ

-- The object, with undefined for a property that is missing.
abbrev pub unlock_dto_value : UnlockDto → Value
unlock_dto_value d =
    obj (field "token" (text d.token) (field "expiresAt" (instant d.expires_at) end))

unfoldable pub instance_of_unlock_dto : Value → Bool
instance_of_unlock_dto v = has_field v "token" && has_field v "expiresAt"

unfoldable pub unlock_dto_from_json : (dates : Dates) → Value → Option Value
unlock_dto_from_json dates json =
    if is_nullish json
    then some json
    else object (
        ("token", same (prop json "token"))
        ∷ ("expiresAt", nullable (parse_date_time dates) (prop json "expiresAt"))
        ∷ [])

unfoldable pub unlock_dto_to_json : (dates : Dates) → Value → Option Value
unlock_dto_to_json dates v =
    if is_nullish v
    then some v
    else object (
        ("token", same (prop v "token"))
        ∷ ("expiresAt", nullable (serialize_date_time dates) (prop v "expiresAt"))
        ∷ [])

-- Sent and read back, a `UnlockDto` is what it was, and it passes the test for the model.
pub unlock_dto-trips :
    (dates : Dates) (d : UnlockDto)
    → ModelTrips dates (unlock_dto_to_json dates) (unlock_dto_from_json dates) (unlock_dto_value d)
      × (instance_of_unlock_dto (unlock_dto_value d) ≡ true)
unfolding unlock_dto_to_json unlock_dto_from_json instance_of_unlock_dto wire
unlock_dto-trips dates d =
    let properties : List (Trip dates) =
      text_trip "token" d.token ∷ date_trip "expiresAt" d.expires_at ∷ [] in
    (model-trips properties refl, refl)
