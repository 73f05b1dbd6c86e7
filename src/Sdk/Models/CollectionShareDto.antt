-- ===== src/Sdk/Models/CollectionShareDto.antt =====
-- ui/v1/src/lib/sdk/models/CollectionShareDto.ts
use ragbag.Common.{ℕ, ◌≡◌, refl, String, Bool, true, Option, some, List, [], ◌∷◌, if◌then◌else◌}
use ragbag.Sdk.Value.{Value, bool, text, obj, end, field, Dates, is_nullish, prop, wire}
use ragbag.Sdk.Codec.{
  parse_date_time, serialize_date_time, optional, nullable, object, has_field, or_undefined,
  ModelTrips,
}
use ragbag.Sdk.Codec.Trips.{Trip, model-trips}
use ragbag.Sdk.Codec.Forms.{same, instant}
use ragbag.Sdk.Codec.Rows.{bool_trip, optional_text_trip, optional_bool_trip, optional_date_trip}

pub record CollectionShareDto : Type 0 where
  pub shared : Bool
  pub token : Option String
  pub created_at : Option ℕ
  pub disabled : Option Bool
  pub disabled_reason : Option String

-- The object, with undefined for a property that is missing.
abbrev pub collection_share_dto_value : CollectionShareDto → Value
collection_share_dto_value d = obj (
    field "shared" (bool d.shared) (
      field "token" (or_undefined text d.token) (
        field "createdAt" (or_undefined instant d.created_at) (
          field "disabled" (or_undefined bool d.disabled)
            (field "disabledReason" (or_undefined text d.disabled_reason) end)))))

unfoldable pub instance_of_collection_share_dto : Value → Bool
instance_of_collection_share_dto v = has_field v "shared"

unfoldable pub collection_share_dto_from_json : (dates : Dates) → Value → Option Value
collection_share_dto_from_json dates json =
    if is_nullish json
    then some json
    else object (
        ("shared", same (prop json "shared"))
        ∷ ("token", optional same (prop json "token"))
        ∷ ("createdAt", optional (parse_date_time dates) (prop json "createdAt"))
        ∷ ("disabled", optional same (prop json "disabled"))
        ∷ ("disabledReason", optional same (prop json "disabledReason"))
        ∷ [])

unfoldable pub collection_share_dto_to_json : (dates : Dates) → Value → Option Value
collection_share_dto_to_json dates v =
    if is_nullish v
    then some v
    else object (
        ("shared", same (prop v "shared"))
        ∷ ("token", same (prop v "token"))
        ∷ ("createdAt", nullable (serialize_date_time dates) (prop v "createdAt"))
        ∷ ("disabled", same (prop v "disabled"))
        ∷ ("disabledReason", same (prop v "disabledReason"))
        ∷ [])

-- Sent and read back, a `CollectionShareDto` is what it was, and it passes the test for the model.
pub collection_share_dto-trips :
    (dates : Dates) (d : CollectionShareDto)
    → ModelTrips dates
        (collection_share_dto_to_json dates)
        (collection_share_dto_from_json dates)
        (collection_share_dto_value d)
      × (instance_of_collection_share_dto (collection_share_dto_value d) ≡ true)
unfolding collection_share_dto_to_json collection_share_dto_from_json
    instance_of_collection_share_dto wire
collection_share_dto-trips dates d =
    let properties : List (Trip dates) =
      bool_trip "shared" d.shared
      ∷ optional_text_trip "token" d.token
      ∷ optional_date_trip "createdAt" d.created_at
      ∷ optional_bool_trip "disabled" d.disabled
      ∷ optional_text_trip "disabledReason" d.disabled_reason
      ∷ [] in
    (model-trips properties refl, refl)
