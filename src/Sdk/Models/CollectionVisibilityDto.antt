-- ===== src/Sdk/Models/CollectionVisibilityDto.antt =====
-- ui/v1/src/lib/sdk/models/CollectionVisibilityDto.ts
use ragbag.Common.{◌≡◌, refl, String, Bool, true, false, Option, none, some, ◌===◌, ◌||◌}
use ragbag.Sdk.Value.{Value, undefined, text, Dates, wire}
use ragbag.Sdk.Codec.{optional, or_undefined, RoundTrips}

pub data CollectionVisibilityDto : Type 0 where
  private internal public : CollectionVisibilityDto

abbrev pub collection_visibility_dto_text : CollectionVisibilityDto → String
collection_visibility_dto_text private = "PRIVATE"
collection_visibility_dto_text internal = "INTERNAL"
collection_visibility_dto_text public = "PUBLIC"

abbrev pub collection_visibility_dto_value : CollectionVisibilityDto → Value
collection_visibility_dto_value e = text (collection_visibility_dto_text e)

-- `as CollectionVisibilityDto` changes nothing.
unfoldable pub collection_visibility_dto_from_json : Value → Option Value
collection_visibility_dto_from_json json = some json

unfoldable pub collection_visibility_dto_to_json : Value → Option Value
collection_visibility_dto_to_json v = some v

-- The loop over the values of the enumeration, compared by `===`.
unfoldable pub instance_of_collection_visibility_dto : Value → Bool
instance_of_collection_visibility_dto (text s) =
    "PRIVATE" === s || "INTERNAL" === s || "PUBLIC" === s
instance_of_collection_visibility_dto _ = false

module _ (dates : Dates) where
  pub collection_visibility_dto-trips :
      (e : CollectionVisibilityDto)
      → RoundTrips dates collection_visibility_dto_to_json collection_visibility_dto_from_json
          (collection_visibility_dto_value e)
  unfolding collection_visibility_dto_to_json collection_visibility_dto_from_json wire
  collection_visibility_dto-trips e = (collection_visibility_dto_value e, refl, refl)

  pub optional_collection_visibility_dto-trips :
      (o : Option CollectionVisibilityDto)
      → RoundTrips dates collection_visibility_dto_to_json
          (optional collection_visibility_dto_from_json)
          (or_undefined collection_visibility_dto_value o)
  unfolding collection_visibility_dto_to_json collection_visibility_dto_from_json wire
  optional_collection_visibility_dto-trips none = (undefined, refl, refl)
  optional_collection_visibility_dto-trips (some e) =
      (collection_visibility_dto_value e, refl, refl)

pub instance_of_collection_visibility_dto-value :
    (e : CollectionVisibilityDto)
    → instance_of_collection_visibility_dto (collection_visibility_dto_value e) ≡ true
unfolding instance_of_collection_visibility_dto
instance_of_collection_visibility_dto-value private = refl
instance_of_collection_visibility_dto-value internal = refl
instance_of_collection_visibility_dto-value public = refl
