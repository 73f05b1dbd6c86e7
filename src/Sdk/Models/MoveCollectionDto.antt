-- ===== src/Sdk/Models/MoveCollectionDto.antt =====
-- ui/v1/src/lib/sdk/models/MoveCollectionDto.ts
use ragbag.Common.{◌≡◌, refl, String, Bool, true, Option, some, List, [], ◌∷◌, if◌then◌else◌}
use ragbag.Sdk.Value.{Value, text, obj, end, field, Dates, is_nullish, prop, wire}
use ragbag.Sdk.Codec.{optional, object, or_undefined, ModelTrips}
use ragbag.Sdk.Codec.Trips.{Trip, model-trips}
use ragbag.Sdk.Codec.Forms.{same}
use ragbag.Sdk.Codec.Rows.{optional_text_trip}

pub record MoveCollectionDto : Type 0 where
  pub parent_id : Option String
  pub before_id : Option String

-- The object, with undefined for a property that is missing.
abbrev pub move_collection_dto_value : MoveCollectionDto → Value
move_collection_dto_value d = obj (
    field "parentId" (or_undefined text d.parent_id)
      (field "beforeId" (or_undefined text d.before_id) end))

unfoldable pub instance_of_move_collection_dto : Value → Bool
instance_of_move_collection_dto v = true

unfoldable pub move_collection_dto_from_json : Value → Option Value
move_collection_dto_from_json json =
    if is_nullish json
    then some json
    else object (
        ("parentId", optional same (prop json "parentId"))
        ∷ ("beforeId", optional same (prop json "beforeId"))
        ∷ [])

unfoldable pub move_collection_dto_to_json : Value → Option Value
move_collection_dto_to_json v =
    if is_nullish v
    then some v
    else object
        (("parentId", same (prop v "parentId")) ∷ ("beforeId", same (prop v "beforeId")) ∷ [])

-- Sent and read back, a `MoveCollectionDto` is what it was, and it passes the test for the model.
pub move_collection_dto-trips :
    (dates : Dates) (d : MoveCollectionDto)
    → ModelTrips dates move_collection_dto_to_json move_collection_dto_from_json
        (move_collection_dto_value d)
      × (instance_of_move_collection_dto (move_collection_dto_value d) ≡ true)
unfolding move_collection_dto_to_json move_collection_dto_from_json instance_of_move_collection_dto
    wire
move_collection_dto-trips dates d =
    let properties : List (Trip dates) =
      optional_text_trip "parentId" d.parent_id ∷ optional_text_trip "beforeId" d.before_id ∷ [] in
    (model-trips properties refl, refl)
