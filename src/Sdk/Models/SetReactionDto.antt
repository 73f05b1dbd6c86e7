-- ===== src/Sdk/Models/SetReactionDto.antt =====
-- ui/v1/src/lib/sdk/models/SetReactionDto.ts
use ragbag.Common.{◌≡◌, refl, String, Bool, true, ◌&&◌, Option, some, List, [], ◌∷◌, if◌then◌else◌}
use ragbag.Sdk.Value.{Value, bool, text, obj, end, field, Dates, is_nullish, prop, wire}
use ragbag.Sdk.Codec.{object, has_field, ModelTrips}
use ragbag.Sdk.Codec.Trips.{Trip, model-trips}
use ragbag.Sdk.Codec.Forms.{same}
use ragbag.Sdk.Codec.Rows.{text_trip, bool_trip}

pub record SetReactionDto : Type 0 where
  pub emoji : String
  pub reacted : Bool

-- The object, with undefined for a property that is missing.
abbrev pub set_reaction_dto_value : SetReactionDto → Value
set_reaction_dto_value d = obj (field "emoji" (text d.emoji) (field "reacted" (bool d.reacted) end))

unfoldable pub instance_of_set_reaction_dto : Value → Bool
instance_of_set_reaction_dto v = has_field v "emoji" && has_field v "reacted"

unfoldable pub set_reaction_dto_from_json : Value → Option Value
set_reaction_dto_from_json json =
    if is_nullish json
    then some json
    else object (("emoji", same (prop json "emoji")) ∷ ("reacted", same (prop json "reacted")) ∷ [])

unfoldable pub set_reaction_dto_to_json : Value → Option Value
set_reaction_dto_to_json v =
    if is_nullish v
    then some v
    else object (("emoji", same (prop v "emoji")) ∷ ("reacted", same (prop v "reacted")) ∷ [])

-- Sent and read back, a `SetReactionDto` is what it was, and it passes the test for the model.
pub set_reaction_dto-trips :
    (dates : Dates) (d : SetReactionDto)
    → ModelTrips dates set_reaction_dto_to_json set_reaction_dto_from_json
        (set_reaction_dto_value d)
      × (instance_of_set_reaction_dto (set_reaction_dto_value d) ≡ true)
unfolding set_reaction_dto_to_json set_reaction_dto_from_json instance_of_set_reaction_dto wire
set_reaction_dto-trips dates d =
    let properties : List (Trip dates) =
      text_trip "emoji" d.emoji ∷ bool_trip "reacted" d.reacted ∷ [] in
    (model-trips properties refl, refl)
