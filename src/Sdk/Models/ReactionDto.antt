-- ===== src/Sdk/Models/ReactionDto.antt =====
-- ui/v1/src/lib/sdk/models/ReactionDto.ts
use ragbag.Common.{
  ℕ, ◌≡◌, refl, String, Bool, true, ◌&&◌, Option, some, List, [], ◌∷◌, if◌then◌else◌,
}
use ragbag.Sdk.Value.{Value, num, bool, text, obj, end, field, Dates, is_nullish, prop, wire}
use ragbag.Sdk.Codec.{object, has_field, ModelTrips}
use ragbag.Sdk.Codec.Trips.{Trip, model-trips}
use ragbag.Sdk.Codec.Forms.{same, texts}
use ragbag.Sdk.Codec.Rows.{text_trip, num_trip, bool_trip, texts_trip}

pub record ReactionDto : Type 0 where
  pub emoji : String
  pub count : ℕ
  pub reacted : Bool
  pub users : List String

-- The object, with undefined for a property that is missing.
abbrev pub reaction_dto_value : ReactionDto → Value
reaction_dto_value d = obj (
    field "emoji" (text d.emoji) (
      field "count" (num d.count)
        (field "reacted" (bool d.reacted) (field "users" (texts d.users) end))))

unfoldable pub instance_of_reaction_dto : Value → Bool
instance_of_reaction_dto v =
    has_field v "emoji" && has_field v "count" && has_field v "reacted" && has_field v "users"

unfoldable pub reaction_dto_from_json : Value → Option Value
reaction_dto_from_json json =
    if is_nullish json
    then some json
    else object (
        ("emoji", same (prop json "emoji"))
        ∷ ("count", same (prop json "count"))
        ∷ ("reacted", same (prop json "reacted"))
        ∷ ("users", same (prop json "users"))
        ∷ [])

unfoldable pub reaction_dto_to_json : Value → Option Value
reaction_dto_to_json v =
    if is_nullish v
    then some v
    else object (
        ("emoji", same (prop v "emoji"))
        ∷ ("count", same (prop v "count"))
        ∷ ("reacted", same (prop v "reacted"))
        ∷ ("users", same (prop v "users"))
        ∷ [])

-- Sent and read back, a `ReactionDto` is what it was, and it passes the test for the model.
pub reaction_dto-trips :
    (dates : Dates) (d : ReactionDto)
    → ModelTrips dates reaction_dto_to_json reaction_dto_from_json (reaction_dto_value d)
      × (instance_of_reaction_dto (reaction_dto_value d) ≡ true)
unfolding reaction_dto_to_json reaction_dto_from_json instance_of_reaction_dto wire
reaction_dto-trips dates d =
    let properties : List (Trip dates) =
      text_trip "emoji" d.emoji
      ∷ num_trip "count" d.count
      ∷ bool_trip "reacted" d.reacted
      ∷ texts_trip "users" d.users
      ∷ [] in
    (model-trips properties refl, refl)
