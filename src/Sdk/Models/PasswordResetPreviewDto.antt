-- ===== src/Sdk/Models/PasswordResetPreviewDto.antt =====
-- ui/v1/src/lib/sdk/models/PasswordResetPreviewDto.ts
use ragbag.Common.{◌≡◌, refl, String, Bool, true, Option, some, List, [], ◌∷◌, if◌then◌else◌}
use ragbag.Sdk.Value.{Value, bool, text, obj, end, field, Dates, is_nullish, prop, wire}
use ragbag.Sdk.Codec.{optional, object, has_field, or_undefined, ModelTrips}
use ragbag.Sdk.Codec.Trips.{Trip, model-trips}
use ragbag.Sdk.Codec.Forms.{same}
use ragbag.Sdk.Codec.Rows.{bool_trip, optional_text_trip}

pub record PasswordResetPreviewDto : Type 0 where
  pub valid : Bool
  pub username : Option String

-- The object, with undefined for a property that is missing.
abbrev pub password_reset_preview_dto_value : PasswordResetPreviewDto → Value
password_reset_preview_dto_value d =
    obj (field "valid" (bool d.valid) (field "username" (or_undefined text d.username) end))

unfoldable pub instance_of_password_reset_preview_dto : Value → Bool
instance_of_password_reset_preview_dto v = has_field v "valid"

unfoldable pub password_reset_preview_dto_from_json : Value → Option Value
password_reset_preview_dto_from_json json =
    if is_nullish json
    then some json
    else object (
        ("valid", same (prop json "valid"))
        ∷ ("username", optional same (prop json "username"))
        ∷ [])

unfoldable pub password_reset_preview_dto_to_json : Value → Option Value
password_reset_preview_dto_to_json v =
    if is_nullish v
    then some v
    else object (("valid", same (prop v "valid")) ∷ ("username", same (prop v "username")) ∷ [])

-- Sent and read back, a `PasswordResetPreviewDto` is what it was, and it passes the test for the model.
pub password_reset_preview_dto-trips :
    (dates : Dates) (d : PasswordResetPreviewDto)
    → ModelTrips dates password_reset_preview_dto_to_json password_reset_preview_dto_from_json
        (password_reset_preview_dto_value d)
      × (instance_of_password_reset_preview_dto (password_reset_preview_dto_value d) ≡ true)
unfolding password_reset_preview_dto_to_json password_reset_preview_dto_from_json
    instance_of_password_reset_preview_dto wire
password_reset_preview_dto-trips dates d =
    let properties : List (Trip dates) =
      bool_trip "valid" d.valid ∷ optional_text_trip "username" d.username ∷ [] in
    (model-trips properties refl, refl)
