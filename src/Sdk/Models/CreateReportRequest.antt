-- ===== src/Sdk/Models/CreateReportRequest.antt =====
-- ui/v1/src/lib/sdk/models/CreateReportRequest.ts
use ragbag.Common.{◌≡◌, refl, String, Bool, true, ◌&&◌, Option, some, List, [], ◌∷◌, if◌then◌else◌}
use ragbag.Sdk.Value.{Value, bool, text, obj, end, field, Dates, is_nullish, prop, wire}
use ragbag.Sdk.Codec.{optional, object, has_field, or_undefined, ModelTrips}
use ragbag.Sdk.Codec.Trips.{Trip, model-trips}
use ragbag.Sdk.Codec.Forms.{same}
use ragbag.Sdk.Codec.Rows.{trip, text_trip, bool_trip, optional_text_trip}
use ragbag.Sdk.Models.ReportCategory.{
  ReportCategory, report_category_value, report_category_from_json, report_category_to_json,
  report_category-trips,
}

pub record CreateReportRequest : Type 0 where
  pub collection_id : Option String
  pub category : ReportCategory
  pub details : String
  pub name : Option String
  pub email : Option String
  pub good_faith : Bool

-- The object, with undefined for a property that is missing.
abbrev pub create_report_request_value : CreateReportRequest → Value
create_report_request_value d = obj (
    field "collectionId" (or_undefined text d.collection_id) (
      field "category" (report_category_value d.category) (
        field "details" (text d.details) (
          field "name" (or_undefined text d.name) (
            field "email" (or_undefined text d.email)
              (field "goodFaith" (bool d.good_faith) end))))))

unfoldable pub instance_of_create_report_request : Value → Bool
instance_of_create_report_request v =
    has_field v "category" && has_field v "details" && has_field v "goodFaith"

unfoldable pub create_report_request_from_json : Value → Option Value
create_report_request_from_json json =
    if is_nullish json
    then some json
    else object (
        ("collectionId", optional same (prop json "collectionId"))
        ∷ ("category", report_category_from_json (prop json "category"))
        ∷ ("details", same (prop json "details"))
        ∷ ("name", optional same (prop json "name"))
        ∷ ("email", optional same (prop json "email"))
        ∷ ("goodFaith", same (prop json "goodFaith"))
        ∷ [])

unfoldable pub create_report_request_to_json : Value → Option Value
create_report_request_to_json v =
    if is_nullish v
    then some v
    else object (
        ("collectionId", same (prop v "collectionId"))
        ∷ ("category", report_category_to_json (prop v "category"))
        ∷ ("details", same (prop v "details"))
        ∷ ("name", same (prop v "name"))
        ∷ ("email", same (prop v "email"))
        ∷ ("goodFaith", same (prop v "goodFaith"))
        ∷ [])

-- Sent and read back, a `CreateReportRequest` is what it was, and it passes the test for the model.
pub create_report_request-trips :
    (dates : Dates) (d : CreateReportRequest)
    → ModelTrips dates create_report_request_to_json create_report_request_from_json
        (create_report_request_value d)
      × (instance_of_create_report_request (create_report_request_value d) ≡ true)
unfolding create_report_request_to_json create_report_request_from_json
    instance_of_create_report_request wire
create_report_request-trips dates d =
    let properties : List (Trip dates) =
      optional_text_trip "collectionId" d.collection_id
      ∷ trip "category" "category" report_category_to_json report_category_from_json
          (report_category_value d.category) (report_category-trips dates d.category)
      ∷ text_trip "details" d.details
      ∷ optional_text_trip "name" d.name
      ∷ optional_text_trip "email" d.email
      ∷ bool_trip "goodFaith" d.good_faith
      ∷ [] in
    (model-trips properties refl, refl)
