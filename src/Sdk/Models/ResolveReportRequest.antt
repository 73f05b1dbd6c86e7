-- ===== src/Sdk/Models/ResolveReportRequest.antt =====
-- ui/v1/src/lib/sdk/models/ResolveReportRequest.ts
use ragbag.Common.{◌≡◌, refl, String, Bool, true, Option, some, List, [], ◌∷◌, if◌then◌else◌}
use ragbag.Sdk.Value.{Value, text, obj, end, field, Dates, is_nullish, prop, wire}
use ragbag.Sdk.Codec.{optional, object, has_field, or_undefined, ModelTrips}
use ragbag.Sdk.Codec.Trips.{Trip, model-trips}
use ragbag.Sdk.Codec.Forms.{same, text-trips}
use ragbag.Sdk.Codec.Rows.{trip, optional_text_trip}

pub data ResolveReportRequestActionEnum : Type 0 where
  disable_link dismiss enable_link : ResolveReportRequestActionEnum

abbrev pub resolve_report_request_action_enum_text : ResolveReportRequestActionEnum → String
resolve_report_request_action_enum_text disable_link = "DISABLE_LINK"
resolve_report_request_action_enum_text dismiss = "DISMISS"
resolve_report_request_action_enum_text enable_link = "ENABLE_LINK"

abbrev pub resolve_report_request_action_enum_value : ResolveReportRequestActionEnum → Value
resolve_report_request_action_enum_value e = text (resolve_report_request_action_enum_text e)

pub record ResolveReportRequest : Type 0 where
  pub action : ResolveReportRequestActionEnum
  pub note : Option String

-- The object, with undefined for a property that is missing.
abbrev pub resolve_report_request_value : ResolveReportRequest → Value
resolve_report_request_value d = obj (
    field "action" (resolve_report_request_action_enum_value d.action)
      (field "note" (or_undefined text d.note) end))

unfoldable pub instance_of_resolve_report_request : Value → Bool
instance_of_resolve_report_request v = has_field v "action"

unfoldable pub resolve_report_request_from_json : Value → Option Value
resolve_report_request_from_json json =
    if is_nullish json
    then some json
    else object
        (("action", same (prop json "action")) ∷ ("note", optional same (prop json "note")) ∷ [])

unfoldable pub resolve_report_request_to_json : Value → Option Value
resolve_report_request_to_json v =
    if is_nullish v
    then some v
    else object (("action", same (prop v "action")) ∷ ("note", same (prop v "note")) ∷ [])

-- Sent and read back, a `ResolveReportRequest` is what it was, and it passes the test for the model.
pub resolve_report_request-trips :
    (dates : Dates) (d : ResolveReportRequest)
    → ModelTrips dates resolve_report_request_to_json resolve_report_request_from_json
        (resolve_report_request_value d)
      × (instance_of_resolve_report_request (resolve_report_request_value d) ≡ true)
unfolding resolve_report_request_to_json resolve_report_request_from_json
    instance_of_resolve_report_request wire
resolve_report_request-trips dates d =
    let properties : List (Trip dates) =
      trip "action" "action" same same (resolve_report_request_action_enum_value d.action)
        (text-trips dates (resolve_report_request_action_enum_text d.action))
      ∷ optional_text_trip "note" d.note
      ∷ [] in
    (model-trips properties refl, refl)
