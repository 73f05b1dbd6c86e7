-- ===== src/Sdk/Models/AbuseReportDto.antt =====
-- ui/v1/src/lib/sdk/models/AbuseReportDto.ts
use ragbag.Common.{
  ℕ, ◌≡◌, refl, String, Bool, true, ◌&&◌, Option, none, some, List, [], ◌∷◌, if◌then◌else◌,
}
use ragbag.Sdk.Value.{Value, undefined, bool, text, obj, end, field, Dates, is_nullish, prop, wire}
use ragbag.Sdk.Codec.{
  parse_date_time, serialize_date_time, optional, nullable, object, has_field, or_undefined,
  RoundTrips, ModelTrips,
}
use ragbag.Sdk.Codec.Trips.{Trip, model-trips}
use ragbag.Sdk.Codec.Forms.{same, instant}
use ragbag.Sdk.Codec.Rows.{
  trip, text_trip, bool_trip, date_trip, optional_text_trip, optional_date_trip,
}
use ragbag.Sdk.Models.ReportCategory.{
  ReportCategory, report_category_value, report_category_from_json, report_category_to_json,
  report_category-trips,
}

pub data AbuseReportDtoResolutionEnum : Type 0 where
  disable_link dismiss enable_link : AbuseReportDtoResolutionEnum

abbrev pub abuse_report_dto_resolution_enum_text : AbuseReportDtoResolutionEnum → String
abuse_report_dto_resolution_enum_text disable_link = "DISABLE_LINK"
abuse_report_dto_resolution_enum_text dismiss = "DISMISS"
abuse_report_dto_resolution_enum_text enable_link = "ENABLE_LINK"

abbrev pub abuse_report_dto_resolution_enum_value : AbuseReportDtoResolutionEnum → Value
abuse_report_dto_resolution_enum_value e = text (abuse_report_dto_resolution_enum_text e)

optional_abuse_report_dto_resolution_enum-trips :
    (dates : Dates) (o : Option AbuseReportDtoResolutionEnum)
    → RoundTrips dates same (optional same) (or_undefined abuse_report_dto_resolution_enum_value o)
unfolding wire
optional_abuse_report_dto_resolution_enum-trips dates none = (undefined, refl, refl)
optional_abuse_report_dto_resolution_enum-trips dates (some e) =
    (abuse_report_dto_resolution_enum_value e, refl, refl)

pub record AbuseReportDto : Type 0 where
  pub id : String
  pub category : ReportCategory
  pub details : String
  pub reporter_name : Option String
  pub reporter_email : Option String
  pub created_at : ℕ
  pub collection_id : Option String
  pub viewed_collection_id : Option String
  pub collection_name : String
  pub space_name : Option String
  pub share_token : String
  pub current_token : Option String
  pub shared_by : Option String
  pub shared_by_id : Option String
  pub link_disabled : Bool
  pub resolved_at : Option ℕ
  pub resolved_by : Option String
  pub resolution : Option AbuseReportDtoResolutionEnum
  pub resolution_note : Option String

-- The object, with undefined for a property that is missing.
abbrev pub abuse_report_dto_value : AbuseReportDto → Value
abuse_report_dto_value d = obj (
    field "id" (text d.id) (
      field "category" (report_category_value d.category) (
        field "details" (text d.details) (
          field "reporterName" (or_undefined text d.reporter_name) (
            field "reporterEmail" (or_undefined text d.reporter_email) (
              field "createdAt" (instant d.created_at) (
                field "collectionId" (or_undefined text d.collection_id) (
                  field "viewedCollectionId" (or_undefined text d.viewed_collection_id) (
                    field "collectionName" (text d.collection_name) (
                      field "spaceName" (or_undefined text d.space_name) (
                        field "shareToken" (text d.share_token) (
                          field "currentToken" (or_undefined text d.current_token) (
                            field "sharedBy" (or_undefined text d.shared_by) (
                              field "sharedById" (or_undefined text d.shared_by_id) (
                                field "linkDisabled" (bool d.link_disabled) (
                                  field "resolvedAt" (or_undefined instant d.resolved_at) (
                                    field "resolvedBy" (or_undefined text d.resolved_by) (
                                      field "resolution"
                                        (or_undefined abuse_report_dto_resolution_enum_value
                                          d.resolution)
                                        (field "resolutionNote"
                                          (or_undefined text d.resolution_note)
                                          end)))))))))))))))))))

unfoldable pub instance_of_abuse_report_dto : Value → Bool
instance_of_abuse_report_dto v =
    has_field v "id"
    && has_field v "category"
    && has_field v "details"
    && has_field v "createdAt"
    && has_field v "collectionName"
    && has_field v "shareToken"
    && has_field v "linkDisabled"

unfoldable pub abuse_report_dto_from_json : (dates : Dates) → Value → Option Value
abuse_report_dto_from_json dates json =
    if is_nullish json
    then some json
    else object (
        ("id", same (prop json "id"))
        ∷ ("category", report_category_from_json (prop json "category"))
        ∷ ("details", same (prop json "details"))
        ∷ ("reporterName", optional same (prop json "reporterName"))
        ∷ ("reporterEmail", optional same (prop json "reporterEmail"))
        ∷ ("createdAt", nullable (parse_date_time dates) (prop json "createdAt"))
        ∷ ("collectionId", optional same (prop json "collectionId"))
        ∷ ("viewedCollectionId", optional same (prop json "viewedCollectionId"))
        ∷ ("collectionName", same (prop json "collectionName"))
        ∷ ("spaceName", optional same (prop json "spaceName"))
        ∷ ("shareToken", same (prop json "shareToken"))
        ∷ ("currentToken", optional same (prop json "currentToken"))
        ∷ ("sharedBy", optional same (prop json "sharedBy"))
        ∷ ("sharedById", optional same (prop json "sharedById"))
        ∷ ("linkDisabled", same (prop json "linkDisabled"))
        ∷ ("resolvedAt", optional (parse_date_time dates) (prop json "resolvedAt"))
        ∷ ("resolvedBy", optional same (prop json "resolvedBy"))
        ∷ ("resolution", optional same (prop json "resolution"))
        ∷ ("resolutionNote", optional same (prop json "resolutionNote"))
        ∷ [])

unfoldable pub abuse_report_dto_to_json : (dates : Dates) → Value → Option Value
abuse_report_dto_to_json dates v =
    if is_nullish v
    then some v
    else object (
        ("id", same (prop v "id"))
        ∷ ("category", report_category_to_json (prop v "category"))
        ∷ ("details", same (prop v "details"))
        ∷ ("reporterName", same (prop v "reporterName"))
        ∷ ("reporterEmail", same (prop v "reporterEmail"))
        ∷ ("createdAt", nullable (serialize_date_time dates) (prop v "createdAt"))
        ∷ ("collectionId", same (prop v "collectionId"))
        ∷ ("viewedCollectionId", same (prop v "viewedCollectionId"))
        ∷ ("collectionName", same (prop v "collectionName"))
        ∷ ("spaceName", same (prop v "spaceName"))
        ∷ ("shareToken", same (prop v "shareToken"))
        ∷ ("currentToken", same (prop v "currentToken"))
        ∷ ("sharedBy", same (prop v "sharedBy"))
        ∷ ("sharedById", same (prop v "sharedById"))
        ∷ ("linkDisabled", same (prop v "linkDisabled"))
        ∷ ("resolvedAt", nullable (serialize_date_time dates) (prop v "resolvedAt"))
        ∷ ("resolvedBy", same (prop v "resolvedBy"))
        ∷ ("resolution", same (prop v "resolution"))
        ∷ ("resolutionNote", same (prop v "resolutionNote"))
        ∷ [])

-- Sent and read back, a `AbuseReportDto` is what it was, and it passes the test for the model.
pub abuse_report_dto-trips :
    (dates : Dates) (d : AbuseReportDto)
    → ModelTrips dates
        (abuse_report_dto_to_json dates)
        (abuse_report_dto_from_json dates)
        (abuse_report_dto_value d)
      × (instance_of_abuse_report_dto (abuse_report_dto_value d) ≡ true)
unfolding abuse_report_dto_to_json abuse_report_dto_from_json instance_of_abuse_report_dto wire
abuse_report_dto-trips dates d =
    let properties : List (Trip dates) =
      text_trip "id" d.id
      ∷ trip "category" "category" report_category_to_json report_category_from_json
          (report_category_value d.category) (report_category-trips dates d.category)
      ∷ text_trip "details" d.details
      ∷ optional_text_trip "reporterName" d.reporter_name
      ∷ optional_text_trip "reporterEmail" d.reporter_email
      ∷ date_trip "createdAt" d.created_at
      ∷ optional_text_trip "collectionId" d.collection_id
      ∷ optional_text_trip "viewedCollectionId" d.viewed_collection_id
      ∷ text_trip "collectionName" d.collection_name
      ∷ optional_text_trip "spaceName" d.space_name
      ∷ text_trip "shareToken" d.share_token
      ∷ optional_text_trip "currentToken" d.current_token
      ∷ optional_text_trip "sharedBy" d.shared_by
      ∷ optional_text_trip "sharedById" d.shared_by_id
      ∷ bool_trip "linkDisabled" d.link_disabled
      ∷ optional_date_trip "resolvedAt" d.resolved_at
      ∷ optional_text_trip "resolvedBy" d.resolved_by
      ∷ trip "resolution" "resolution" same (optional same)
          (or_undefined abuse_report_dto_resolution_enum_value d.resolution)
          (optional_abuse_report_dto_resolution_enum-trips dates d.resolution)
      ∷ optional_text_trip "resolutionNote" d.resolution_note
      ∷ [] in
    (model-trips properties refl, refl)
