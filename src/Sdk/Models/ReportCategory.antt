-- ===== src/Sdk/Models/ReportCategory.antt =====
-- ui/v1/src/lib/sdk/models/ReportCategory.ts
use ragbag.Common.{◌≡◌, refl, String, Bool, true, false, Option, none, some, ◌===◌, ◌||◌}
use ragbag.Sdk.Value.{Value, undefined, text, Dates, wire}
use ragbag.Sdk.Codec.{optional, or_undefined, RoundTrips}

pub data ReportCategory : Type 0 where
  illegal child_safety copyright personal_data spam other : ReportCategory

abbrev pub report_category_text : ReportCategory → String
report_category_text illegal = "ILLEGAL"
report_category_text child_safety = "CHILD_SAFETY"
report_category_text copyright = "COPYRIGHT"
report_category_text personal_data = "PERSONAL_DATA"
report_category_text spam = "SPAM"
report_category_text other = "OTHER"

abbrev pub report_category_value : ReportCategory → Value
report_category_value e = text (report_category_text e)

-- `as ReportCategory` changes nothing.
unfoldable pub report_category_from_json : Value → Option Value
report_category_from_json json = some json

unfoldable pub report_category_to_json : Value → Option Value
report_category_to_json v = some v

-- The loop over the values of the enumeration, compared by `===`.
unfoldable pub instance_of_report_category : Value → Bool
instance_of_report_category (text s) =
    "ILLEGAL" === s
    || "CHILD_SAFETY" === s
    || "COPYRIGHT" === s
    || "PERSONAL_DATA" === s
    || "SPAM" === s
    || "OTHER" === s
instance_of_report_category _ = false

module _ (dates : Dates) where
  pub report_category-trips :
      (e : ReportCategory)
      → RoundTrips dates report_category_to_json report_category_from_json (report_category_value e)
  unfolding report_category_to_json report_category_from_json wire
  report_category-trips e = (report_category_value e, refl, refl)

  pub optional_report_category-trips :
      (o : Option ReportCategory)
      → RoundTrips dates report_category_to_json
          (optional report_category_from_json)
          (or_undefined report_category_value o)
  unfolding report_category_to_json report_category_from_json wire
  optional_report_category-trips none = (undefined, refl, refl)
  optional_report_category-trips (some e) = (report_category_value e, refl, refl)

pub instance_of_report_category-value :
    (e : ReportCategory) → instance_of_report_category (report_category_value e) ≡ true
unfolding instance_of_report_category
instance_of_report_category-value illegal = refl
instance_of_report_category-value child_safety = refl
instance_of_report_category-value copyright = refl
instance_of_report_category-value personal_data = refl
instance_of_report_category-value spam = refl
instance_of_report_category-value other = refl
