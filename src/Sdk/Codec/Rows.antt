-- ===== src/Sdk/Codec/Rows.antt =====
-- The properties of the models, each with the proof that it survives the way to the server and back.
use ragbag.Common.{ℕ, String, Bool, Option, List}
use ragbag.Sdk.Value.{Value, text, num, bool, arr, Dates}
use ragbag.Sdk.Codec.{
  parse_date_time, serialize_date_time, optional, nullable, map_array, or_undefined, array_of,
  RoundTrips, ModelTrips,
}
use ragbag.Sdk.Codec.Trips.{row, Trip}
use ragbag.Sdk.Codec.Forms.{
  same, texts, instant, num_map, text-trips, num-trips, bool-trips, texts-trips, date-trips,
  num_map-trips, optional_text-trips, optional_num-trips, optional_bool-trips, optional-texts-trips,
  optional_date-trips, model-trips, models-trips, optional_models-trips,
}

module _ {dates : Dates} where
  -- A property of any form, under the name that it has on the wire.
  abbrev pub trip :
      (key json_key : String) (to from : Value → Option Value) (v : Value)
      → RoundTrips dates to from v
      → Trip dates
  trip key json_key to from v t = record { property = row key json_key to from v; arrives = t }

  abbrev pub text_trip : String → String → Trip dates
  text_trip key s = trip key key same same (text s) (text-trips dates s)

  abbrev pub num_trip : String → ℕ → Trip dates
  num_trip key n = trip key key same same (num n) (num-trips dates n)

  abbrev pub bool_trip : String → Bool → Trip dates
  bool_trip key b = trip key key same same (bool b) (bool-trips dates b)

  abbrev pub texts_trip : String → List String → Trip dates
  texts_trip key ss = trip key key same same (texts ss) (texts-trips dates ss)

  abbrev pub num_map_trip : String → List (String × ℕ) → Trip dates
  num_map_trip key ps = trip key key same same (num_map ps) (num_map-trips dates ps)

  abbrev pub date_trip : String → ℕ → Trip dates
  date_trip key t =
      trip key key (nullable (serialize_date_time dates)) (nullable (parse_date_time dates))
        (instant t) (date-trips dates t)

  abbrev pub optional_text_trip : String → Option String → Trip dates
  optional_text_trip key o =
      trip key key same (optional same) (or_undefined text o) (optional_text-trips dates o)

  abbrev pub optional_num_trip : String → Option ℕ → Trip dates
  optional_num_trip key o =
      trip key key same (optional same) (or_undefined num o) (optional_num-trips dates o)

  abbrev pub optional_bool_trip : String → Option Bool → Trip dates
  optional_bool_trip key o =
      trip key key same (optional same) (or_undefined bool o) (optional_bool-trips dates o)

  abbrev pub optional_texts_trip : String → Option (List String) → Trip dates
  optional_texts_trip key o =
      trip key key same (optional same) (or_undefined texts o) (optional-texts-trips dates o)

  abbrev pub optional_date_trip : String → Option ℕ → Trip dates
  optional_date_trip key o =
      trip key key (nullable (serialize_date_time dates)) (optional (parse_date_time dates))
        (or_undefined instant o) (optional_date-trips dates o)

  -- Another model, or arrays of it.
  module _ {A : Type 0} (key : String) (value : A → Value) (to from : Value → Option Value)
      (trips : (a : A) → ModelTrips dates to from (value a)) where
    abbrev pub model_trip : A → Trip dates
    model_trip a = trip key key to from (value a) (model-trips dates value to from trips a)

    abbrev pub models_trip : List A → Trip dates
    models_trip xs =
        trip key key (map_array to) (map_array from) (arr (array_of value xs))
          (models-trips dates value to from trips xs)

    abbrev pub optional_models_trip : Option (List A) → Trip dates
    optional_models_trip o =
        trip key key (optional (map_array to)) (optional (map_array from))
          (or_undefined (λ xs. arr (array_of value xs)) o)
          (optional_models-trips dates value to from trips o)
