-- ===== src/Sdk/Tests.antt =====
-- The models, the query and the operations on concrete objects.
use ragbag.Common.{
  inl, includes, All, map, false, ◌≡◌, ◌≤◌, refl, String, true, none, some, [], ◌∷◌, arith,
}
use ragbag.Common.Split.{split}
use ragbag.Common.Dict.{insert}
use ragbag.Sdk.Value.{Value, Fields, arr, cons, nil, is_nullish, prop, text, num, obj, field, end}
use ragbag.Sdk.Samples.{unary, platform}
use ragbag.Sdk.Codec.{ModelTrips, ◌>>=◌}
use ragbag.Sdk.Runtime.{decimal, join}
use ragbag.Sdk.Runtime.Request.{
  Configuration, RequestOpts, returned, thrown, required_error, native_error, put, plain,
}
use ragbag.Sdk.Runtime.Uri.{encode_uri_component}
use ragbag.Sdk.Runtime.Query.{querystring}
use ragbag.Sdk.Runtime.Query.Pairs.{read_query, read_query-querystring, pairs_of, read_as}
use ragbag.Sdk.Apis.Operation.{request_opts, fill_path, call, first_missing}
use ragbag.Sdk.Apis.Operation.Paths.{filled}
use ragbag.Sdk.Apis.Templates.{request_opts-path, call-missing, segments_of}
use ragbag.Sdk.Apis.AdminApi.{block_user}
use ragbag.Sdk.Models.BlockUserRequest.{block_user_request_to_json}
use ragbag.Sdk.Models.CollectionDto.Nesting.{
  nesting, read_collection, read_collection-ends, IsReadable, childless, parent, one_more,
  none_left,
}
use ragbag.Sdk.Models.BookmarkDto.{
  BookmarkDto, bookmark_dto_value, bookmark_dto_from_json, bookmark_dto_to_json,
  instance_of_bookmark_dto, bookmark_dto-trips,
}
use ragbag.Sdk.Models.CollectionDto.{
  CollectionInfo, CollectionDto, collection, absent, listed, empty, with_child, depth,
  collection_dto_value, collection_dto_from_json, collection_dto_to_json, collection_dto-trips,
}

abbrev bookmark : BookmarkDto
bookmark = record {
  id = "b1";
  collection_id = some "c1";
  url = "https://example.org/";
  title = some "";
  description = none;
  tags = some ("a" ∷ "b" ∷ []);
  og_image = none;
  favicon = none;
  canonical = none;
  created_at = some 3;
  created_by = none;
  favorite = some true;
  custom_image_id = none;
  custom_image_url = none;
  image_hidden = none;
  is_new = none;
  reactions = some [];
}

bookmark_dto-trips_example :
    ModelTrips unary
      (bookmark_dto_to_json unary)
      (bookmark_dto_from_json unary)
      (bookmark_dto_value bookmark)
    × (instance_of_bookmark_dto (bookmark_dto_value bookmark) ≡ true)
bookmark_dto-trips_example = bookmark_dto-trips unary bookmark

abbrev info : String → CollectionInfo
info id = record {
  id = id;
  name = "Reading";
  description = none;
  parent_id = none;
  restricted = some true;
  bookmark_count = some 7;
  new_count = none;
  shared = none;
  locked = none;
}

abbrev reading : CollectionDto
reading = collection (info "c1") (listed (with_child (collection (info "c2") absent) empty))

reading_depth : depth reading ≤ 2
unfolding depth
reading_depth = omega arith

collection_dto-trips_example :
    ModelTrips unary
      (collection_dto_to_json 2)
      (collection_dto_from_json 2)
      (collection_dto_value reading)
collection_dto-trips_example = collection_dto-trips unary reading 2 reading_depth

abbrev question : Fields
question = field "q" (text "a & b") (field "in" (arr (cons (num 7) (cons (text "ä") nil))) end)

question_written : querystring platform question "" ≡ some "q=a%20%26%20b&in=7&in=%C3%A4"
unfolding querystring decimal join encode_uri_component
question_written = refl

read_query-querystring_example :
    (querystring platform question "" >>= λ query. some (read_query query))
    ≡ (pairs_of platform question "" >>= λ ps. some (read_as ps))
read_query-querystring_example = read_query-querystring platform question ""

abbrev block_params : Value
block_params = obj (
    field "userId" (text "../u 1")
      (field "blockUserRequest" (obj (field "reason" (text "spam") end)) end))

abbrev block_opts : RequestOpts
block_opts = record {
  path = "/v1/admin/users/..%2Fu%201/block";
  method = put;
  headers = ("Content-Type", "application/json") ∷ ("Authorization", "Bearer t0") ∷ [];
  query = end;
  body = plain (obj (field "reason" (text "spam") end));
}

block_opts-made :
    request_opts platform (some "t0") (block_user unary) block_params ≡ returned block_opts
unfolding request_opts fill_path encode_uri_component insert block_user_request_to_json
block_opts-made = refl

request_opts-path_example :
    (split b'/' block_opts.path
      ≡ "" ∷ map (filled platform block_params) (segments_of (block_user unary).template))
    × All (λ name. is_nullish (prop block_params name) ≡ false) (block_user unary).in_path
request_opts-path_example =
    request_opts-path platform unary (some "t0") (block_user unary) block_params block_opts
      (inl refl) block_opts-made

-- A world without a server.
abbrev offline : Configuration (Unit {0})
offline = record {
  base_path = "/api";
  access_token = none;
  headers = [];
  credentials = none;
  middleware = [];
  fetch = λ params w. (w, thrown native_error);
}

call-missing_example :
    (missing : String) × (first_missing (block_user unary).required (obj end) ≡ some missing)
    × (includes (block_user unary).required missing ≡ true)
    × (is_nullish (prop (obj end) missing) ≡ true)
    × (call platform offline (λ init. init) (block_user unary) (obj end) tt
        ≡ (tt, thrown (required_error missing)))
call-missing_example =
    call-missing platform offline (λ init. init) (block_user unary) (obj end) "userId" tt refl refl

childless_value : IsReadable (collection_dto_value (collection (info "c2") absent))
unfolding collection_dto_value
childless_value = childless _ refl

reading_value : IsReadable (collection_dto_value reading)
unfolding collection_dto_value
reading_value =
    parent _ (cons (collection_dto_value (collection (info "c2") absent)) nil) refl
      (one_more _ nil childless_value none_left)

read_collection-ends_example :
    (out : Value) × (collection_dto_from_json 9 (collection_dto_value reading) ≡ some out)
    × (read_collection (collection_dto_value reading) ≡ some out)
unfolding nesting collection_dto_value
read_collection-ends_example =
    read_collection-ends 9 (collection_dto_value reading) (omega arith) reading_value
