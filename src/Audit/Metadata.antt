-- ===== src/Audit/Metadata.antt =====
-- services/audit.py: the deny list of metadata keys, searched for at every depth.
use multi_tenant_saas_api.Base.{
  Bool, false, ◌||◌, List, [], ◌∷◌, Text, codes, text_eq, strip, lower, replace_char, ends_with,
  any,
}
use multi_tenant_saas_api.Json.{
  Json, null, bool, num, str, arr, obj, Items, nil, item, Fields, end, field,
}

abbrev forbidden_metadata_keys : List Text
forbidden_metadata_keys =
    codes "access_token"
    ∷ codes "api_key"
    ∷ codes "authorization"
    ∷ codes "bearer_token"
    ∷ codes "key_hash"
    ∷ codes "password"
    ∷ codes "password_hash"
    ∷ codes "raw_api_key"
    ∷ codes "raw_key"
    ∷ codes "raw_password"
    ∷ codes "raw_token"
    ∷ codes "refresh_token"
    ∷ codes "secret"
    ∷ codes "token"
    ∷ []

abbrev forbidden_metadata_suffixes : List Text
forbidden_metadata_suffixes =
    codes "_hash" ∷ codes "_password" ∷ codes "_secret" ∷ codes "_token" ∷ []

unfoldable pub normalise_metadata_key : Text → Text
unfolding strip lower replace_char
normalise_metadata_key key = replace_char b' ' b'_' (replace_char b'-' b'_' (lower (strip key)))

unfoldable pub is_forbidden_metadata_key : Text → Bool
unfolding normalise_metadata_key text_eq ends_with
is_forbidden_metadata_key key =
    let normalised = normalise_metadata_key key in
    any (text_eq normalised) forbidden_metadata_keys
    || any (ends_with normalised) forbidden_metadata_suffixes

unfoldable mutual
  unfolding is_forbidden_metadata_key

  pub contains_forbidden_metadata_key : Json → Bool
  contains_forbidden_metadata_key null = false
  contains_forbidden_metadata_key (bool b) = false
  contains_forbidden_metadata_key (num n) = false
  contains_forbidden_metadata_key (str s) = false
  contains_forbidden_metadata_key (arr xs) = any_forbidden_item xs
  contains_forbidden_metadata_key (obj fs) = any_forbidden_field fs

  pub any_forbidden_item : Items → Bool
  any_forbidden_item nil = false
  any_forbidden_item (item x xs) = contains_forbidden_metadata_key x || any_forbidden_item xs

  pub any_forbidden_field : Fields → Bool
  any_forbidden_field end = false
  any_forbidden_field (field key value fs) =
      is_forbidden_metadata_key key
      || contains_forbidden_metadata_key value
      || any_forbidden_field fs
