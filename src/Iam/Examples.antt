-- ===== src/Iam/Examples.antt =====
-- IAMClient on a concrete cache, with one token and one API key.
use omnibioai_api_gateway.Prelude.{
  ℕ, ◌≡◌, refl, ◌⊎◌, String, true, false, none, some, List, [], ◌∷◌, ◌==◌, if◌then◌else◌, All, eqb,
}
use omnibioai_api_gateway.Prelude.Int.{ℤ, pos, ◌≤ℤ◌}
use omnibioai_api_gateway.Json.{Json, null, bool, int, str, arr, obj, nil, field, end}
use omnibioai_api_gateway.Dict.{Dict, lookup, insert, erase, lookup-insert, lookup-erase}
use omnibioai_api_gateway.RequestState.{is_api_key}
use omnibioai_api_gateway.Iam.{
  Cache, Outside, is_ascii, partition, Posted, timed_out, answered, token_key, api_key_subject,
  get_cached, get_cached_api_key,
}
use omnibioai_api_gateway.Iam.Validate.{validate}
use omnibioai_api_gateway.Iam.ApiKeys.{validate_api_key}
use omnibioai_api_gateway.Iam.Trust.{NullOr, IsSigned, IsConfirmed, validate-IsTrusted}
use omnibioai_api_gateway.Iam.KeyTrust.{IsTrustedKey, IsExchanged, validate_api_key-IsTrusted}
use omnibioai_api_gateway.Iam.Collision.{validate-hash_of_key}
use omnibioai_api_gateway.Iam.CacheLaws.{CacheLaws}
use omnibioai_api_gateway.Iam.Invalidation.{Message, subscribe_invalidation}
use omnibioai_api_gateway.Iam.Revocation.{validate-revoked, validate_api_key-revoked}
use omnibioai_api_gateway.Iam.Reuse.{validate-get_cached}
use omnibioai_api_gateway.Iam.Expiry.{validate_api_key-Keeps}

-- A cache that is a dict whose entries do not expire.
abbrev dict_cache : Cache (Dict String)
dict_cache = record {
  get = λ k s. (some (lookup k s), s);
  setex = λ k ttl v s. (some tt, insert k v s);
  delete = λ k s. (some tt, erase k s);
}

abbrev dict_laws : CacheLaws dict_cache
dict_laws = record {
  view = λ s k. lookup k s;
  IsUp = λ s. Unit;
  get_returns = λ k s up. refl;
  get_keeps = λ k j s up. refl;
  get_up = λ k s up. tt;
  setex_stores = λ k ttl v j s up. lookup-insert k j v s;
  setex_up = λ k ttl v s up. tt;
  delete_removes = λ k j s up. lookup-erase k j s;
  delete_up = λ k s up. tt;
}

abbrev answer_fields : Json
answer_fields = obj (
    field "valid" (bool true) (
      field "user_id" (str "u1") (
        field "organization_id" (str "o1") (
          field "api_key_id" (str "k1")
            (field "access_token" (str "jwt") (field "expires_in" (int (pos 900)) end))))))

abbrev session : Json
session = obj (
    field "user_id" (str "u1") (
      field "email" (str "") (
        field "roles" (arr nil) (
          field "permissions" (arr nil) (
            field "org_id" null (
              field "org_role" (arr nil)
                (field "schema_version" (int (pos 1)) (field "valid" (bool true) end))))))))

-- The first attempt of every call times out, the second is answered 200.
abbrev second_answers : ℕ → Posted
second_answers n = if eqb n 0 then timed_out else answered 200 (some answer_fields)

abbrev out_on : {S : Type 0} → Cache S → Outside S
out_on c = record {
  cache = c;
  mac = λ text. "00";
  sha256 = λ text. "h1";
  dumps = λ j. "user";
  loads = λ text.
      if text == "user"
      then some session
      else if text == "token t1"
      then some (obj (field "token" (str "t1") end))
      else if text == "key h1"
      then some (obj (field "api_key_hash" (str "h1") end))
      else none;
  decode_token = λ token. token == "t1";
  post = λ n p. second_answers n;
  print = λ j. "";
  parse_int = λ text. none;
  base_url = "http://auth/";
  exchange_secret = "s";
  api_key_cache_ttl = pos 60;
}

abbrev pub out : Outside (Dict String)
out = out_on dict_cache

abbrev pub nothing : Dict String
nothing = []

validate-IsTrusted_example :
    NullOr out
      (λ j. IsSigned out "t1" (token_key "t1") nothing j ⊎ IsConfirmed out "t1" j)
      (validate out "t1" nothing).0
validate-IsTrusted_example = validate-IsTrusted out "t1" nothing

validate_api_key-IsTrusted_example :
    NullOr out (IsTrustedKey out "omni_sk_1" nothing) (validate_api_key out "omni_sk_1" nothing).0
validate_api_key-IsTrusted_example = validate_api_key-IsTrusted out "omni_sk_1" nothing

-- The entry that an API key with the hash h1 leaves.
abbrev key_entry : Dict String
key_entry = ("gateway:iam:apikey:h1", "00:user") ∷ []

validate-hash_of_key_example :
    (is_api_key (api_key_subject "h1") ≡ false)
    × ((validate out (api_key_subject "h1") key_entry).0 ≡ some session)
unfolding lookup
validate-hash_of_key_example =
    validate-hash_of_key out "h1" key_entry session (unfold get_cached_api_key in refl) refl

abbrev noise : Message
noise = record { kind = "message"; content = "}" }

abbrev revoke_token : Message
revoke_token = record { kind = "message"; content = "token t1" }

abbrev revoke_key : Message
revoke_key = record { kind = "message"; content = "key h1" }

validate-revoked_example :
    NullOr out
      (IsConfirmed out "t1")
      (validate out "t1"
        (subscribe_invalidation out
          (noise ∷ revoke_token ∷ noise ∷ [])
          (("gateway:iam:t1", "00:user") ∷ [])).1).0
validate-revoked_example =
    validate-revoked out dict_laws "t1" (noise ∷ []) (noise ∷ []) revoke_token
      (record {
        message = refl;
        fields = field "token" (str "t1") end;
        parsed = refl;
        named = refl;
        proper = refl;
      })
      (("gateway:iam:t1", "00:user") ∷ []) tt

validate_api_key-revoked_example :
    NullOr out
      (IsExchanged out "omni_sk_1")
      (validate_api_key out "omni_sk_1"
        (subscribe_invalidation out (revoke_token ∷ revoke_key ∷ noise ∷ []) key_entry).1).0
validate_api_key-revoked_example =
    validate_api_key-revoked out dict_laws "omni_sk_1" (revoke_token ∷ []) (noise ∷ []) revoke_key
      (record {
        message = refl;
        fields = field "api_key_hash" (str "h1") end;
        parsed = refl;
        named = refl;
        proper = refl;
      })
      key_entry tt

validate-get_cached_example : (get_cached out "t1" (validate out "t1" nothing).1).0 ≡ some session
unfolding is_ascii partition lookup insert
validate-get_cached_example =
    validate-get_cached out dict_laws (record { ascii = λ text. refl; no_colon = λ text. refl })
      "t1" session nothing tt refl refl (unfold validate in refl)

-- A cache that only keeps the times to live of what is stored.
abbrev logging : Cache (List ℤ)
logging = record {
  get = λ k s. (some none, s);
  setex = λ k ttl v s. (some tt, ttl ∷ s);
  delete = λ k s. (some tt, s);
}

abbrev IsShort : List ℤ → Type 0
IsShort = All (λ ttl. ttl ≤ℤ pos 60)

validate_api_key-Keeps_example : IsShort (validate_api_key (out_on logging) "omni_sk_1" []).1
validate_api_key-Keeps_example =
    validate_api_key-Keeps (out_on logging) "omni_sk_1" IsShort (λ s h. h) (λ s h. h)
      (λ ttl value timely s h. (timely.capped, h)) [] tt
