-- ===== src/Mcp/Gate.antt =====
-- Who reaches the mounted MCP application.
use omnibioai_api_gateway.Prelude.{
  ◌≡◌, ◌⊎◌, inl, inr, String, true, Option, some, ◌==◌, not, ◌||◌, Bool-cases,
}
use omnibioai_api_gateway.Json.{Json, truthy}
use omnibioai_api_gateway.Http.{Response}
use omnibioai_api_gateway.RequestState.{is_api_key}
use omnibioai_api_gateway.Iam.{Outside}
use omnibioai_api_gateway.Iam.ApiKeys.{validate_api_key}
use omnibioai_api_gateway.Iam.KeyTrust.{IsTrustedKey, validate_api_key-IsTrusted}
use omnibioai_api_gateway.Mcp.{Scope, Mounted, unauthorized, scope_token, admit, check_key, call}

module _ {S : Type 0} (iam : Outside S) (key : Option String) (scope : Scope) (s : S) where
  -- Refused with 401, whatever is mounted.
  pub record IsRefused (answer : Mounted S → Option Response × S) : Type 0 where
    pub message : String
    pub after : S
    pub refused : (app : Mounted S) → answer app ≡ (some (unauthorized message), after)

  -- Passed on with the bearer token of the request, which IAMClient took for an API key of a known identity.
  pub record IsPassed (answer : Mounted S → Option Response × S) : Type 0 where
    pub identity : Json
    pub known : truthy identity ≡ true
    pub trusted : IsTrustedKey iam (scope_token scope) s identity
    pub after : S
    pub passed :
        (app : Mounted S)
        → answer app ≡ app (some (scope_token scope)) (record scope { root_path = "/mcp" }) after

  checked :
      IsRefused
        (λ app. check_key iam app (record scope { root_path = "/mcp" }) (scope_token scope) s)
      ⊎ IsPassed
          (λ app. check_key iam app (record scope { root_path = "/mcp" }) (scope_token scope) s)
  unfolding check_key admit
  checked = elim (Bool-cases ((scope_token scope == "") || not (is_api_key (scope_token scope)))) [
    | inl missing ↦ inl (record {
      message = "missing or invalid omni_sk_ API key";
      after = s;
      refused = λ app. rw missing;
    })
    | inr given ↦ elim (validate_api_key-IsTrusted iam (scope_token scope) s) [
      | inl invalid ↦ inl (record {
        message = "invalid api key";
        after = (validate_api_key iam (scope_token scope) s).1;
        refused = λ app. rw (given, invalid);
      })
      | inr (j, answered, trusted) ↦ elim (Bool-cases (truthy j)) [
        | inl known ↦ inr (record {
          identity = j;
          known = known;
          trusted = trusted;
          after = (validate_api_key iam (scope_token scope) s).1;
          passed = λ app. rw (given, answered, known);
        })
        | inr unknown ↦ inl (record {
          message = "invalid api key";
          after = (validate_api_key iam (scope_token scope) s).1;
          refused = λ app. rw (given, answered, unknown);
        })
      ]
    ]
  ]

  -- An HTTP request to the mount is refused with 401, whatever is mounted, or IAMClient trusts its bearer token
  -- as an API key of a known identity, and the mounted application runs, with this key and with its own
  -- root path, from the state that the check leaves.
  pub call-IsGated :
      (scope.kind == "http") ≡ true
      → IsRefused (λ app. call iam app key scope s) ⊎ IsPassed (λ app. call iam app key scope s)
  unfolding call
  call-IsGated http = rw http checked
