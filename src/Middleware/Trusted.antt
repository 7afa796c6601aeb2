-- ===== src/Middleware/Trusted.antt =====
-- The chain of middlewares on top of IAMClient (app/services/iam_client.py).
use omnibioai_api_gateway.Prelude.{
  ◌≡◌, ◌⊎◌, inl, inr, String, true, false, Option, some, Bool-cases, Option-cases, is_some,
}
use omnibioai_api_gateway.Json.{Json, truthy}
use omnibioai_api_gateway.Http.{Request, User, ApiKey, State}
use omnibioai_api_gateway.Router.{resolve_service}
use omnibioai_api_gateway.Router.Exemptions.{route_service}
use omnibioai_api_gateway.Middleware.{Services, authenticate}
use omnibioai_api_gateway.RequestState.{is_api_key, bearer_token}
use omnibioai_api_gateway.Middleware.Guards.{IsAdmitted, service_needs_checks}
use omnibioai_api_gateway.Iam.{Outside, token_key}
use omnibioai_api_gateway.Iam.Validate.{validate}
use omnibioai_api_gateway.Iam.ApiKeys.{validate_api_key}
use omnibioai_api_gateway.Iam.Trust.{NullOr, IsSigned, IsConfirmed, validate-IsTrusted}
use omnibioai_api_gateway.Iam.KeyTrust.{IsTrustedKey, validate_api_key-IsTrusted}

module _ {S : Type 0} (iam : Outside S) (s : S) where
  -- IAMClient has a reason to take the bearer token for an identity: a signed cache entry, or an answer of the
  -- auth service.
  pub data IsIdentified (t : String) : Type 0 where
    by_session :
        is_api_key t ≡ false
        → (j : Json) → IsSigned iam t (token_key t) s j ⊎ IsConfirmed iam t j
        → IsIdentified t
    by_key : is_api_key t ≡ true → (j : Json) → IsTrustedKey iam t s j → IsIdentified t

  -- A result that is an identity is no None.
  known_of :
      (P : Json → Type 0) (r : Option Json) (j : Json)
      → NullOr iam P r
      → r ≡ some j
      → truthy j ≡ true
      → (k : Json) × P k
  known_of P r j (inl nothing) e known = cc (nothing, e, known)
  known_of P r j (inr (k, _, p)) e known = (k, p)

  module _ (sv : Services) where
    -- The middlewares run on this IAMClient in this state: an identity that they get is a dict that it returned.
    pub record RunsOn : Type 0 where
      pub token :
          (t : String) (u : User)
          → sv.validate t ≡ some u
          → (j : Json) × ((validate iam t s).0 ≡ some j) × (truthy j ≡ true)
      pub api_key :
          (t : String) (u : User × ApiKey)
          → sv.validate_api_key t ≡ some u
          → (j : Json) × ((validate_api_key iam t s).0 ≡ some j) × (truthy j ≡ true)

    authenticate-IsIdentified :
        (st st' : State) (t : String) → RunsOn → authenticate sv st t ≡ some st' → IsIdentified t
    unfolding authenticate
    authenticate-IsIdentified st st' t runs h = elim (Bool-cases (is_api_key t)) [
      | inl key ↦ elim (Option-cases (sv.validate_api_key t)) [
        | inl refused ↦ cc (rw (key, refused) at h)
        | inr (u, accepted) ↦
            let (j, answered, known) = runs.api_key t u accepted in
            let (k, trusted) =
              known_of (IsTrustedKey iam t s) _ j (validate_api_key-IsTrusted iam t s) answered
                known in
            by_key key k trusted
      ]
      | inr session ↦ elim (Option-cases (sv.validate t)) [
        | inl refused ↦ cc (rw (session, refused) at h)
        | inr (u, accepted) ↦
            let (j, answered, known) = runs.token t u accepted in
            let (k, trusted) =
              known_of (λ j. IsSigned iam t (token_key t) s j ⊎ IsConfirmed iam t j) _ j
                (validate-IsTrusted iam t s) answered known in
            by_session session k trusted
      ]
    ]

    -- Where every identity that the middlewares get is a dict that IAMClient returned, a request
    -- that passed them, on a path that the catch-all route forwards to a service, carries a bearer
    -- token that IAMClient identified: it stands in a cache entry that is signed for it, or the
    -- auth service confirmed it.
    pub service_needs_identity :
        (req : Request) (st st' : State)
        → RunsOn
        → IsAdmitted sv req st st'
        → is_some (resolve_service (route_service req.path)) ≡ true
        → IsIdentified (bearer_token req.authorization)
    service_needs_identity req st st' runs admitted service =
        authenticate-IsIdentified st st' (bearer_token req.authorization) runs
          (service_needs_checks sv req st st' admitted service).0
