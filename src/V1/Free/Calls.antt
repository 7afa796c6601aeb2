-- ===== src/V1/Free/Calls.antt =====
-- Which calls the routes that are not billed make, and that they record nothing.
use omnibioai_api_gateway.Prelude.{
  ◌≡◌, refl, String, Option, none, some, [], ◌∷◌, ◌++◌, ◌==◌, Bool-cases, Option-cases, inl, inr,
}
use omnibioai_api_gateway.Json.{Json}
use omnibioai_api_gateway.Exec.{pure}
use omnibioai_api_gateway.Text.{◌^^◌}
use omnibioai_api_gateway.Http.{Request, State}
use omnibioai_api_gateway.Router.{resolve_service}
use omnibioai_api_gateway.Upstream.{Call, build_upstream_headers, with_query, text_or_empty}
use omnibioai_api_gateway.V1.{
  World, Outside, RateHeaders, Answer, caller_of, rate_limited, call_service,
}
use omnibioai_api_gateway.V1.Billable.{forward_to}
use omnibioai_api_gateway.V1.Free.{
  Enquiry, Action, enquire, when_allowed, after_limits, for_organization, org_id,
  literature_studies, literature_domains, literature_usage, literature_models, set_provider_key,
  get_provider_key, delete_provider_key, with_body, models_answer, studies_enquiry, studies_answer,
  domains_answer, usage_enquiry, provider_key_enquiry, key_path, keys_path,
}

abbrev url_of : Enquiry → String
url_of e = text_or_empty (resolve_service e.service) ^^ "/" ^^ e.path

module _ {S : Type 0} (req : Request) (st : State) where
  -- From `w` came `x`: nothing changed but the store, or beside it one call was made, to this URL with the
  -- request's query, and with the headers of the verified identity. Either way no usage event was recorded.
  pub data Enquires (url : String) (w : World S) (x : Option Answer × World S) : Type 0 where
    unasked : (s : S) → x.1 ≡ record w { store = s } → Enquires url w x
    asked :
        (c : Call) (s : S)
        → c.url ≡ with_query url req.query
        → c.headers ≡ build_upstream_headers req.headers st
        → x.1 ≡ record w { store = s; calls = w.calls ++ c ∷ [] }
        → Enquires url w x

  module _ (o : Outside S) where
    enquire-Enquires :
        (e : Enquiry) (limits : RateHeaders) (w : World S)
        → Enquires (url_of e) w (enquire o req st e limits w)
    unfolding enquire forward_to call_service
    enquire-Enquires e limits w = asked _ w.store refl refl refl

    earlier :
        (url : String) (s : S) (w : World S) {x : Option Answer × World S}
        → Enquires url (record w { store = s }) x
        → Enquires url w x
    earlier url s w (unasked t e) = unasked t e
    earlier url s w (asked c t u h e) = asked c t u h e

    when_allowed-Enquires :
        (url : String) (next : RateHeaders → Action o req st)
        (limited : RateHeaders × Option Answer) (w : World S)
        → ((limits : RateHeaders) → Enquires url w (next limits w))
        → Enquires url w (when_allowed o req st next limited w)
    unfolding when_allowed
    when_allowed-Enquires url next (limits, none) w h = h limits
    when_allowed-Enquires url next (limits, some refusal) w h = unasked w.store refl

    after_limits-Enquires :
        (url : String) (next : RateHeaders → Action o req st) (w : World S)
        → ((limits : RateHeaders) (w1 : World S) → Enquires url w1 (next limits w1))
        → Enquires url w (after_limits o req st next w)
    unfolding after_limits
    after_limits-Enquires url next w h =
        let (r, s) = rate_limited o (caller_of st.identity) st.trace_id w.store in
        elim (Option-cases (rate_limited o (caller_of st.identity) st.trace_id w.store).0) [
          | inl raised ↦ rw raised (unasked s refl)
          | inr (limited, known) ↦ rw known (
              earlier url s w (
                when_allowed-Enquires url next limited (record w { store = s })
                  (λ limits. h limits (record w { store = s }))))
        ]

    for_organization-Enquires :
        (url : String) (next : Action o req st) (w : World S)
        → Enquires url w (next w)
        → Enquires url w (for_organization o req st next w)
    unfolding for_organization
    for_organization-Enquires url next w h = elim (Bool-cases (org_id o req st == "")) [
      | inl nobody ↦ rw nobody (unasked w.store refl)
      | inr somebody ↦ rw somebody h
    ]

    asks :
        (e : Enquiry) (w : World S)
        → Enquires (url_of e) w (after_limits o req st (enquire o req st e) w)
    asks e w = after_limits-Enquires (url_of e) (enquire o req st e) w (enquire-Enquires e)

    with_body-Enquires :
        (url : String) (next : Json → Action o req st) (body : Option Json) (w : World S)
        → ((b : Json) → Enquires url w (next b w))
        → Enquires url w (with_body o req st next body w)
    unfolding with_body
    with_body-Enquires url next none w h = unasked w.store refl
    with_body-Enquires url next (some body) w h = h body

    when_allowed_store :
        (next : RateHeaders → Answer) (limited : RateHeaders × Option Answer) (w : World S)
        → (when_allowed o req st (λ limits. pure (next limits)) limited w).1 ≡ w
    unfolding when_allowed
    when_allowed_store next (limits, none) w = refl
    when_allowed_store next (limits, some refusal) w = refl

    models_store :
        (w : World S) → (s : S) × ((literature_models o req st w).1 ≡ record w { store = s })
    unfolding literature_models after_limits
    models_store w =
        let (r, s) = rate_limited o (caller_of st.identity) st.trace_id w.store in
        elim (Option-cases (rate_limited o (caller_of st.identity) st.trace_id w.store).0) [
          | inl raised ↦ (s, rw raised refl)
          | inr (limited, known) ↦ (
            s,
            rw known (when_allowed_store (models_answer o req st) limited (record w { store = s })),
          )
        ]

    abbrev pub caller_org : String
    caller_org = (caller_of st.identity).org_id

    -- Whatever the store and the services do, the seven routes that are not billed record no usage event, and each
    -- makes at most one call, with the headers of the verified identity: to the list of studies, to the
    -- usage limits of the caller's own organization, or to that organization's provider keys. The list
    -- of models makes none.
    pub free_routes-Enquires :
        (provider : String) (w : World S)
        → Enquires "http://rag:8096/v1/studies" w (literature_studies o req st w)
          × Enquires "http://rag:8096/v1/studies" w (literature_domains o req st w)
          × Enquires
              ("http://billing-service:8005" ^^ "/" ^^ "billing/organizations/" ^^ caller_org
                ^^ "/subscription/usage-limits")
              w
              (literature_usage o req st w)
          × ((s : S) × ((literature_models o req st w).1 ≡ record w { store = s }))
          × Enquires
              ("http://omnibioai-auth:8000" ^^ "/" ^^ "orgs/" ^^ caller_org ^^ "/provider-keys/"
                ^^ provider)
              w
              (set_provider_key o req st provider w)
          × Enquires
              ("http://omnibioai-auth:8000" ^^ "/" ^^ "orgs/" ^^ caller_org ^^ "/provider-keys")
              w
              (get_provider_key o req st w)
          × Enquires
              ("http://omnibioai-auth:8000" ^^ "/" ^^ "orgs/" ^^ caller_org ^^ "/provider-keys/"
                ^^ provider)
              w
              (delete_provider_key o req st provider w)
    unfolding resolve_service literature_studies literature_domains literature_usage
        set_provider_key get_provider_key delete_provider_key
    free_routes-Enquires provider w = (
      asks (studies_enquiry studies_answer) w,
      asks (studies_enquiry domains_answer) w,
      for_organization-Enquires _ _ w (asks (usage_enquiry (org_id o req st)) w),
      models_store w,
      for_organization-Enquires _ _ w (
          with_body-Enquires _ _ req.body w
            (λ b. asks (provider_key_enquiry "PUT" (key_path o req st provider) (some b)) w)),
      for_organization-Enquires _ _ w
          (asks (provider_key_enquiry "GET" (keys_path o req st) none) w),
      for_organization-Enquires _ _ w
          (asks (provider_key_enquiry "DELETE" (key_path o req st provider) none) w),
    )
