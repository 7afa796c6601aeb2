-- ===== src/Middleware.antt =====
-- app/middleware/*.py: the five middlewares, and their composition in app/main.py.
pub mod Guards
pub mod Trusted
pub mod Audited
mod Examples
use omnibioai_api_gateway.Prelude.{
  ℕ, String, Bool, true, false, Option, none, some, List, [], ◌∷◌, ◌++◌, ◌==◌, if◌then◌else◌, ltb,
  is_some,
}
use omnibioai_api_gateway.Prelude.Int.{pos}
use omnibioai_api_gateway.Json.{
  Json, Fields, null, bool, int, str, obj, field, end, get, get_or, truthy,
}
use omnibioai_api_gateway.Dict.{insert}
use omnibioai_api_gateway.Text.{begins_with, removeprefix, strip, is_space, ◌^^◌}
use omnibioai_api_gateway.Router.{resolve_required_permission, service_for_path, path_parts}
use omnibioai_api_gateway.Router.Exemptions.{
  is_public_research_submission, is_skipped, auth_skip_paths, policy_skip_paths, hpc_skip_paths,
}
use omnibioai_api_gateway.Http.{
  Request, User, ApiKey, Identity, State, Response, AuditEvent, App, Reply,
}
use omnibioai_api_gateway.Clients.{
  PolicyQuery, policy_query, policy_evaluate, action_of, HpcQuery, hpc_query, hpc_evaluate,
  is_compute_service,
}
use omnibioai_api_gateway.RequestState.{
  scope_of, organization_of, answer_json, or_null, action, fresh_state, with_trace, bearer_token,
  is_api_key, auth_failed, session_state, api_key_state, verdict_of, reason_of, iam_auth_success,
  denial, before, decide, first_part, hpc_service, user_id_of, roles_of,
}

-- What the middlewares call: IAMClient (app/services/iam_client.py), the policy engines by their clients, fresh
-- identifiers, and the clock.
pub record Services : Type 0 where
  pub validate : String → Option User
  pub validate_api_key : String → Option (User × ApiKey)
  pub post_policy : ℕ → PolicyQuery → Reply
  pub post_hpc : ℕ → HpcQuery → Reply
  pub uuid : String
  pub latency_ms : ℕ

module _ (sv : Services) where
  -- request.headers.get("X-Trace-Id") or a new one
  unfoldable pub trace_of : Request → String
  unfolding is_public_research_submission
  trace_of req =
      if is_public_research_submission req.method req.path
      then sv.uuid
      else (elim req.trace_header [ none ↦ sv.uuid | some t ↦ if t == "" then sv.uuid else t ])

  pub trace_middleware : App → App
  unfolding trace_of
  trace_middleware next req st =
      let trace_id = trace_of req in
      let (r, events) = next req (record st { trace_id = trace_id }) in
      (with_trace trace_id r, events)

  -- The state that AuthMiddleware passes on for a token, or none where the token is refused.
  unfoldable pub authenticate : State → String → Option State
  unfolding is_api_key session_state api_key_state
  authenticate st token =
      if is_api_key token
      then elim (sv.validate_api_key token) [
        | none ↦ none
        | some (u, k) ↦ some (api_key_state st u k)
      ]
      else (elim (sv.validate token) [ none ↦ none | some u ↦ some (session_state st token u) ])

  pub auth_middleware : App → App
  unfolding is_skipped bearer_token authenticate auth_failed
  auth_middleware next req st =
      let token = bearer_token req.authorization in
      let refusal = if is_api_key token then "api key" else "token" in
      let reason = if is_api_key token then "invalid_api_key" else "invalid_token" in
      if is_skipped auth_skip_paths req.method req.path
      then next req st
      else if token == ""
      then (
        some (answer_json 401 (field "error" (str "missing token") end)),
        auth_failed req st "missing_token" ∷ [],
      )
      else (elim (authenticate st token) [
        | none ↦ (
          some (answer_json 401 (field "error" (str ("invalid " ^^ refusal)) end)),
          auth_failed req st reason ∷ [],
        )
        | some st' ↦ next req st'
      ])

  -- The policy engine's decision on a request of a user.
  unfoldable pub policy_decision : Request → State → User → Json
  unfolding policy_evaluate policy_query service_for_path resolve_required_permission
  policy_decision req st user =
      let service = service_for_path req.path in
      policy_evaluate sv.post_policy (
        policy_query user req.path req.method st.trace_id (resolve_required_permission service)
          service)

  pub policy_middleware : App → App
  unfolding is_skipped policy_decision iam_auth_success denial
  policy_middleware next req st =
      if is_skipped policy_skip_paths req.method req.path then next req st else (elim st.user [
        | none ↦ (some (answer_json 403 (field "error" (str "forbidden") end)), [])
        | some user ↦
            let decision = policy_decision req st user in
            before (iam_auth_success req st user ∷ []) (
              decide (verdict_of "allowed" decision)
                (answer_json 403
                  (field "error" (str "forbidden") (field "reason" (reason_of null decision) end)))
                (denial "policy_denied" req st user.user_id
                  (reason_of (str "policy_block") decision))
                (next req st))
      ])

  unfoldable pub hpc_decision : State → Json
  unfolding hpc_evaluate hpc_query
  hpc_decision st =
      hpc_evaluate sv.post_hpc (hpc_query (user_id_of st.user) st.trace_id (roles_of st.user))

  pub hpc_middleware : App → App
  unfolding is_skipped is_compute_service hpc_service hpc_decision denial
  hpc_middleware next req st =
      let decision = hpc_decision st in
      if is_skipped hpc_skip_paths req.method req.path
      then next req st
      else if is_compute_service (hpc_service req)
      then decide (verdict_of "allow" decision)
          (answer_json 403 (
            field "error" (str "HPC quota exceeded")
              (field "reason" (reason_of null decision) end)))
          (denial "hpc_denied" req st (user_id_of st.user)
            (reason_of (str "hpc_quota_exceeded") decision))
          (next req st)
      else next req st

  request_event : Request → State → Response → AuditEvent
  unfolding is_public_research_submission
  request_event req st r =
      let org = organization_of st.identity in
      let submission = is_public_research_submission req.method req.path in
      record {
        event_type = "request";
        action = action req;
        user_id = elim st.user [ none ↦ none | some u ↦ some u.user_id ];
        organization_id = org;
        tenant_scope = scope_of org;
        resource = none;
        decision = some (if ltb r.status 400 then "allow" else "deny");
        reason = null;
        trace_id = st.trace_id;
        context = field "endpoint" (str (if submission then req.path else req.url)) (
            field "latency_ms" (int (pos sv.latency_ms))
              (field "status_code" (int (pos r.status)) end));
      }

  abbrev audited :
      Request → State → Option Response × List AuditEvent → Option Response × List AuditEvent
  audited req st (none, events) = (none, events)
  audited req st (some r, events) = (some r, events ++ request_event req st r ∷ [])

  pub audit_middleware : App → App
  unfolding request_event
  audit_middleware next req st = audited req st (next req st)

  -- app.add_middleware, the last added outermost
  pub gateway_chain : App → Request → Option Response × List AuditEvent
  unfolding trace_middleware
  gateway_chain handler req =
      trace_middleware
        (auth_middleware (policy_middleware (hpc_middleware (audit_middleware handler)))) req
        fresh_state
