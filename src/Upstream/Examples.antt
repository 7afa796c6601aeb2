-- ===== src/Upstream/Examples.antt =====
-- The headers of a forwarded request whose client claims to be somebody else.
use omnibioai_api_gateway.Prelude.{String, List, [], ◌∷◌, All, none, some}
use omnibioai_api_gateway.Http.{State}
use omnibioai_api_gateway.Upstream.{build_upstream_headers}
use omnibioai_api_gateway.Upstream.Headers.{IsOwn, upstream_headers-IsOwn}

abbrev forged : List (String × String)
forged = ("X-User-ID", "root") ∷ ("accept", "*/*") ∷ ("authorization", "Bearer stolen") ∷ []

abbrev state : State
state = record { trace_id = "t-1"; user = none; token = some "session"; identity = none }

upstream_headers-IsOwn_example : All (IsOwn state) (build_upstream_headers forged state)
upstream_headers-IsOwn_example = upstream_headers-IsOwn forged state
