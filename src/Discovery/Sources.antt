-- ===== src/Discovery/Sources.antt =====
-- The sources of a discovery service.
use near_object_framework.Common.{ℕ, ◌≡◌, sym, ◌∙◌, List, [], ◌∷◌, ◌++◌, append_assoc, append-nil}
use near_object_framework.Discovery.{NearObjectDiscoveryService, register_discovery_source}

pub register_all : List ℕ → NearObjectDiscoveryService → NearObjectDiscoveryService
register_all [] service = service
register_all (source ∷ sources) service =
    register_all sources (register_discovery_source source service)

-- After any calls of RegisterDiscoverySource the service has, behind the sources that it had, those that
-- were registered, in order.
pub sources_in_order :
    (sources : List ℕ) (service : NearObjectDiscoveryService)
    → (register_all sources service).m_discovery_sources ≡ service.m_discovery_sources ++ sources
unfolding register_all register_discovery_source
sources_in_order [] service = sym (append-nil service.m_discovery_sources)
sources_in_order (source ∷ sources) service =
    sources_in_order sources (register_discovery_source source service)
    ∙ append_assoc service.m_discovery_sources (source ∷ []) sources
