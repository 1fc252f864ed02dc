-- ===== src/ConnectorGroup.antt =====
-- The groups of connectors (src/connector_group.cpp). A connector is known by the address of its
-- object; `alive` says which of the weak pointers still lock when an operation runs.
pub mod Operations
use meteodata_server.Base.{ℕ, Bool, List, [], ◌∷◌, ◌++◌, if◌then◌else◌}

-- What is called on a connector.
pub data Call : Type 0 where
  starts stops reloads : ℕ → Call

pub record ConnectorGroup : Type 0 where
  pub connectors : List ℕ
  pub calls : List Call

-- addConnector
unfoldable pub add_connector : ℕ → ConnectorGroup → ConnectorGroup
add_connector connector g = record g { connectors = g.connectors ++ (connector ∷ []) }

module _ (alive : ℕ → Bool) where
  -- `remove_if(..., expired)`
  abbrev pub unexpired : List ℕ → List ℕ
  unexpired [] = []
  unexpired (c ∷ rest) = let others = unexpired rest in if alive c then c ∷ others else others

  -- cleanupExpiredConnectors
  unfoldable pub cleanup_expired_connectors : ConnectorGroup → ConnectorGroup
  cleanup_expired_connectors g = record g { connectors = unexpired g.connectors }

  -- The loop over the connectors, each locked and called.
  abbrev pub call_each : (ℕ → Call) → List ℕ → List Call
  call_each call [] = []
  call_each call (c ∷ rest) =
      let others = call_each call rest in if alive c then call c ∷ others else others

  unfoldable pub call_all : (ℕ → Call) → ConnectorGroup → ConnectorGroup
  unfolding cleanup_expired_connectors
  call_all call g =
      let g' = cleanup_expired_connectors g in
      record g' { calls = g'.calls ++ call_each call g'.connectors }

  -- start
  unfoldable pub start : ConnectorGroup → ConnectorGroup
  unfolding call_all
  start = call_all starts

  -- stop
  unfoldable pub stop : ConnectorGroup → ConnectorGroup
  unfolding call_all
  stop = call_all stops

  -- reload
  unfoldable pub reload : ConnectorGroup → ConnectorGroup
  unfolding call_all
  reload = call_all reloads
