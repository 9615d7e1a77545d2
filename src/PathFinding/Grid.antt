-- ===== src/PathFinding/Grid.antt =====
-- llm_agent/llm_agent/domain/grid/coordinate.py.
use python_agent_with_idp.Exec.{Outcome, returned}
use python_agent_with_idp.Exec.Results.{◌>>=◌}
use python_agent_with_idp.PathFinding.{Arithmetic}

pub record Coordinate (F : Type 0) : Type 0 where
  pub x : F
  pub y : F

-- ((self.x - other.x) ** 2 + (self.y - other.y) ** 2) ** 0.5
unfoldable pub calc_euclidean_distance :
    {F : Type 0} → Arithmetic F → Coordinate F → Coordinate F → Outcome F
calc_euclidean_distance ops a b = do
  dx2 ← ops.square (ops.sub a.x b.x)
  dy2 ← ops.square (ops.sub a.y b.y)
  returned (ops.root (ops.add dx2 dy2))
