-- ===== src/PathFinding/Trajectory.antt =====
-- `get_distance_for_throttles_velocities` of
-- llm_agent/llm_agent/infrastructure/navigation/path_finders/genetic.py: the points on the way.
use python_agent_with_idp.Prelude.{◌≡◌, refl, List, [], ◌∷◌}
use python_agent_with_idp.Exec.{Outcome, returned, raised, Exec, return, resume, ◌>>=◌}
use python_agent_with_idp.PathFinding.{
  Host, Arithmetic, Throttles, calculate_velocity, travel, calculate_total_distance,
}

module _ {F : Type 0} (ops : Arithmetic F) where
  -- distance_velocities, from the distance and the velocity so far
  unfoldable pub trajectory : F → F → Throttles → F → F → Exec Host (List (F × F))
  trajectory distance velocity [] m f = return ((distance, velocity) ∷ [])
  trajectory distance velocity (throttle ∷ throttles) m f = do
    velocity' ← calculate_velocity ops velocity throttle m f
    distance_velocities ← trajectory (ops.add distance velocity') velocity' throttles m f
    return ((distance, velocity) ∷ distance_velocities)

  unfoldable pub get_distance_for_throttles_velocities :
      F → F → F → Throttles → F → Exec Host (List (F × F))
  unfolding trajectory
  get_distance_for_throttles_velocities v0 m f throttles start_position =
      trajectory start_position v0 throttles m f

-- The last point, or this one.
abbrev pub last_point : {F : Type 0} → F × F → List (F × F) → F × F
last_point p [] = p
last_point p (q ∷ points) = last_point q points

-- The reply of `travel`, beside the points: the last of them, or the same exception.
abbrev pub Reaches : {F : Type 0} → F × F → Outcome (F × F) → Outcome (List (F × F)) → Type 0
Reaches p reached (returned points) = reached ≡ returned (last_point p points)
Reaches p reached (raised exc) = reached ≡ raised exc

Reaches-cons :
    {F : Type 0} (p q : F × F) (reached : Outcome (F × F)) (found : Outcome (List (F × F)))
    (s : Host)
    → Reaches q reached found
    → Reaches p reached (resume found (λ points. return (q ∷ points)) s).0
Reaches-cons p q reached (returned points) s h = h
Reaches-cons p q reached (raised exc) s h = h

Reaches-resume :
    {F : Type 0} (p : F × F) (r : Outcome F) (s : Host) (f : F → Exec Host (F × F))
    (g : F → Exec Host (List (F × F)))
    → ((v : F) → Reaches p (f v s).0 (g v s).0)
    → Reaches p (resume r f s).0 (resume r g s).0
Reaches-resume p (returned v) s f g h = h v
Reaches-resume p (raised exc) s f g h = refl

module _ {F : Type 0} (ops : Arithmetic F) where
  trajectory-Reaches :
      (p : F × F) (distance velocity : F) (throttles : Throttles) (m f : F) (s : Host)
      → Reaches p
          (travel ops distance velocity throttles m f s).0
          (trajectory ops distance velocity throttles m f s).0
  unfolding travel trajectory ◌>>=◌
  trajectory-Reaches p distance velocity [] m f s = refl
  trajectory-Reaches p distance velocity (throttle ∷ throttles) m f s =
      let (r, s') = calculate_velocity ops velocity throttle m f s in
      Reaches-resume p r s' _ _ (λ v.
        Reaches-cons p (distance, velocity) _ _ _
          (trajectory-Reaches (distance, velocity) (ops.add distance v) v throttles m f s'))

  -- The points from a start at 0 end where `calculate_total_distance` arrives, and the same
  -- exception is raised where the mass is no divisor.
  pub calculate_total_distance-Reaches :
      (v0 : F) (throttles : Throttles) (m f : F) (s : Host)
      → Reaches
          (ops.of_int 0, v0)
          (calculate_total_distance ops v0 throttles m f s).0
          (get_distance_for_throttles_velocities ops v0 m f throttles (ops.of_int 0) s).0
  unfolding calculate_total_distance get_distance_for_throttles_velocities
  calculate_total_distance-Reaches v0 throttles m f s =
      trajectory-Reaches (ops.of_int 0, v0) (ops.of_int 0) v0 throttles m f s
