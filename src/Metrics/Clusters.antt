-- ===== src/Metrics/Clusters.antt =====
-- The second loop of `apply_energy_metrics`: the active gates, and the runs that they form.
use esp_wave_rider.Base.{
  ℕ, ◌+◌, ◌*◌, ◌%◌, ◌≤◌, ◌<◌, ◌≡◌, Bool, true, false, not, ◌&&◌, List, [], ◌∷◌, length, leb,
  if◌then◌else◌, arith,
}
use esp_wave_rider.Metrics.{ClusterScan, scan_clusters}

module _ (threshold : ℕ) where
  unfoldable pub count_active : List ℕ → ℕ
  count_active [] = 0
  count_active (g ∷ gs) = (if leb threshold g then 1 else 0) + count_active gs

  -- The active gates whose left neighbour is not active; `active_before` tells of the gate in front.
  unfoldable pub count_runs : Bool → List ℕ → ℕ
  count_runs active_before [] = 0
  count_runs active_before (g ∷ gs) =
      (if leb threshold g && not active_before then 1 else 0) + count_runs (leb threshold g) gs

  -- Every run has a gate, and two runs have an inactive gate between them.
  pub count_runs-le :
      (active_before : Bool) (gates : List ℕ)
      → (count_runs active_before gates ≤ count_active gates)
        × (count_active gates ≤ length gates)
        × (2 * count_runs active_before gates ≤ length gates + (if active_before then 0 else 1))
  unfolding count_active count_runs
  count_runs-le active_before [] = ground arith
  count_runs-le active_before (g ∷ gs) =
      ground (arith, count_runs-le true gs, count_runs-le false gs)

  -- The counters of the loop are those numbers, as long as they fit a byte.
  pub scan_clusters_counts :
      (gates : List ℕ) (st : ClusterScan)
      → st.active_count + length gates < 256
      → st.cluster_count + length gates < 256
      → ((scan_clusters threshold gates st).active_count ≡ st.active_count + count_active gates)
        × ((scan_clusters threshold gates st).cluster_count
            ≡ st.cluster_count + count_runs st.cluster_open gates)
  unfolding count_active count_runs scan_clusters
  scan_clusters_counts [] st h k = omega arith
  scan_clusters_counts (g ∷ gs) st h k = ground (
    arith,
    scan_clusters_counts gs (record {
      active_count = if leb threshold g then (st.active_count + 1) % 256 else st.active_count;
      cluster_count =
          if leb threshold g && not st.cluster_open
          then (st.cluster_count + 1) % 256
          else st.cluster_count;
      cluster_open =
          if leb threshold g && not st.cluster_open
          then true
          else if not (leb threshold g)
          then false
          else st.cluster_open;
    }),
  )
