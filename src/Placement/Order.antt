-- ===== src/Placement/Order.antt =====
-- The order by which internal/placement/v1alpha1.go replaces a candidate: strict, whatever the
-- measurements, NaN included.
use orch.Prelude.{Bool, true, false, Option, ◌≡◌, arith}
use orch.Placement.Libraries.{Float64, Float64Laws, OrderedSet}
use orch.Placement.Choose.{ScoredNode, should_replace_candidate}

module _ {F O : Type 0} (fl : Float64 F) (laws : Float64Laws fl) (set : OrderedSet O) where
  -- No candidate replaces itself.
  pub should_replace_irrefl :
      (a : ScoredNode F) (pref : Option O) (restricted : Bool)
      → should_replace_candidate fl set a a pref restricted ≡ false
  unfolding should_replace_candidate
  should_replace_irrefl a pref restricted = ground (arith, laws.lt_irrefl a.snap.cpu_usage_percent)

  -- Under the laws of the float64 comparisons, what replaces a replacement replaces what was replaced.
  pub should_replace_trans :
      (a b c : ScoredNode F) (pref : Option O) (restricted : Bool)
      → should_replace_candidate fl set a b pref restricted ≡ true
      → should_replace_candidate fl set b c pref restricted ≡ true
      → should_replace_candidate fl set a c pref restricted ≡ true
  unfolding should_replace_candidate
  should_replace_trans a b c pref restricted p q =
      let x = a.snap.cpu_usage_percent in
      let y = b.snap.cpu_usage_percent in
      let z = c.snap.cpu_usage_percent in
      ground (
        arith,
        laws.lt_trans x y z,
        laws.lt_not_eq x z,
        laws.lt_eq x y z,
        laws.eq_lt x y z,
        laws.eq_trans x y z,
      )
