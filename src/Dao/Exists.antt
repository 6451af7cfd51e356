-- ===== src/Dao/Exists.antt =====
-- `recordToExists`
use cloud_service_broker.Prelude.{◌≡◌, refl, Bool, true, false, arith, if◌then◌else◌, is_some}
use cloud_service_broker.Prelude.Rows.{find}
use cloud_service_broker.Outcome.{Result, ok, err}
use cloud_service_broker.Gorm.{Gorm, is_record_not_found_error}
use Prim.Native.Nat.{ℕ}

unfoldable pub record_to_exists : {Row : Type 0} → Result Row → Result Bool
record_to_exists (ok _) = ok true
record_to_exists (err e) = if is_record_not_found_error e then ok false else err e

module _ {Row : Type 0} (same : Row → Row → Bool) (stamp : ℕ → Row → Row)
    (g : Gorm Row same stamp) where
  -- A test for a record that answers at all answers what the table holds.
  pub record_to_exists-first :
      (c : Row → Bool) (t : g.Table) (b : Bool)
      → record_to_exists (g.first c t) ≡ ok b
      → is_some (find c (g.live t)) ≡ b
  unfolding record_to_exists
  record_to_exists-first c t b h = by_outcome (g.first c t) refl h
    where
      by_outcome :
          (r : Result Row)
          → g.first c t ≡ r
          → record_to_exists r ≡ ok b
          → is_some (find c (g.live t)) ≡ b
      by_outcome (ok r) e k = ground (arith, g.first_ok c t r)
      by_outcome (err x) e k = ground (arith, g.first_missing c t x)
