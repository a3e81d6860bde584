-- ===== src/Storage/Observers/Reports.antt =====
-- Reports count what is moved, and observers change nothing.
use path_oram.Prelude.{ℕ, ◌+◌, ◌≡◌, Bool, List, [], ◌∷◌, ◌>>=◌, if◌then◌else◌}
use path_oram.Storage.Observers.{Report}

-- The numbers of locations and of bytes that are reported.
abbrev pub batches : List Report → ℕ
batches [] = 0
batches (r ∷ reports) = r.batch + batches reports

abbrev pub sizes : List Report → ℕ
sizes [] = 0
sizes (r ∷ reports) = r.size + sizes reports

-- With an observer, everything is reported, and else nothing.
pub record Counts (observed : Bool) (locations bytes : ℕ) (reports : List Report) : Type 0 where
  pub all_locations : batches reports ≡ (if observed then locations else 0)
  pub all_bytes : sizes reports ≡ (if observed then bytes else 0)
