-- ===== src/Temporal/Tests.antt =====
-- A record that holds from 3 to 5.
use tracedb.Base.{codes, text_eq, ◌||◌, ◌&&◌, ◌≡◌}
use tracedb.Base.Map
use tracedb.Temporal.Index.{
  TemporalIndex, closed_range, contains, insert_range, as_of, as_of-insert_range,
}

abbrev nothing : TemporalIndex
nothing = record { ranges = Map.empty }

as_of-insert_range_example :
    as_of (insert_range (codes "a") (closed_range 3 5) nothing) (codes "a") 5 ≡ (
      as_of nothing (codes "a") 5
      || (text_eq (codes "a") (codes "a") && contains (closed_range 3 5) 5))
as_of-insert_range_example = as_of-insert_range nothing (codes "a") (codes "a") (closed_range 3 5) 5
