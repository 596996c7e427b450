-- ===== src/Temporal/Index.antt =====
-- crates/tracedb-temporal/src/lib.rs: `TemporalRange` and `TemporalIndex`.
use tracedb.Base.{
  ℕ, Text, text_eq, text_eq_iff, Bool, true, false, ◌&&◌, ◌||◌, any, leb, Option, none, some, List,
  [], ◌∷◌, ◌++◌, unwrap_or, ◌≡◌, arith,
}
use tracedb.Base.Map
use tracedb.Base.Map.{Map}

pub record TemporalRange : Type 0 where
  pub start_epoch : ℕ
  pub end_epoch : Option ℕ

abbrev pub closed_range : ℕ → ℕ → TemporalRange
closed_range start_epoch end_epoch = record {
  start_epoch = start_epoch;
  end_epoch = some end_epoch;
}

unfoldable pub contains : TemporalRange → ℕ → Bool
contains range epoch =
    leb range.start_epoch epoch && elim range.end_epoch [ none ↦ true | some end ↦ leb epoch end ]

pub record TemporalIndex : Type 0 where
  pub ranges : Map (List TemporalRange)

unfoldable pub insert_range : Text → TemporalRange → TemporalIndex → TemporalIndex
insert_range record_id range index = record {
  ranges =
      Map.insert record_id (unwrap_or (Map.get record_id index.ranges) [] ++ range ∷ [])
        index.ranges;
}

unfoldable pub as_of : TemporalIndex → Text → ℕ → Bool
as_of index record_id epoch = elim (Map.get record_id index.ranges) [
  | none ↦ false
  | some ranges ↦ any (λ range. contains range epoch) ranges
]

any-append :
    (p : TemporalRange → Bool) (rs : List TemporalRange) (r : TemporalRange)
    → any p (rs ++ r ∷ []) ≡ (any p rs || p r)
any-append p [] r = ground arith
any-append p (q ∷ rs) r = ground (arith, any-append p rs r)

-- After a range is inserted for a record, the record holds at an epoch exactly if it did before or
-- the range contains the epoch, and every other record as before.
pub as_of-insert_range :
    (index : TemporalIndex) (r r' : Text) (range : TemporalRange) (epoch : ℕ)
    → as_of (insert_range r range index) r' epoch
      ≡ (as_of index r' epoch || (text_eq r' r && contains range epoch))
unfolding as_of insert_range
as_of-insert_range index r r' range epoch = ground (
  arith,
  Map.get-insert r' r (unwrap_or (Map.get r index.ranges) [] ++ range ∷ []) index.ranges,
  text_eq_iff r' r,
  any-append (λ q. contains q epoch) (unwrap_or (Map.get r index.ranges) []) range,
)
