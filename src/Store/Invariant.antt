-- ===== src/Store/Invariant.antt =====
-- The invariant of the versions in crates/tracedb-store/src/lib.rs.
use tracedb.Base.{
  ◌≤◌, Text, text_eq, Bool, List, [], ◌∷◌, ◌≡◌, refl, arith, modify_last, keep, length, find_last,
  Bool-cases, Option-cases, inl, inr, ok_or, ok_or-eq-ok, map, sym,
}
use tracedb.Base.Exec.{lift-keeps}
use tracedb.Base.Map
use tracedb.Core.Types.{
  Epoch, TableSchema, RecordInput, RecordDeletion, FeatureInvalidation, External,
}
use tracedb.Store.Record.{
  StoredRecord, RecordHeader, RecordStore, record_key, is_live, versions_at, put_versions,
  default_store,
}
use tracedb.Store.Read.{covers}
use tracedb.Store.Apply.{
  apply_mutation, apply_replacement, apply_delete, apply_feature_invalidation, set_feature,
  invalidated,
}
use tracedb.Store.Versions.{versions_at-put_versions}
use tracedb.Store.Writes.{
  Writes, kept, closed, appended, tombstoned, apply_mutation-Writes, apply_replacement-Writes,
  apply_delete-Writes,
}
use tracedb.Store.Chain.{
  IsChain, IsChain-mono, IsClosedChain-IsChain, close_current-IsClosedChain, append-IsChain,
  close_live-eq, one_covers,
}

-- `IsVersioned hi s`: no write came after the epoch `hi`.
pub record IsVersioned {V : Type 0} (hi : Epoch) (s : RecordStore V) : Type 0 where
  pub at_key : (k : Text) → IsChain 0 hi (versions_at k s)

module _ {V : Type 0} where
  put_versions-IsVersioned :
      (hi e : Epoch) (s : RecordStore V) (k : Text) (vs : List (StoredRecord V))
      → hi ≤ e
      → IsVersioned hi s
      → IsChain 0 e vs
      → IsVersioned e (put_versions k vs s)
  put_versions-IsVersioned hi e s k vs le h c = record {
    at_key = λ j. elim (Bool-cases (text_eq j k)) [
      | inl same ↦ rw (versions_at-put_versions, same) c
      | inr other ↦
          rw (versions_at-put_versions, other)
            (IsChain-mono 0 hi e (versions_at j s) le (h.at_key j))
    ];
  }

  pub Writes-IsVersioned :
      (hi e : Epoch) (k : Text) (s s' : RecordStore V)
      → hi ≤ e
      → IsVersioned hi s
      → Writes e k s s'
      → IsVersioned e s'
  Writes-IsVersioned hi e k s s' le h (kept p) =
      rw p (record { at_key = λ j. IsChain-mono 0 hi e (versions_at j s) le (h.at_key j) })
  Writes-IsVersioned hi e k s s' le h (closed p) = rw p (
      put_versions-IsVersioned hi e s k _ le h
        (IsClosedChain-IsChain 0 e _ (close_current-IsClosedChain 0 hi e _ le (h.at_key k))))
  Writes-IsVersioned hi e k s s' le h (appended new b o key p) = rw p (
      put_versions-IsVersioned hi e s k _ le h
        (append-IsChain 0 e _ new b o (close_current-IsClosedChain 0 hi e _ le (h.at_key k))))
  Writes-IsVersioned hi e k s s' le h (tombstoned previous new l b o d key p) = rw p (
      rw (close_live-eq 0 hi e (versions_at k s) (h.at_key k) l) (
        put_versions-IsVersioned hi e s k _ le h
          (append-IsChain 0 e _ new b o (close_current-IsClosedChain 0 hi e _ le (h.at_key k)))))

  abbrev headers : List (StoredRecord V) → List RecordHeader
  headers rs = map (λ r. r.header) rs

  -- A chain is a matter of the headers.
  IsChain-headers :
      (lo hi : Epoch) (rs qs : List (StoredRecord V))
      → headers rs ≡ headers qs
      → IsChain lo hi rs
      → IsChain lo hi qs
  IsChain-headers lo hi [] [] p h = h
  IsChain-headers lo hi [] (q ∷ qs) p h = absurd (cc)
  IsChain-headers lo hi (r ∷ rs) [] p h = absurd (cc)
  IsChain-headers lo hi (r ∷ []) (q ∷ []) p h = ground arith
  IsChain-headers lo hi (r ∷ []) (q ∷ q' ∷ qs) p h = absurd (cc)
  IsChain-headers lo hi (r ∷ r' ∷ rs) (q ∷ []) p h = absurd (cc)
  IsChain-headers lo hi (r ∷ r' ∷ rs) (q ∷ q' ∷ qs) p h = elim (Option-cases q.header.end_epoch) [
    | inl o ↦ absurd (ground arith)
    | inr (end, o) ↦ ground (arith, IsChain-headers end hi (r' ∷ rs) (q' ∷ qs))
  ]

  headers-modify_last :
      (p : StoredRecord V → Bool) (f : StoredRecord V → StoredRecord V)
      → ((r : StoredRecord V) → (f r).header ≡ r.header)
      → (rs : List (StoredRecord V)) → headers (modify_last p f rs) ≡ headers rs
  headers-modify_last p f same [] = refl
  headers-modify_last p f same (r ∷ rs) = ground (arith, same r, headers-modify_last p f same rs)

  invalidation-IsVersioned :
      (i : FeatureInvalidation) (hi e : Epoch) (s : RecordStore V)
      → hi ≤ e
      → IsVersioned hi s
      → IsVersioned e (apply_feature_invalidation i e s).1
  unfolding apply_feature_invalidation versions_at
  invalidation-IsVersioned i hi e s le h =
      let k = record_key i.table i.tenant_id i.record_id in
      let before : IsVersioned e s = record {
        at_key = λ j. IsChain-mono 0 hi e (versions_at j s) le (h.at_key j);
      } in
      lift-keeps (IsVersioned e) (ok_or (Map.get k s.versions) _) _ s before λ vs found.
        lift-keeps (IsVersioned e) (ok_or (find_last is_live vs) _) _ s before λ current live.
          lift-keeps (IsVersioned e) (ok_or (Map.get i.feature current.features) _) _ s before
            λ state there.
              let at : versions_at k s ≡ vs = rw (ok_or-eq-ok (Map.get k s.versions) _ found) in
              put_versions-IsVersioned hi e s k _ le h (
                IsChain-headers 0 e vs _
                  (sym (
                    headers-modify_last is_live (set_feature i.feature (invalidated i e state))
                      (λ r. refl) vs))
                  (rw at at (before.at_key k)))

-- One write of a commit, at the commit's epoch.
pub data Write (V : Type 0) : Type 0 where
  replacement : TableSchema → RecordInput V → Write V
  mutation : TableSchema → RecordInput V → Write V
  deletion : TableSchema → RecordDeletion → Write V
  invalidation : FeatureInvalidation → Write V

module _ {V : Type 0} ⦃x : External V⦄ where
  -- The store that a write leaves, whether it succeeds or not.
  abbrev pub after : Write V → Epoch → RecordStore V → RecordStore V
  after (replacement schema input) e s = (apply_replacement schema input e s).1
  after (mutation schema input) e s = (apply_mutation schema input e s).1
  after (deletion schema d) e s = (apply_delete schema d e s).1
  after (invalidation i) e s = (apply_feature_invalidation i e s).1

  -- If the versions of every record are a chain up to the epoch `hi`, then after any one write at an
  -- epoch from `hi` on, a replacement, a mutation, a deletion or a feature invalidation, also one
  -- that fails, they are a chain up to that epoch.
  pub after-IsVersioned :
      (w : Write V) (hi e : Epoch) (s : RecordStore V)
      → hi ≤ e
      → IsVersioned hi s
      → IsVersioned e (after w e s)
  after-IsVersioned (replacement schema m) hi e s le h =
      Writes-IsVersioned hi e _ s _ le h (apply_replacement-Writes schema m e s)
  after-IsVersioned (mutation schema m) hi e s le h =
      Writes-IsVersioned hi e _ s _ le h (apply_mutation-Writes schema m e s)
  after-IsVersioned (deletion schema d) hi e s le h =
      Writes-IsVersioned hi e _ s _ le h (apply_delete-Writes schema d e s)
  after-IsVersioned (invalidation i) hi e s le h = invalidation-IsVersioned i hi e s le h

  -- A run of writes, each at its epoch.
  abbrev pub run : List (Epoch × Write V) → RecordStore V → RecordStore V
  run [] s = s
  run ((e, w) ∷ ws) s = run ws (after w e s)

  -- The epochs do not fall, from `lo` on.
  abbrev pub IsOrdered : Epoch → List (Epoch × Write V) → Type 0
  IsOrdered lo [] = Unit
  IsOrdered lo ((e, w) ∷ ws) = (lo ≤ e) × IsOrdered e ws

  run-IsVersioned :
      (hi : Epoch) (ws : List (Epoch × Write V)) (s : RecordStore V)
      → IsOrdered hi ws
      → IsVersioned hi s
      → (top : Epoch) × IsVersioned top (run ws s)
  run-IsVersioned hi [] s o h = (hi, h)
  run-IsVersioned hi ((e, w) ∷ ws) s o h =
      run-IsVersioned e ws (after w e s) o.1 (after-IsVersioned w hi e s o.0 h)

  pub default-IsVersioned : IsVersioned 0 (default_store {V = V})
  unfolding versions_at Map.get
  default-IsVersioned = record { at_key = λ k. omega arith }

  -- From the empty store, after any writes at epochs that never fall, failed ones included, at most
  -- one version of a record holds any epoch.
  pub run-one_covers :
      (ws : List (Epoch × Write V)) (k : Text) (e : Epoch)
      → IsOrdered 0 ws
      → length (keep (covers e) (versions_at k (run ws default_store))) ≤ 1
  run-one_covers ws k e o =
      let (top, h) = run-IsVersioned 0 ws default_store o default-IsVersioned in
      one_covers 0 top e _ (h.at_key k)
