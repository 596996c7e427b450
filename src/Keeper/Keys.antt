-- ===== src/Keeper/Keys.antt =====
-- Idempotency keys of crates/tracedb-keeper/src/lib.rs.
use tracedb.Base.{
  Text, text_eq_iff, Bool, true, &&_iff, not, ◌==◌, all, some, List, [], ◌∷◌, ◌++◌, ok, ◌≡◌, refl,
  sym, arith, inl, inr,
}
use tracedb.Base.Map
use tracedb.Base.Map.{Map}
use tracedb.Keeper.Service.{
  CommitRequest, CommitAck, BranchWalService, Host, default_service, idempotency_key, ack_of,
  recorded, commit, commit_all,
}
use tracedb.Keeper.Commits.{commit-cases}

-- No unit separator in a text.
abbrev pub separator_free : Text → Bool
separator_free s = all (λ c. not (c == 0x1f)) s

separator_splits :
    (s s' r r' : Text)
    → separator_free s ≡ true
    → separator_free s' ≡ true
    → s ++ (0x1f ∷ r) ≡ s' ++ (0x1f ∷ r')
    → (s ≡ s') × (r ≡ r')
separator_splits [] [] r r' h h' p = ground arith
separator_splits [] (b ∷ s') r r' h h' p = ground arith
separator_splits (a ∷ s) [] r r' h h' p = ground arith
separator_splits (a ∷ s) (b ∷ s') r r' h h' p = ground (arith, separator_splits s s' r r')

-- Each acknowledgement stands under its own key.
IsKeyed : BranchWalService → Type 0
IsKeyed s =
    (key : Text) (ack : CommitAck)
    → Map.get key s.idempotent ≡ some ack
    → (separator_free ack.branch_id ≡ true)
      × (key ≡ idempotency_key ack.branch_id ack.idempotency_key)

recorded-IsKeyed :
    (request : CommitRequest) (s : BranchWalService)
    → separator_free request.branch_id ≡ true
    → IsKeyed s
    → IsKeyed (recorded request s)
unfolding recorded IsKeyed
recorded-IsKeyed request s free h key ack there = ground (
  arith,
  h key ack,
  text_eq_iff key (idempotency_key request.branch_id request.idempotency_key),
  Map.get-insert key (idempotency_key request.branch_id request.idempotency_key) (ack_of s request)
      s.idempotent,
)

module _ {W : Type 0} (host : Host W) where
  commit-IsKeyed :
      (request : CommitRequest) (s : BranchWalService) (w : W)
      → separator_free request.branch_id ≡ true
      → IsKeyed s
      → IsKeyed (commit host request (s, w)).1.0
  commit-IsKeyed request s w free h = elim (commit-cases host request s w) [
    | inl (ack, there, p) ↦ rw p h
    | inr (new, p, _) ↦ rw p (recorded-IsKeyed request s free h)
  ]

  commit_all-IsKeyed :
      (requests : List CommitRequest) (s : BranchWalService) (w : W)
      → all (λ r. separator_free r.branch_id) requests ≡ true
      → IsKeyed s
      → IsKeyed (commit_all host requests (s, w)).0
  commit_all-IsKeyed [] s w free h = h
  commit_all-IsKeyed (request ∷ requests) s w free h =
      let (here, rest) =
        (&&_iff (separator_free request.branch_id)
            (all (λ r. separator_free r.branch_id) requests)).0
          free in
      commit_all-IsKeyed requests (commit host request (s, w)).1.0 (commit host request (s, w)).1.1
        rest (commit-IsKeyed request s w here h)

  default-IsKeyed : IsKeyed default_service
  unfolding IsKeyed Map.get
  default-IsKeyed key ack there = absurd (cc)

  own_commit :
      (request : CommitRequest) (s : BranchWalService) (w : W) {ack : CommitAck}
      → separator_free request.branch_id ≡ true
      → IsKeyed s
      → (commit host request (s, w)).0 ≡ ok ack
      → (ack.branch_id ≡ request.branch_id) × (ack.idempotency_key ≡ request.idempotency_key)
  unfolding IsKeyed idempotency_key
  own_commit request s w {ack} free h given = elim (commit-cases host request s w) [
    | inl (known, there, p) ↦
        let (free', key) =
          h (idempotency_key request.branch_id request.idempotency_key) known there in
        let is : known ≡ ack = ground arith in
        let (b, k) =
          separator_splits request.branch_id known.branch_id request.idempotency_key
            known.idempotency_key free free' key in
        rw (← is) (sym b, sym k)
    | inr (new, p, gives) ↦ rw (gives ack given) (refl, refl)
  ]

  -- From the empty service, after any calls of `commit` on branches whose names have no unit separator, a
  -- commit on such a branch that is acknowledged is acknowledged for its own branch and key.
  pub commit_all-own :
      (requests : List CommitRequest) (request : CommitRequest) (w : W) {ack : CommitAck}
      → all (λ r. separator_free r.branch_id) requests ≡ true
      → separator_free request.branch_id ≡ true
      → (commit host request (commit_all host requests (default_service, w))).0 ≡ ok ack
      → (ack.branch_id ≡ request.branch_id) × (ack.idempotency_key ≡ request.idempotency_key)
  commit_all-own requests request w frees free given =
      let (s, w') = commit_all host requests (default_service, w) in
      own_commit request s w' free
        (commit_all-IsKeyed requests default_service w frees default-IsKeyed) given
