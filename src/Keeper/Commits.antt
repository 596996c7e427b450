-- ===== src/Keeper/Commits.antt =====
-- Theorems on the commits of crates/tracedb-keeper/src/lib.rs.
use tracedb.Base.{
  ℕ, suc, zero, ◌+◌, ◌%◌, ◌^◌, Text, text_eq, text_eq_iff, text_eq_refl, none, some, List, [], ◌∷◌,
  ◌++◌, ok, if◌then◌else◌, ◌≡◌, refl, sym, arith, Option-cases, Bool-cases, inl, inr, ◌⊎◌,
}
use mathlib.Core.List.{append-nil}
use tracedb.Base.Map
use tracedb.Base.Map.{Map}
use tracedb.Keeper.Service.{
  CommitRequest, CommitAck, DurableCommit, BranchWalService, Host, default_service, idempotency_key,
  epoch_of, ack_of, recorded, commit, commit_all,
}

-- The first `n` epochs of a branch, from 1, as the counter gives them.
abbrev pub first_epochs : ℕ → List ℕ
first_epochs zero = []
first_epochs (suc n) = first_epochs n ++ (suc n % 2 ^ 64) ∷ []

-- The epochs in the log of one branch, in order.
abbrev pub branch_log : Text → List DurableCommit → List ℕ
branch_log b [] = []
branch_log b (d ∷ log) =
    if text_eq d.branch_id b then d.epoch ∷ branch_log b log else branch_log b log

branch_log-append :
    (b : Text) (log : List DurableCommit) (d : DurableCommit)
    → branch_log b (log ++ d ∷ [])
      ≡ branch_log b log ++ (if text_eq d.branch_id b then d.epoch ∷ [] else [])
branch_log-append b [] d = ground arith
branch_log-append b (c ∷ log) d = ground (arith, branch_log-append b log d)

-- The log of each branch holds the first epochs, and the counter is at the next.
IsNumbered : BranchWalService → Type 0
IsNumbered s =
    (b : Text)
    → (n : ℕ) × (branch_log b s.commit_log ≡ first_epochs n) × (epoch_of s b ≡ suc n % 2 ^ 64)

recorded-IsNumbered :
    (request : CommitRequest) (s : BranchWalService)
    → IsNumbered s
    → IsNumbered (recorded request s)
unfolding recorded IsNumbered
recorded-IsNumbered request s h b =
    let (n, logged, next) = h b in
    let log_is = branch_log-append b s.commit_log (record {
      branch_id = request.branch_id;
      epoch = epoch_of s request.branch_id;
      idempotency_key = request.idempotency_key;
      payload = request.payload;
    }) in
    let next_is =
      Map.get-insert b request.branch_id ((epoch_of s request.branch_id + 1) % 2 ^ 64)
        s.next_epoch in
    elim (Bool-cases (text_eq request.branch_id b)) [
      | inl same ↦
          let is = (text_eq_iff request.branch_id b).0 same in
          (
            suc n,
            rw log_is (ground arith),
            rw next_is (rw is (rw (text_eq_refl b) (rw next (omega arith)))),
          )
      | inr other ↦ (
        n,
        rw log_is (rw (other, append-nil) logged),
        rw next_is
            (ground (arith, text_eq_iff b request.branch_id, text_eq_iff request.branch_id b)),
      )
    ]

module _ {W : Type 0} (host : Host W) where
  -- A commit leaves the service as it was, or records the request.
  pub commit-cases :
      (request : CommitRequest) (s : BranchWalService) (w : W)
      → ((ack : CommitAck) × (Map.get
              (idempotency_key request.branch_id request.idempotency_key)
              s.idempotent
            ≡ some ack)
          × (commit host request (s, w) ≡ (ok ack, (s, w))))
        ⊎ ((Map.get (idempotency_key request.branch_id request.idempotency_key) s.idempotent ≡ none)
            × ((commit host request (s, w)).1.0 ≡ recorded request s)
            × ((ack : CommitAck)
                → (commit host request (s, w)).0 ≡ ok ack
                → ack ≡ ack_of s request))
  unfolding commit
  commit-cases request s w =
      elim (Option-cases
        (Map.get (idempotency_key request.branch_id request.idempotency_key) s.idempotent)) [
          | inl new ↦ inr (new, ground arith, λ ack given. ground arith)
          | inr (ack, there) ↦ inl (ack, there, ground arith)
        ]

  commit-IsNumbered :
      (request : CommitRequest) (s : BranchWalService) (w : W)
      → IsNumbered s
      → IsNumbered (commit host request (s, w)).1.0
  commit-IsNumbered request s w h = elim (commit-cases request s w) [
    | inl (ack, there, p) ↦ rw p h
    | inr (new, p, _) ↦ rw p (recorded-IsNumbered request s h)
  ]

  commit_all-IsNumbered :
      (requests : List CommitRequest) (s : BranchWalService) (w : W)
      → IsNumbered s
      → IsNumbered (commit_all host requests (s, w)).0
  commit_all-IsNumbered [] s w h = h
  commit_all-IsNumbered (request ∷ requests) s w h =
      commit_all-IsNumbered requests (commit host request (s, w)).1.0
        (commit host request (s, w)).1.1 (commit-IsNumbered request s w h)

  default-IsNumbered : IsNumbered default_service
  unfolding IsNumbered Map.get
  default-IsNumbered b = (0, refl, refl)

  -- From the empty service, after any calls of `commit`, failed ones included, the log of each
  -- branch has the epochs 1, 2, 3 and so on, each once and in this order, modulo 2^64.
  pub commit_all-epochs :
      (requests : List CommitRequest) (w : W) (b : Text)
      → (n : ℕ) × (branch_log b (commit_all host requests (default_service, w)).0.commit_log
          ≡ first_epochs n)
  unfolding IsNumbered
  commit_all-epochs requests w b =
      let (n, logged, _) = commit_all-IsNumbered requests default_service w default-IsNumbered b in
      (n, logged)

  known-commit :
      (request : CommitRequest) (s : BranchWalService) (w : W) {ack : CommitAck}
      → Map.get (idempotency_key request.branch_id request.idempotency_key) s.idempotent ≡ some ack
      → commit host request (s, w) ≡ (ok ack, (s, w))
  unfolding commit
  known-commit request s w {ack} there = ground arith

  commit-remembers :
      (request : CommitRequest) (s : BranchWalService) (w : W)
      → (ack : CommitAck) × (Map.get
            (idempotency_key request.branch_id request.idempotency_key)
            (commit host request (s, w)).1.0.idempotent
          ≡ some ack)
        × ((first : CommitAck) → (commit host request (s, w)).0 ≡ ok first → ack ≡ first)
  unfolding recorded
  commit-remembers request s w = elim (commit-cases request s w) [
    | inl (ack, there, p) ↦ (ack, rw p there, λ first given. ground arith)
    | inr (new, p, gives) ↦ (
      ack_of s request,
      rw p (
          Map.get-insert_self (idempotency_key request.branch_id request.idempotency_key)
            (ack_of s request) s.idempotent),
      λ first given. sym (gives first given),
    )
  ]

  -- After any call of `commit`, one that failed included, a call with the same branch and key gives an
  -- acknowledgement, the first one if it gave one, and changes neither the service nor the disk.
  pub commit-idempotent :
      (request again : CommitRequest) (s : BranchWalService) (w : W)
      → again.branch_id ≡ request.branch_id
      → again.idempotency_key ≡ request.idempotency_key
      → (ack : CommitAck) × (commit host again (commit host request (s, w)).1
          ≡ (ok ack, (commit host request (s, w)).1))
        × ((first : CommitAck) → (commit host request (s, w)).0 ≡ ok first → ack ≡ first)
  commit-idempotent request again s w same_branch same_key =
      let (ack, there, is_first) = commit-remembers request s w in
      let (left, disk) = (commit host request (s, w)).1 in
      (ack, known-commit again left disk {ack = ack} (rw (same_branch, same_key) there), is_first)
