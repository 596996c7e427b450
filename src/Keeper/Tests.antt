-- ===== src/Keeper/Tests.antt =====
-- A service over a disk that refuses to write, and two commits on it.
use tracedb.Base.{
  ℕ, Text, codes, Bool, true, false, Option, none, some, List, [], ◌∷◌, ◌≡◌, refl, Result, ok, err,
}
use tracedb.Keeper.Service.{
  CommitRequest, CommitAck, BranchWalService, Host, default_service, commit, commit_all, ack_of,
}
use tracedb.Keeper.Commits.{branch_log, first_epochs, commit_all-epochs, commit-idempotent}
use tracedb.Keeper.Keys.{commit_all-own}

-- The paths that were written; writing to `full` fails.
abbrev disk : Host (List Text)
disk = record {
  exists = λ path w. false;
  read = λ path w. (err (codes "absent"), w);
  create_dir_all = λ path w. (ok tt, w);
  write_file = λ path body w. (ok tt, path ∷ w);
  sync_file = λ path w. (ok tt, w);
  rename = λ from to w. (ok tt, to ∷ w);
  sync_dir = λ path w. (ok tt, w);
  parent = λ path. none;
  with_extension = λ path extension. extension;
  from_slice = λ body. err (codes "not read");
  to_vec_pretty = λ service. err (codes "full");
}

abbrev on_main : CommitRequest
on_main = record { branch_id = codes "main"; idempotency_key = codes "k"; payload = codes "p" }

abbrev on_main_again : CommitRequest
on_main_again = record {
  branch_id = codes "main";
  idempotency_key = codes "k";
  payload = codes "q";
}

abbrev on_dev : CommitRequest
on_dev = record { branch_id = codes "dev"; idempotency_key = codes "k"; payload = codes "p" }

-- The service with a durable path, whose every write to disk fails.
abbrev opened : BranchWalService
opened = record default_service { durable_path = some (codes "state") }

commit_all-epochs_example :
    (n : ℕ) × (branch_log
        (codes "main")
        (commit_all disk (on_main ∷ on_dev ∷ []) (default_service, [])).0.commit_log
      ≡ first_epochs n)
commit_all-epochs_example = commit_all-epochs disk (on_main ∷ on_dev ∷ []) [] (codes "main")

commit-idempotent_example :
    (ack : CommitAck) × (commit disk on_main_again (commit disk on_main (opened, [])).1
      ≡ (ok ack, (commit disk on_main (opened, [])).1))
    × ((first : CommitAck) → (commit disk on_main (opened, [])).0 ≡ ok first → ack ≡ first)
commit-idempotent_example = commit-idempotent disk on_main on_main_again opened [] refl refl

dev_committed :
    (commit disk on_dev (commit_all disk (on_main ∷ []) (default_service, []))).0
    ≡ ok (ack_of default_service on_dev)
unfolding commit tracedb.Base.Map.get tracedb.Base.Map.insert tracedb.Base.text_eq
dev_committed = refl

commit_all-own_example :
    ((ack_of default_service on_dev).branch_id ≡ codes "dev")
    × ((ack_of default_service on_dev).idempotency_key ≡ codes "k")
commit_all-own_example = commit_all-own disk (on_main ∷ []) on_dev [] refl refl dev_committed
