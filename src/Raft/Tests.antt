-- ===== src/Raft/Tests.antt =====
-- Leases of a cluster and instances of the theorems on them.
use chronus.Base.{ℕ, ◌≡◌, refl, [], ◌∷◌, some, arith}
use chronus.Raft.Leases.{
  ClusterLeases, get, is_open, should_try_lease, should_try, expire_time, acquire,
  acquired_by_other,
}
use chronus.Raft.Leases.Acquire.{holder, acquire_error, holder-acquire}
use chronus.Raft.Leases.Exclusive.{Request, run, given, run_exclusive}

-- Node 1 holds the lease "cq" until 5000 ms.
abbrev leases : ClusterLeases
leases = record {
  m = ("cq", record { name = "cq"; expiration = 5000000000; owner = 1 }) ∷ [];
  d = 1000000000;
}

acquire_error_test : (acquire "cq" 2 4000 4000000000 leases).1 ≡ some acquired_by_other
unfolding expire_time should_try should_try_lease is_open get
acquire_error_test = acquire_error "cq" 2 4000 4000000000 leases

holder-acquire_example :
    holder "cq" (acquire "cq" 2 5500 5600000000 leases).2 ≡ some (2, 6500000000)
unfolding expire_time should_try should_try_lease is_open get
holder-acquire_example = holder-acquire "cq" 2 5500 5600000000 leases "cq"

abbrev request : ℕ → ℕ → ℕ → Request
request node request_time now = record {
  name = "cq";
  node = node;
  request_time = request_time;
  now = now;
}

run_exclusive_example :
    (given "cq" (request 2 4000 4000000000 ∷ request 3 4900 4950000000 ∷ []) leases ≡ [])
    × (holder "cq" (run (request 2 4000 4000000000 ∷ request 3 4900 4950000000 ∷ []) leases)
        ≡ some (1, 5000000000))
unfolding get
run_exclusive_example =
    run_exclusive "cq" 1 5000000000 (request 2 4000 4000000000 ∷ request 3 4900 4950000000 ∷ [])
      leases refl ((omega arith, omega arith), ((omega arith, omega arith), tt))
