-- ===== src/Raft/Leases.antt =====
-- raftmeta/cluster_leases.go: `ClusterLeases`, the leases by their names. The map is an association
-- list. Times are nanoseconds of Unix time, except that a request gives milliseconds. The clock is
-- an argument. A lease handed out is a copy, as apply makes one.
pub mod Acquire
pub mod Exclusive
use chronus.Base.{
  ℕ, ◌+◌, ◌*◌, ◌/◌, ◌%◌, Bool, true, ◌||◌, List, [], ◌∷◌, Option, none, some, String, ◌==◌, ◌==ₛ◌,
  ltb, if◌then◌else◌,
}

pub data Error : Type 0 where
  skip_expired acquired_by_other : Error

pub record Lease : Type 0 where
  pub name : String
  pub expiration : ℕ
  pub owner : ℕ

pub record ClusterLeases : Type 0 where
  pub m : List (String × Lease)
  pub d : ℕ

abbrev pub lookup : String → List (String × Lease) → Option Lease
lookup name [] = none
lookup name (x ∷ xs) = if x.0 ==ₛ name then some x.1 else lookup name xs

abbrev pub put : String → Lease → List (String × Lease) → List (String × Lease)
put name l [] = (name, l) ∷ []
put name l (x ∷ xs) = if x.0 ==ₛ name then (name, l) ∷ xs else x ∷ put name l xs

unfoldable pub get : String → ClusterLeases → Option Lease
get name leases = lookup name leases.m

-- Is the lease free for the node?
unfoldable pub is_open : ℕ → ℕ → Lease → Bool
is_open now node l = ltb l.expiration now || l.owner == node

unfoldable pub should_try_lease : ℕ → ℕ → Option Lease → Bool
should_try_lease now node (some l) = is_open now node l
should_try_lease now node none = true

unfoldable pub should_try : String → ℕ → ℕ → ClusterLeases → Bool
should_try name node now leases = should_try_lease now node (get name leases)

unfoldable pub expire_time : ClusterLeases → ℕ → ℕ
expire_time leases request_time =
    request_time / 1000 * 1000000000 + request_time % 1000 * 1000000 + leases.d

-- The lease, the error, and the leases after the call.
abbrev pub Reply : Type 0
Reply = Option Lease × Option Error × ClusterLeases

unfoldable pub store : String → Lease → ClusterLeases → Reply
store name l leases = (some l, none, record leases { m = put name l leases.m })

-- `acquire` for what the map holds under the name.
unfoldable pub acquire_lease : String → ℕ → ℕ → ℕ → Option Lease → ClusterLeases → Reply
acquire_lease name node expire now (some l) leases =
    if is_open now node l
    then store name (record l { expiration = expire; owner = node }) leases
    else (some l, some acquired_by_other, leases)
acquire_lease name node expire now none leases =
    store name (record { name = name; expiration = expire; owner = node }) leases

unfoldable pub acquire : String → ℕ → ℕ → ℕ → ClusterLeases → Reply
acquire name node request_time now leases =
    let expire = expire_time leases request_time in
    if ltb expire now
    then (none, some skip_expired, leases)
    else acquire_lease name node expire now (get name leases) leases
