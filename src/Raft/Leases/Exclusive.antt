-- ===== src/Raft/Leases/Exclusive.antt =====
-- A lease is held by one node at a time, over any sequence of requests.
use chronus.Base.{
  ℕ, ◌≤◌, ◌≡◌, ◌≢◌, refl, ap, ◌∙◌, Bool, true, false, ◌&&◌, List, [], ◌∷◌, Option, none, some,
  String, arith, eq_iff, All, ◌==ₛ◌, ltb, if◌then◌else◌, Bool-cases, inl, inr,
}
use chronus.Raft.Leases.{
  Error, Lease, ClusterLeases, get, is_open, should_try_lease, should_try, expire_time, acquire,
}
use chronus.Raft.Leases.Acquire.{terms, holder, is_granted, acquire_error, holder-acquire}

-- A request, and the time at which it is applied.
pub record Request : Type 0 where
  pub name : String
  pub node : ℕ
  pub request_time : ℕ
  pub now : ℕ

-- One request after the other.
abbrev pub run : List Request → ClusterLeases → ClusterLeases
run [] leases = leases
run (r ∷ rs) leases = run rs (acquire r.name r.node r.request_time r.now leases).2

abbrev pub is_success : Option Error → Bool
is_success none = true
is_success (some e) = false

-- The nodes whose requests for the lease succeed on the way.
abbrev pub given : String → List Request → ClusterLeases → List ℕ
given name [] leases = []
given name (r ∷ rs) leases =
    let reply = acquire r.name r.node r.request_time r.now leases in
    let rest = given name rs reply.2 in
    if is_success reply.1 && r.name ==ₛ name then r.node ∷ rest else rest

-- Of another node, before the lease expires.
abbrev pub Late : ℕ → ℕ → Request → Type 0
Late owner expiration r = (r.node ≢ owner) × (r.now ≤ expiration)

is_open-held :
    (now node owner expiration : ℕ) (found : Option Lease)
    → terms found ≡ some (owner, expiration)
    → node ≢ owner
    → now ≤ expiration
    → should_try_lease now node found ≡ false
unfolding should_try_lease is_open
is_open-held now node owner expiration none held other early = grind arith
is_open-held now node owner expiration (some l) held other early = grind arith

success-granted :
    (name : String) (node request_time now : ℕ) (leases : ClusterLeases)
    → is_success (acquire name node request_time now leases).1
      ≡ is_granted name node request_time now leases
success-granted name node request_time now leases =
    ap is_success (acquire_error name node request_time now leases) ∙ ground arith

-- Such a request is not granted.
not_granted :
    (name : String) (owner expiration : ℕ) (r : Request) (leases : ClusterLeases)
    → holder name leases ≡ some (owner, expiration)
    → Late owner expiration r
    → (is_granted r.name r.node r.request_time r.now leases && r.name ==ₛ name) ≡ false
unfolding should_try
not_granted name owner expiration r leases held late =
    let clock = ltb (expire_time leases r.request_time) r.now in
    elim (Bool-cases (r.name ==ₛ name)) [
      | inl same ↦
          let held_here = ap (λ n. holder n leases) ((eq_iff r.name name).0 same) ∙ held in
          let shut =
            is_open-held r.now r.node owner expiration (get r.name leases) held_here late.0
              late.1 in
          rw (shut, same) (ground arith)
      | inr apart ↦ rw apart (ground arith)
    ]

-- While a node holds a lease, requests of other nodes for any lease, made before it expires, are
-- not given it, in whatever order and number they come, and the holder and the time stay.
pub run_exclusive :
    (name : String) (owner expiration : ℕ) (rs : List Request) (leases : ClusterLeases)
    → holder name leases ≡ some (owner, expiration)
    → All (Late owner expiration) rs
    → (given name rs leases ≡ []) × (holder name (run rs leases) ≡ some (owner, expiration))
run_exclusive name owner expiration [] leases held late = (refl, held)
run_exclusive name owner expiration (r ∷ rs) leases held late =
    let refused = not_granted name owner expiration r leases held late.0 in
    let kept = holder-acquire r.name r.node r.request_time r.now leases name ∙ rw refused held in
    let rest =
      run_exclusive name owner expiration rs (acquire r.name r.node r.request_time r.now leases).2
        kept late.1 in
    (rw (success-granted r.name r.node r.request_time r.now leases, refused) rest.0, rest.1)
