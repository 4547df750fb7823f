-- ===== src/Raft/Leases/Acquire.antt =====
-- What `Acquire` does on each branch.
use chronus.Base.{
  ℕ, ◌≡◌, refl, ap, ◌∙◌, Bool, not, ◌&&◌, List, [], ◌∷◌, Option, none, some, String, arith, eq_iff,
  ◌==ₛ◌, ltb, if◌then◌else◌, Bool-cases, inl, inr,
}
use chronus.Raft.Leases.{
  skip_expired, acquired_by_other, Lease, ClusterLeases, lookup, put, get, is_open,
  should_try_lease, should_try, expire_time, store, acquire_lease, acquire,
}

-- Who holds a lease, and until when.
abbrev pub Terms : Type 0
Terms = Option (ℕ × ℕ)

abbrev pub terms : Option Lease → Terms
terms none = none
terms (some l) = some (l.owner, l.expiration)

abbrev pub holder : String → ClusterLeases → Terms
holder name leases = terms (get name leases)

lookup-put :
    (xs : List (String × Lease)) (name other : String) (l : Lease)
    → lookup other (put name l xs) ≡ (if name ==ₛ other then some l else lookup other xs)
lookup-put [] name other l = refl
lookup-put (x ∷ xs) name other l =
    let rest = lookup-put xs name other l in grind (arith, eq_iff, rest)

-- Does a request get the lease?
abbrev pub is_granted : String → ℕ → ℕ → ℕ → ClusterLeases → Bool
is_granted name node request_time now leases =
    not (ltb (expire_time leases request_time) now) && should_try name node now leases

holder-store :
    (name other : String) (l : Lease) (leases : ClusterLeases)
    → holder other (store name l leases).2
      ≡ (if name ==ₛ other then some (l.owner, l.expiration) else holder other leases)
unfolding get store
holder-store name other l leases = ap terms (lookup-put leases.m name other l) ∙ ground arith

-- What a request does to a lease that it finds, or finds missing.
holder-acquire_lease :
    (name other : String) (node expire now : ℕ) (found : Option Lease) (leases : ClusterLeases)
    → holder other (acquire_lease name node expire now found leases).2 ≡ (
        if should_try_lease now node found && name ==ₛ other
        then some (node, expire)
        else holder other leases)
unfolding acquire_lease should_try_lease
holder-acquire_lease name other node expire now none leases = holder-store name other _ leases
holder-acquire_lease name other node expire now (some l) leases =
    elim (Bool-cases (is_open now node l)) [
      | inl free ↦ rw free (holder-store name other _ leases)
      | inr held ↦ rw held refl
    ]

acquire_lease_error :
    (name : String) (node expire now : ℕ) (found : Option Lease) (leases : ClusterLeases)
    → (acquire_lease name node expire now found leases).1
      ≡ (if should_try_lease now node found then none else some acquired_by_other)
unfolding acquire_lease should_try_lease store
acquire_lease_error name node expire now none leases = refl
acquire_lease_error name node expire now (some l) leases = ground arith

module _ (name : String) (node request_time now : ℕ) (leases : ClusterLeases) where
  -- Acquire fails exactly if the lease that it would give has expired already, or else if ShouldTry
  -- says that there is no use in trying, and tells the two apart.
  pub acquire_error : (acquire name node request_time now leases).1 ≡ (
      if ltb (expire_time leases request_time) now
      then some skip_expired
      else if should_try name node now leases
      then none
      else some acquired_by_other)
  unfolding acquire should_try
  acquire_error = elim (Bool-cases (ltb (expire_time leases request_time) now)) [
    | inl late ↦ rw late refl
    | inr timely ↦ rw timely (acquire_lease_error name node _ now (get name leases) leases)
  ]

  -- A request that is granted makes the node the holder of that lease until the time that is
  -- counted from the request; any other request changes nothing, and no request changes the holder
  -- of another lease.
  pub holder-acquire :
      (other : String)
      → holder other (acquire name node request_time now leases).2 ≡ (
          if is_granted name node request_time now leases && name ==ₛ other
          then some (node, expire_time leases request_time)
          else holder other leases)
  unfolding acquire should_try
  holder-acquire other = elim (Bool-cases (ltb (expire_time leases request_time) now)) [
    | inl late ↦ rw late refl
    | inr timely ↦ rw timely (holder-acquire_lease name other node _ now (get name leases) leases)
  ]
