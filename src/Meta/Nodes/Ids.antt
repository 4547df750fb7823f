-- ===== src/Meta/Nodes/Ids.antt =====
-- What the creation of nodes keeps: the ids in range, the addresses of the data nodes apart.
use mathlib.Core.List.{Permᴰ}
use mathlib.Core.Path.{subst₂}
use chronus.Base.{
  ℕ, ◌+◌, ◌^◌, ◌≤◌, ◌<◌, ◌≡◌, ◌≢◌, refl, ap, sym, ◌⊎◌, ◌∙◌, Bool, true, false, ◌||◌, List, [], ◌∷◌,
  ◌++◌, String, ok, err, arith, eq_iff, inl, inr, Bool-cases, All, All-append, ◌==◌, ◌==ₛ◌, incr64,
  if◌then◌else◌,
}
use chronus.Meta.Types.{NodeInfo, Data, node_exists}
use chronus.Meta.Nodes.{
  same_node, any_node, existing_id, create_data_node, create_meta_node, without_node,
}

-- An id that a node may have: not 0, and handed out before.
abbrev pub IsIssued : ℕ → NodeInfo → Type 0
IsIssued max n = (1 ≤ n.id) × (n.id ≤ max)

-- No two nodes of the list share an address.
abbrev pub Separate : List NodeInfo → Type 0
Separate [] = Unit
Separate (n ∷ ns) = (any_node (same_node n.host n.tcp_host) ns ≡ false) × Separate ns

pub record IsValid (d : Data) : Type 0 where
  pub data_ids : All (IsIssued d.max_node_id) d.data_nodes
  pub meta_ids : All (IsIssued d.max_node_id) d.meta_nodes
  pub addresses : Separate d.data_nodes

All-perm {ℓ κ} : {A : Type ℓ} (P : A → Type κ) {xs ys : List A} → Permᴰ xs ys → All P ys → All P xs
All-perm P Permᴰ.nil h = tt
All-perm P (Permᴰ.cons e p) h = (rw e h.0, All-perm P p h.1)
All-perm P (Permᴰ.swap e f) h = (rw e h.1.0, (rw f h.0, h.1.1))
All-perm P (Permᴰ.trans p q) h = All-perm P p (All-perm P q h)

any_node-perm :
    (p : NodeInfo → Bool) {xs ys : List NodeInfo} → Permᴰ xs ys → any_node p xs ≡ any_node p ys
unfolding any_node
any_node-perm p Permᴰ.nil = refl
any_node-perm p (Permᴰ.cons e q) = cc (any_node-perm p q)
any_node-perm p (Permᴰ.swap e f) = rw (e, f) (ground arith)
any_node-perm p (Permᴰ.trans q r) = any_node-perm p q ∙ any_node-perm p r

same_node_comm : (m n : NodeInfo) → same_node m.host m.tcp_host n ≡ same_node n.host n.tcp_host m
same_node_comm m n = ground (
  arith,
  eq_iff m.host n.host,
  eq_iff n.host m.host,
  eq_iff m.tcp_host n.tcp_host,
  eq_iff n.tcp_host m.tcp_host,
)

Separate-swap : (m n : NodeInfo) (l : List NodeInfo) → Separate (n ∷ m ∷ l) → Separate (m ∷ n ∷ l)
unfolding any_node
Separate-swap m n l h = ground (arith, same_node_comm m n)

Separate-perm : {xs ys : List NodeInfo} → Permᴰ xs ys → Separate ys → Separate xs
Separate-perm Permᴰ.nil h = tt
Separate-perm (Permᴰ.cons e p) h = (rw e (any_node-perm _ p ∙ h.0), Separate-perm p h.1)
Separate-perm (Permᴰ.swap {a' = m} {b' = n} {l = l} e f) h =
    subst₂ (λ a b. Separate (a ∷ b ∷ l)) (sym e) (sym f) (Separate-swap n m l h)
Separate-perm (Permᴰ.trans p q) h = Separate-perm p (Separate-perm q h)

any_node-append :
    (p : NodeInfo → Bool) (xs ys : List NodeInfo)
    → any_node p (xs ++ ys) ≡ (any_node p xs || any_node p ys)
unfolding any_node
any_node-append p [] ys = refl
any_node-append p (x ∷ xs) ys = ground (arith, any_node-append p xs ys)

-- A node may join whose addresses none of the others has.
Separate-snoc :
    (ns : List NodeInfo) (n : NodeInfo)
    → Separate ns
    → any_node (same_node n.host n.tcp_host) ns ≡ false
    → Separate (ns ++ n ∷ [])
unfolding any_node
Separate-snoc [] n h new = (refl, tt)
Separate-snoc (m ∷ ns) n h new = (
  ground (arith, any_node-append (same_node m.host m.tcp_host) ns (n ∷ []), same_node_comm m n),
  Separate-snoc ns n h.1 (ground arith),
)

IsIssued-weaken : (a b : ℕ) (ns : List NodeInfo) → a ≤ b → All (IsIssued a) ns → All (IsIssued b) ns
IsIssued-weaken a b [] le h = tt
IsIssued-weaken a b (n ∷ ns) le h = ((h.0.0, omega arith), IsIssued-weaken a b ns le h.1)

-- A reused id was issued.
existing_id-le :
    (p : NodeInfo → Bool) (max : ℕ) (ns : List NodeInfo)
    → All (IsIssued max) ns
    → existing_id p ns ≤ max
unfolding existing_id
existing_id-le p max [] h = omega arith
existing_id-le p max (n ∷ ns) h = ground (arith, existing_id-le p max ns h.1)

without_node-All {κ} :
    (P : NodeInfo → Type κ) (id : ℕ) (ns : List NodeInfo) → All P ns → All P (without_node id ns)
unfolding without_node
without_node-All P id [] h = tt
without_node-All P id (n ∷ ns) h = elim (Bool-cases (n.id == id)) [
  | inl gone ↦ rw gone (without_node-All P id ns h.1)
  | inr kept ↦ rw kept (h.0, without_node-All P id ns h.1)
]

-- The id that a creation gives, and the largest id issued after it.
issued :
    (p : NodeInfo → Bool) (max : ℕ) (ns : List NodeInfo)
    → max + 1 < 2 ^ 64
    → All (IsIssued max) ns
    → (1 ≤ (if existing_id p ns == 0 then incr64 max else existing_id p ns))
      × ((if existing_id p ns == 0 then incr64 max else existing_id p ns)
          ≤ (if existing_id p ns == 0 then incr64 max else max))
      × (max ≤ (if existing_id p ns == 0 then incr64 max else max))
issued p max ns room h = ground (arith, existing_id-le p max ns h)

module _ (sort_nodes : List NodeInfo → List NodeInfo)
    (sorts : (ns : List NodeInfo) → Permᴰ (sort_nodes ns) ns) where
  sorted-All {κ} :
      (P : NodeInfo → Type κ) (ns : List NodeInfo) (n : NodeInfo)
      → All P ns
      → P n
      → All P (sort_nodes (ns ++ n ∷ []))
  sorted-All P ns n h k = All-perm P (sorts _) (All-append P ns (n ∷ []) h (k, tt))

  -- Creating a data node, whether it succeeds or not, keeps the ids issued and the addresses of
  -- the data nodes apart, while the node ids have not run out.
  pub create_data_node-IsValid :
      (host tcp_host : String) (d : Data)
      → d.max_node_id + 1 < 2 ^ 64
      → IsValid d
      → IsValid (create_data_node sort_nodes host tcp_host d).1
  unfolding create_data_node
  create_data_node-IsValid host tcp_host d room v =
      let bounds = issued (same_node host tcp_host) d.max_node_id d.meta_nodes room v.meta_ids in
      elim (Bool-cases (any_node (same_node host tcp_host) d.data_nodes)) [
        | inl taken ↦ rw taken v
        | inr new ↦ rw new record {
          data_ids =
              sorted-All _ d.data_nodes _ (IsIssued-weaken _ _ d.data_nodes bounds.2 v.data_ids)
                (bounds.0, bounds.1);
          meta_ids = IsIssued-weaken _ _ d.meta_nodes bounds.2 v.meta_ids;
          addresses = Separate-perm (sorts _) (Separate-snoc d.data_nodes _ v.addresses new);
        }
      ]

  -- The same for the creation of a meta node.
  pub create_meta_node-IsValid :
      (http_addr tcp_addr : String) (d : Data)
      → d.max_node_id + 1 < 2 ^ 64
      → IsValid d
      → IsValid (create_meta_node sort_nodes http_addr tcp_addr d).1
  unfolding create_meta_node
  create_meta_node-IsValid http_addr tcp_addr d room v =
      let bounds =
        issued (λ n. n.tcp_host ==ₛ tcp_addr) d.max_node_id d.data_nodes room v.data_ids in
      elim (Bool-cases (any_node (λ n. n.host ==ₛ http_addr) d.meta_nodes)) [
        | inl taken ↦ rw taken v
        | inr new ↦ rw new record {
          data_ids = IsIssued-weaken _ _ d.data_nodes bounds.2 v.data_ids;
          meta_ids =
              sorted-All _ d.meta_nodes _ (IsIssued-weaken _ _ d.meta_nodes bounds.2 v.meta_ids)
                (bounds.0, bounds.1);
          addresses = v.addresses;
        }
      ]

  -- What a successful creation has appended.
  joined :
      (host tcp_host : String) (id : ℕ) (d d' : Data)
      → create_data_node sort_nodes host tcp_host d ≡ (ok id, d')
      → (d'.data_nodes
          ≡ sort_nodes (d.data_nodes ++ record { id = id; host = host; tcp_host = tcp_host } ∷ []))
        × (d'.meta_nodes ≡ d.meta_nodes)
  unfolding create_data_node
  joined host tcp_host id d d' h = ground arith

  pub any_node-joined :
      (p : NodeInfo → Bool) (ns : List NodeInfo) (n : NodeInfo)
      → any_node p (sort_nodes (ns ++ n ∷ [])) ≡ (any_node p ns || p n)
  any_node-joined p ns n =
      any_node-perm p (sorts _) ∙ any_node-append p ns (n ∷ []) ∙ unfold any_node in ground arith

  -- After a creation that succeeded, none succeeds with one of the new node's two addresses: it
  -- fails with ErrNodeExists and changes nothing.
  pub create_data_node_again :
      (host tcp_host host' tcp_host' : String) (id : ℕ) (d d' : Data)
      → create_data_node sort_nodes host tcp_host d ≡ (ok id, d')
      → (host' ≡ host) ⊎ (tcp_host' ≡ tcp_host)
      → create_data_node sort_nodes host' tcp_host' d' ≡ (err node_exists, d')
  create_data_node_again host tcp_host host' tcp_host' id d d' h same =
      let n : NodeInfo = record { id = id; host = host; tcp_host = tcp_host } in
      let taken : any_node (same_node host' tcp_host') d'.data_nodes ≡ true =
        rw (joined host tcp_host id d d' h).0 (
          any_node-joined _ d.data_nodes n
          ∙ ground (arith, eq_iff host host', eq_iff tcp_host tcp_host')) in
      unfold create_data_node in rw taken

  -- The first meta node gives its id to a data node that has one of its addresses.
  reused :
      (host tcp_host : String) (d : Data) (m : NodeInfo) (ms : List NodeInfo)
      → d.meta_nodes ≡ m ∷ ms
      → m.id ≢ 0
      → same_node host tcp_host m ≡ true
      → any_node (same_node host tcp_host) d.data_nodes ≡ false
      → (create_data_node sort_nodes host tcp_host d).0 ≡ ok m.id
  unfolding create_data_node existing_id
  reused host tcp_host d m ms metas nonzero same new = rw (new, metas) (ground arith)

  -- Two data nodes can get one id. Where the first meta node has the addresses h and t, a data
  -- node that joins with the host h and another TCP address, and then one that joins with the TCP
  -- address t and another host, both succeed and are both given the id of the meta node, if no
  -- data node had one of these addresses.
  pub create_data_node_shared_id :
      (host tcp_host : String) (d : Data) (m : NodeInfo) (ms : List NodeInfo)
      → d.meta_nodes ≡ m ∷ ms
      → m.id ≢ 0
      → host ≢ m.host
      → tcp_host ≢ m.tcp_host
      → any_node (same_node m.host tcp_host) d.data_nodes ≡ false
      → any_node (same_node host m.tcp_host) d.data_nodes ≡ false
      → ((create_data_node sort_nodes m.host tcp_host d).0 ≡ ok m.id)
        × ((create_data_node sort_nodes host m.tcp_host
              (create_data_node sort_nodes m.host tcp_host d).1).0
            ≡ ok m.id)
  create_data_node_shared_id host tcp_host d m ms metas nonzero other_host other_tcp new₁ new₂ =
      let first =
        reused m.host tcp_host d m ms metas nonzero (ground (arith, eq_iff m.host m.host)) new₁ in
      let next = (create_data_node sort_nodes m.host tcp_host d).1 in
      let parts = joined m.host tcp_host m.id d next (ap (λ o. (o, next)) first) in
      let free : any_node (same_node host m.tcp_host) next.data_nodes ≡ false = rw parts.0 (
        any_node-joined _ d.data_nodes _
        ∙ ground (arith, eq_iff m.host host, eq_iff tcp_host m.tcp_host)) in
      (
        first,
        reused host m.tcp_host next m ms (parts.1 ∙ metas) nonzero
            (ground (arith, eq_iff m.tcp_host m.tcp_host)) free,
      )
