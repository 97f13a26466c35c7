-- ===== src/Plugin/Nodes/Hosts.antt =====
-- The node list of a host list that behaves as documented.
use mathlib.Core.Option
use io_scheduler.Prelude.{
  ℕ, zero, suc, ◌≡◌, refl, ap, sym, ◌∙◌, Option, none, some, List, [], ◌∷◌, map, length, deref,
  arith, ltb, if◌then◌else◌,
}
use io_scheduler.Prelude.Int.{pos}
use io_scheduler.Types.{Bytes, regular}
use io_scheduler.Conversions.{CNode, node_create}
use io_scheduler.Conversions.RoundTrip.{length-map}
use io_scheduler.Plugin.Nodes.{HostList, NodeList, shift_nodes, nodelist_create, get_node}

abbrev pub node_on : Bytes → CNode
node_on host = node_create (record { hostname = host; type = regular })

-- The node list of hosts, if there are any.
abbrev pub list_of : List Bytes → Option NodeList
list_of [] = none
list_of (host ∷ rest) =
    some (record { nodes = map node_on (host ∷ rest); nnodes = length (host ∷ rest) })

-- The i-th node of a node list, if there is a list.
abbrev pub node_at : Option NodeList → ℕ → Option CNode
node_at none i = none
node_at (some list) i = get_node list (pos i)

deref-map {ℓ κ} :
    {A : Type ℓ} {B : Type κ} (f : A → B) (xs : List A) (i : ℕ)
    → deref (map f xs) i ≡ Option.map f (deref xs i)
unfolding deref
deref-map f [] i = refl
deref-map f (x ∷ xs) zero = refl
deref-map f (x ∷ xs) (suc i) = deref-map f xs i

-- An index is in range exactly if there is something at it.
in_range {ℓ} :
    {A : Type ℓ} (xs : List A) (i : ℕ)
    → (if ltb i (length xs) then deref xs i else none) ≡ deref xs i
unfolding deref
in_range [] i = ground arith
in_range (x ∷ xs) zero = ground arith
in_range (x ∷ xs) (suc i) = ground (arith, in_range xs i)

found : (list : List Bytes) (i : ℕ) → node_at (list_of list) i ≡ Option.map node_on (deref list i)
unfolding get_node deref
found [] i = refl
found (host ∷ rest) i =
    let nodes = map node_on (host ∷ rest) in
    ap (λ n. if ltb i n then deref nodes i else none) (sym (length-map node_on (host ∷ rest)))
    ∙ in_range nodes i
    ∙ deref-map node_on (host ∷ rest) i

module _ {H : Type 0} (hl : HostList H) (hosts : H → List Bytes) where
  -- The hosts are counted, and taken out from the first on.
  pub record IsQueue : Type 0 where
    pub counted : (h : H) → hl.count h ≡ pos (length (hosts h))
    pub shifted :
        (h : H) (host : Bytes) (rest : List Bytes)
        → hosts h ≡ host ∷ rest
        → ((hl.shift h).0 ≡ some host) × (hosts (hl.shift h).1 ≡ rest)

  shift_all :
      (q : IsQueue) (list : List Bytes) (h : H)
      → hosts h ≡ list
      → ((shift_nodes hl (length list) h).0 ≡ some (map node_on list))
        × (hosts (shift_nodes hl (length list) h).1 ≡ [])
  unfolding shift_nodes
  shift_all q [] h e = (refl, e)
  shift_all q (host ∷ rest) h e =
      let (first, left) = q.shifted h host rest e in
      let (nodes, none_left) = shift_all q rest (hl.shift h).1 left in
      (rw (first, nodes) refl, rw (first, nodes) none_left)

  create_from :
      (q : IsQueue) (list : List Bytes) (h : H)
      → hosts h ≡ list
      → ((nodelist_create hl h).0 ≡ list_of list) × (hosts (nodelist_create hl h).1 ≡ [])
  unfolding nodelist_create
  create_from q [] h e =
      let n : hl.count h ≡ pos 0 = q.counted h ∙ ap (λ l. pos (length l)) e in (rw n refl, rw n e)
  create_from q (host ∷ rest) h e =
      let n : hl.count h ≡ pos (suc (length rest)) = q.counted h ∙ ap (λ l. pos (length l)) e in
      let (nodes, left) = shift_all q (host ∷ rest) h e in (rw (n, nodes) refl, rw n left)

  -- Of a host list that counts its hosts and gives them out in order, the node list has a regular node for
  -- each host, in order, and the host list is left empty; without hosts there is no node list. A node is
  -- found by its index exactly if the index is in range.
  pub nodelist_create_lem :
      IsQueue
      → (h : H) (i : ℕ)
      → ((nodelist_create hl h).0 ≡ list_of (hosts h))
        × (hosts (nodelist_create hl h).1 ≡ [])
        × (node_at (nodelist_create hl h).0 i ≡ Option.map node_on (deref (hosts h) i))
  nodelist_create_lem q h i =
      let (made, left) = create_from q (hosts h) h refl in (made, left, rw made (found (hosts h) i))
