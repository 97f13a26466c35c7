-- ===== src/Plugin/Nodes.antt =====
-- The nodes of a job and the addresses of servers on them: plugins/slurm/utils.c. Slurm's host lists and
-- the resolver are parameters.
pub mod Hosts
use io_scheduler.Prelude.{
  ℕ, zero, suc, ltb, Bool, true, false, Option, none, some, List, [], ◌∷◌, ◌++◌, length, deref,
  if◌then◌else◌,
}
use io_scheduler.Prelude.Bytes.{codes}
use io_scheduler.Prelude.Int.{ℤ, pos, negsuc}
use io_scheduler.Types.{Bytes, Node, regular}
use io_scheduler.Conversions.{CNode, node_create}

-- `slurm_hostlist_count` and `slurm_hostlist_shift`, which takes a host out of the list.
pub record HostList (H : Type 0) : Type 0 where
  pub count : H → ℤ
  pub shift : H → Option Bytes × H

-- `scord_nodelist_t`, not null
pub record NodeList : Type 0 where
  pub nodes : List CNode
  pub nnodes : ℕ  -- ssize_t

module _ {H : Type 0} (hl : HostList H) where
  -- The loop that fills the array: the nodes, unless there is no host left.
  unfoldable pub shift_nodes : ℕ → H → Option (List CNode) × H
  unfolding node_create
  shift_nodes zero h = (some [], h)
  shift_nodes (suc n) h =
      let (host, h1) = hl.shift h in
      elim host [
        | none ↦ (none, h1)
        | some name ↦
            (let (rest, h2) = shift_nodes n h1 in
              elim rest [
                | none ↦ (none, h2)
                | some nodes ↦
                    (some (node_create (record { hostname = name; type = regular }) ∷ nodes), h2)
              ])
      ]

  abbrev created : ℕ → Option (List CNode) → Option NodeList
  created n none = none
  created n (some nodes) = some (record { nodes = nodes; nnodes = n })

  abbrev create_for : ℤ → H → Option NodeList × H
  create_for (pos zero) h = (none, h)
  create_for (pos (suc n)) h =
      let (nodes, h') = shift_nodes (suc n) h in (created (suc n) nodes, h')
  create_for (negsuc n) h = (none, h)

  unfoldable pub nodelist_create : H → Option NodeList × H
  unfolding shift_nodes
  nodelist_create h = create_for (hl.count h) h

-- `scord_nodelist_get_node`
unfoldable pub get_node : NodeList → ℤ → Option CNode
unfolding deref
get_node list (pos i) = if ltb i list.nnodes then deref list.nodes i else none
get_node list (negsuc n) = none

-- `ADM_node_get_hostname`
abbrev pub hostname_of : Option CNode → Option Bytes
hostname_of none = none
hostname_of (some node) = node.n_hostname

-- `getaddrinfo`: an error, or addresses, of which those of IPv4 have a text.
pub data Resolved : Type 0 where
  refused : ℕ → Resolved
  addresses : List (Option Bytes) → Resolved

-- The resolver with its code for no address, and the printing of integers.
pub record Resolver : Type 0 where
  pub getaddrinfo : Bytes → Resolved
  pub print_int : ℤ → Bytes

-- The loop of `resolve_host`: the first address of IPv4. On `none` it gives an error code.
abbrev first_inet : List (Option Bytes) → Option Bytes
first_inet [] = none
first_inet (some address ∷ rest) = some address
first_inet (none ∷ rest) = first_inet rest

abbrev inet_of : Resolved → Option Bytes
inet_of (refused code) = none
inet_of (addresses list) = first_inet list

-- A pointer to a text, a null pointer, or a read through a null pointer.
pub data Address : Type 0 where
  address : Bytes → Address
  no_address null_read : Address

module _ (r : Resolver) where
  unfoldable pub resolve_host : Bytes → Option Bytes
  resolve_host hostname = inet_of (r.getaddrinfo hostname)

  abbrev print_address : Bytes → ℤ → Option Bytes → Address
  print_address protocol port none = no_address
  print_address protocol port (some host) =
      address (protocol ++ (codes "://" ++ (host ++ (codes ":" ++ r.print_int port))))

  unfoldable pub margo_address_create : Option Bytes → Option Bytes → ℤ → Address
  unfolding resolve_host
  margo_address_create none none port = null_read
  margo_address_create none (some hostname) port = address hostname
  margo_address_create (some protocol) none port = no_address
  margo_address_create (some protocol) (some hostname) port =
      print_address protocol port (resolve_host hostname)
