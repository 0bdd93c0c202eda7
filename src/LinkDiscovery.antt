-- ===== src/LinkDiscovery.antt =====
-- src/core/LinkDiscovery.cc, LinkDiscovery.hpp, ILinkDiscovery.hpp: links between switches, found
-- by LLDP beacons. `none` stands for a failed CHECK, which throws; what it leaves behind is not
-- modelled. Time is an argument. Each method holds the lock from its first access to its last.
pub mod Links
pub mod Invariant
pub mod Expiry
pub mod Wiring
pub mod Discovery
pub mod Shared
mod Examples
use mathlib.Core.Option
use runos.Base.{
  ℕ, ◌+◌, ◌*◌, ◌≡◌, Bool, true, false, not, ◌&&◌, ◌||◌, Option, none, some, List, [], ◌∷◌, ◌++◌,
  map, ltb, ◌==◌, if◌then◌else◌,
}
use runos.SwitchAndPort.{SwitchAndPort, switch_and_port, port_eq, port_lt}
use Links.{Link, link, has, find_link, erase_link, insert_link}

-- `m_out_edges`, whose values are iterators into `m_links`. An iterator is the link that it
-- stands at: both ends of a link are entered anew whenever a link is inserted.
abbrev pub Edges : Type 0
Edges = SwitchAndPort → Option Link

abbrev pub put_edge : SwitchAndPort → Link → Edges → Edges
put_edge p l edges q = if port_eq p q then some l else edges q

abbrev pub erase_edge : SwitchAndPort → Edges → Edges
erase_edge p edges q = if port_eq p q then none else edges q

-- `CHECK(m_out_edges.erase(p) == 1)`.
abbrev pub check_erase : SwitchAndPort → Edges → Option Edges
check_erase p edges = Option.map (λ l. erase_edge p edges) (edges p)

-- What to_json and load_from_database agree on.
pub record Entry : Type 0 where
  pub source_dpid : ℕ
  pub source_port : ℕ
  pub target_dpid : ℕ
  pub target_port : ℕ

pub to_json : Link → Entry
to_json l = record {
  source_dpid = l.source.dpid;
  source_port = l.source.port;
  target_dpid = l.target.dpid;
  target_port = l.target.port;
}

pub data Signal : Type 0 where
  link_discovered link_broken : SwitchAndPort → SwitchAndPort → Signal

pub record LinkDiscovery : Type 0 where
  pub poll_interval : ℕ
  pub links : List Link
  pub waiting_links : List Link
  pub out_edges : Edges

infixl 5 ◌>>=◌
abbrev pub ◌>>=◌ {ℓ κ} : {A : Type ℓ} {B : Type κ} → Option A → (A → Option B) → Option B
none >>= f = none
some a >>= f = f a

-- `std::swap` where the source is above the target.
pub ordered : Link → Link
ordered l =
    if port_lt l.target l.source then record l { source = l.target; target = l.source } else l

-- What `find_link` found is erased.
abbrev pub erase_found : Option Link → List Link → List Link
erase_found none ls = ls
erase_found (some m) ls = erase_link m ls

abbrev pub is_none : Option Link → Bool
is_none none = true
is_none (some m) = false

-- The flag says whether the link is new.
pub add_link : LinkDiscovery → Link → LinkDiscovery × Bool
unfolding ordered
add_link d l =
    let l' = ordered l in
    let found = find_link d.links l' in
    (
      record d {
        links = insert_link l' (erase_found found d.links);
        out_edges = put_edge l'.target l' (put_edge l'.source l' d.out_edges);
      },
      is_none found,
    )

pub remove_link :
    LinkDiscovery
    → SwitchAndPort
    → SwitchAndPort
    → Option (LinkDiscovery × (SwitchAndPort × SwitchAndPort))
unfolding ordered
remove_link d from to = do
  let l = ordered (link from to 0)
  m ← find_link d.links l
  edges ← check_erase l.source d.out_edges
  edges' ← check_erase l.target edges
  some (record d { links = erase_link m d.links; out_edges = edges' }, (l.source, l.target))

-- No edge: nothing to remove.
pub remove_broken_link : LinkDiscovery → SwitchAndPort → Option (LinkDiscovery × List Signal)
unfolding remove_link
remove_broken_link d from = elim (d.out_edges from) [
  | none ↦ some (d, [])
  | some edge ↦ do
    other ← d.out_edges edge.target
    (d', pair) ← remove_link d edge.source edge.target
    some (d', link_broken pair.0 pair.1 ∷ [])
]

pub add_waiting_link : LinkDiscovery → Link → LinkDiscovery
add_waiting_link d l = record d {
  waiting_links = insert_link l (erase_found (find_link d.waiting_links l) d.waiting_links);
}

pub remove_waiting_link : LinkDiscovery → SwitchAndPort → SwitchAndPort → LinkDiscovery
remove_waiting_link d from to = elim (find_link d.waiting_links (link from to 0)) [
  | none ↦ d
  | some m ↦ record d { waiting_links = erase_link m d.waiting_links }
]

abbrev pub valid_through : LinkDiscovery → ℕ → ℕ
valid_through d now = now + d.poll_interval * 2

-- The reversed link waits: the link is heard in both directions. `add_link` swaps the ends of its
-- argument in place, so the ordered link is what waits and what the signal names.
pub heard_back : LinkDiscovery → Link → LinkDiscovery × List Signal
unfolding add_link add_waiting_link remove_waiting_link
heard_back d l =
    let (d', is_new) = add_link (remove_waiting_link d l.target l.source) l in
    let added = ordered l in
    (
      add_waiting_link d' added,
      if is_new then link_discovered added.source added.target ∷ [] else [],
    )

-- Neither direction waits: what the two ports were linked to is broken.
pub heard_first : LinkDiscovery → Link → Option (LinkDiscovery × List Signal)
unfolding remove_broken_link add_waiting_link
heard_first d l = do
  (d', broken) ← remove_broken_link d l.source
  (d'', broken') ← remove_broken_link d' l.target
  some (add_waiting_link d'' l, broken ++ broken')

-- `handleBeacon` for switches that the switch manager knows.
pub beacon_known :
    LinkDiscovery → ℕ → SwitchAndPort → SwitchAndPort → Option (LinkDiscovery × List Signal)
unfolding heard_back heard_first
beacon_known d now from to =
    let l = link from to (valid_through d now) in
    elim (find_link d.waiting_links (link to from (valid_through d now))) [
      | some m ↦ some (heard_back d l)
      | none ↦ elim (find_link d.waiting_links l) [
        | some m ↦ some (add_waiting_link d l, [])
        | none ↦ heard_first d l
      ]
    ]

-- `known` is whether SwitchManager::switch_ finds the switch.
pub handle_beacon :
    (ℕ → Bool)
    → LinkDiscovery
    → ℕ
    → SwitchAndPort
    → SwitchAndPort
    → Option (LinkDiscovery × List Signal)
unfolding beacon_known
handle_beacon known d now from to =
    if not (known from.dpid) || not (known to.dpid)
    then some (d, [])
    else beacon_known d now from to

pub clear_link_at : LinkDiscovery → SwitchAndPort → Option (LinkDiscovery × List Signal)
unfolding remove_broken_link
clear_link_at d port = remove_broken_link d port

-- The first loop of `polling`: links that have expired stand at the front of the set.
pub expire : ℕ → List Link → Edges → Option (List Link × Edges × List Signal)
expire now [] edges = some ([], edges, [])
expire now (l ∷ ls) edges =
    let further = (do
      edges' ← check_erase l.source edges
      edges'' ← check_erase l.target edges'
      (ls', rest, signals) ← expire now ls edges''
      some (ls', rest, link_broken l.source l.target ∷ signals)) in
    if ltb l.valid_through now then further else some (l ∷ ls, edges, [])

pub expire_waiting : ℕ → List Link → List Link
expire_waiting now [] = []
expire_waiting now (l ∷ ls) =
    let further = expire_waiting now ls in if ltb l.valid_through now then further else l ∷ ls

poll_primary : LinkDiscovery → ℕ → Option (LinkDiscovery × List Signal)
unfolding expire expire_waiting
poll_primary d now = do
  (links, edges, signals) ← expire now d.links d.out_edges
  some (
    record d {
      links = links;
      out_edges = edges;
      waiting_links = expire_waiting now d.waiting_links;
    },
    signals,
  )

-- One round of the loop of `load_from_database`.
load_entry : (ℕ → Bool) → ℕ → LinkDiscovery → Entry → LinkDiscovery
unfolding add_link add_waiting_link
load_entry known time d e =
    let from = switch_and_port e.source_dpid e.source_port in
    let to = switch_and_port e.target_dpid e.target_port in
    let l = link from to time in
    if not (known e.source_dpid) || not (known e.target_dpid)
    then d
    else add_waiting_link (add_link d l).0 (ordered l)

load_entries : (ℕ → Bool) → ℕ → LinkDiscovery → List Entry → LinkDiscovery
unfolding load_entry
load_entries known time d [] = d
load_entries known time d (e ∷ es) = load_entries known time (load_entry known time d e) es

-- The entries are what the stored text parses to; an empty text is no entries.
pub load_from_database : (ℕ → Bool) → LinkDiscovery → ℕ → List Entry → LinkDiscovery
unfolding load_entries
load_from_database known d now stored =
    load_entries known (valid_through d now)
      (record d { links = []; waiting_links = []; out_edges = λ p. none }) stored

-- The array that `save_to_database` stores.
pub save_to_database : LinkDiscovery → List Entry
unfolding to_json
save_to_database d = map to_json d.links

pub polling :
    (ℕ → Bool) → Bool → LinkDiscovery → ℕ → List Entry → Option (LinkDiscovery × List Signal)
unfolding poll_primary load_from_database
polling known false d now stored = some (load_from_database known d now stored, [])
polling known true d now stored = poll_primary d now

abbrev pub no_port : SwitchAndPort
no_port = switch_and_port 0 0

pub other : LinkDiscovery → SwitchAndPort → Option SwitchAndPort
other d p = elim (d.out_edges p) [
  | none ↦ some no_port
  | some edge ↦ do
    m ← find_link d.links edge
    some (if port_eq edge.source p then edge.target else edge.source)
]
