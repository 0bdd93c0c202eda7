-- ===== src/Topology/Exact.antt =====
-- A path that is given switch by switch.
use runos.Base.{
  ℕ, ◌≡◌, inl, inr, refl, ap, ◌∙◌, Bool-cases, Bool, true, false, ◌||◌, ◌&&◌, Option, none, some,
  List, [], ◌∷◌, ◌++◌, ◌==◌, if◌then◌else◌, arith,
}
use runos.SwitchAndPort.{SwitchAndPort, switch_and_port}
use runos.Topology.Paths.{MetricsFlag}
use runos.Topology.Routes.{Route, RouteSelector}
use runos.Topology.Graphs.{Graph}
use runos.Topology.Finding.{
  PortInfo, port_to, hop_from, hop_over, look_up, or_empty, exact_steps, exact_path, oriented,
  check_ends, last_dpid, select_path,
}
use runos.Topology.Search.{no_ports, ◌>>=◌}
use mathlib.Core.List.{reverse, reverse-cons}

abbrev pub some_step : List ℕ → Bool
some_step [] = false
some_step (d ∷ ds) = true

abbrev pub last_of : ℕ → List ℕ → ℕ
last_of d [] = d
last_of d (e ∷ ds) = last_of e ds

abbrev head_or : ℕ → List SwitchAndPort → ℕ
head_or n [] = n
head_or n (x ∷ xs) = x.dpid

abbrev last_or : ℕ → List SwitchAndPort → ℕ
last_or n [] = n
last_or n (x ∷ xs) = last_or x.dpid xs

last_or-append :
    (n : ℕ) (ys : List SwitchAndPort) (x : SwitchAndPort) → last_or n (ys ++ x ∷ []) ≡ x.dpid
last_or-append n [] x = refl
last_or-append n (y ∷ ys) x = last_or-append y.dpid ys x

head_or-append :
    (n : ℕ) (ys : List SwitchAndPort) (x : SwitchAndPort)
    → head_or n (ys ++ x ∷ []) ≡ head_or x.dpid ys
head_or-append n [] x = refl
head_or-append n (y ∷ ys) x = refl

last_or-reverse : (n : ℕ) (xs : List SwitchAndPort) → last_or n (reverse xs) ≡ head_or n xs
last_or-reverse n [] = refl
last_or-reverse n (x ∷ xs) = ap (last_or n) (reverse-cons x xs) ∙ last_or-append n (reverse xs) x

head_or-reverse : (n : ℕ) (xs : List SwitchAndPort) → head_or n (reverse xs) ≡ last_or n xs
head_or-reverse n [] = refl
head_or-reverse n (x ∷ xs) =
    ap (head_or n) (reverse-cons x xs) ∙ head_or-append n (reverse xs) x ∙ head_or-reverse x.dpid xs

snoc_ports : (path : List SwitchAndPort) (x : SwitchAndPort) → no_ports (path ++ x ∷ []) ≡ false
snoc_ports [] x = refl
snoc_ports (y ∷ path) x = refl

reverse_ports : (path : List SwitchAndPort) → no_ports (reverse path) ≡ no_ports path
reverse_ports [] = refl
reverse_ports (x ∷ path) = ap no_ports (reverse-cons x path) ∙ snoc_ports (reverse path) x

module _ (other : SwitchAndPort → SwitchAndPort) where
  any_port : ℕ → ℕ → List PortInfo → Bool
  any_port d e [] = false
  any_port d e (p ∷ ps) = (other (switch_and_port d p.number)).dpid == e || any_port d e ps

  abbrev leads : ℕ → ℕ → Option (List PortInfo) → Bool
  leads d e none = false
  leads d e (some ps) = any_port d e ps

  -- Whether each switch is known and has a port that leads to the next.
  pub all_linked : (ℕ → Option (List PortInfo)) → ℕ → List ℕ → Bool
  unfolding any_port
  all_linked ports d [] = true
  all_linked ports d (e ∷ ds) = leads d e (ports d) && all_linked ports e ds

  -- A port of each switch, and the port at the next one that it leads to.
  abbrev pub Follows : ℕ → List ℕ → List SwitchAndPort → Type 0
  Follows d [] path = path ≡ []
  Follows d (e ∷ ds) [] = true ≡ false
  Follows d (e ∷ ds) (a ∷ []) = true ≡ false
  Follows d (e ∷ ds) (a ∷ b ∷ path) =
      (a.dpid ≡ d) × (b ≡ other a) × (b.dpid ≡ e) × Follows e ds path

  abbrev Port : ℕ → ℕ → Bool → Option SwitchAndPort → Type 0
  Port d e found none = found ≡ false
  Port d e found (some sp) = (found ≡ true) × (sp.dpid ≡ d) × ((other sp).dpid ≡ e)

  port_to-Port : (d e : ℕ) (ps : List PortInfo) → Port d e (any_port d e ps) (port_to other d e ps)
  unfolding port_to any_port
  port_to-Port d e [] = refl
  port_to-Port d e (p ∷ ps) = elim (Bool-cases ((other (switch_and_port d p.number)).dpid == e)) [
    | inl h ↦ rw h (refl, refl, ground (arith, h))
    | inr h ↦ rw h (port_to-Port d e ps)
  ]

  -- `none` and an empty path come only where a step fails.
  abbrev Steps : ℕ → List ℕ → Bool → Option (Option (List SwitchAndPort)) → Type 0
  Steps d ds found none = found ≡ false
  Steps d ds found (some none) = found ≡ false
  Steps d ds found (some (some path)) = (found ≡ true) × Follows d ds path

  hop_from-Steps :
      (d e : ℕ) (ds : List ℕ) (later : Bool) (sp : SwitchAndPort)
      (r : Option (Option (List SwitchAndPort)))
      → sp.dpid ≡ d
      → (other sp).dpid ≡ e
      → Steps e ds later r
      → Steps d (e ∷ ds) later (hop_from other sp r)
  hop_from-Steps d e ds later sp none a b s = s
  hop_from-Steps d e ds later sp (some none) a b s = s
  hop_from-Steps d e ds later sp (some (some path)) a b (s, f) = (s, (a, refl, b, f))

  hop_over-Steps :
      (d e : ℕ) (ds : List ℕ) (here later : Bool) (p : Option SwitchAndPort)
      (r : Option (Option (List SwitchAndPort)))
      → Port d e here p
      → Steps e ds later r
      → Steps d (e ∷ ds) (here && later) (hop_over other p r)
  hop_over-Steps d e ds here later none r p s = rw p refl
  hop_over-Steps d e ds here later (some sp) r (a, b, c) s =
      rw a (hop_from-Steps d e ds later sp r b c s)

  look_up-Steps :
      (d e : ℕ) (ds : List ℕ) (later : Bool) (ps : Option (List PortInfo))
      (r : Option (Option (List SwitchAndPort)))
      → Steps e ds later r
      → Steps d (e ∷ ds) (leads d e ps && later) (look_up other d e ps r)
  look_up-Steps d e ds later none r s = refl
  look_up-Steps d e ds later (some ps) r s =
      hop_over-Steps d e ds (any_port d e ps) later (port_to other d e ps) r (port_to-Port d e ps) s

  exact_steps-Steps :
      (ports : ℕ → Option (List PortInfo)) (d : ℕ) (ds : List ℕ)
      → Steps d ds (all_linked ports d ds) (exact_steps other ports (d ∷ ds))
  unfolding exact_steps all_linked
  exact_steps-Steps ports d [] = (refl, refl)
  exact_steps-Steps ports d (e ∷ ds) =
      look_up-Steps d e ds (all_linked ports e ds) (ports d) (exact_steps other ports (e ∷ ds))
        (exact_steps-Steps ports e ds)

  last_dpid_or :
      (x : SwitchAndPort) (xs : List SwitchAndPort) → last_dpid other x xs ≡ last_or x.dpid xs
  last_dpid_or x [] = refl
  last_dpid_or x (y ∷ ys) = last_dpid_or y ys

  check_ends_passes :
      (from to : ℕ) (path : List SwitchAndPort)
      → no_ports path ≡ false
      → head_or 0 path ≡ from
      → last_or 0 path ≡ to
      → check_ends other from to path ≡ some path
  check_ends_passes from to [] n h l = absurd (ground (arith, n))
  check_ends_passes from to (x ∷ xs) n h l = ground (arith, h, l, last_dpid_or x xs)

  -- Where the ends of the list are those of the route, and where they are swapped.
  abbrev pub turned : ℕ → ℕ → ℕ → ℕ → List SwitchAndPort → List SwitchAndPort
  turned from to first last path =
      if first == to && last == from
      then reverse path
      else if first == from && last == to
      then path
      else []

  last-Follows :
      (e n : ℕ) (ds : List ℕ) (path : List SwitchAndPort)
      → Follows e ds path
      → n ≡ e
      → last_or n path ≡ last_of e ds
  last-Follows e n [] path f h = rw f h
  last-Follows e n (d ∷ ds) [] f h = absurd (ground (arith, f))
  last-Follows e n (d ∷ ds) (a ∷ []) f h = absurd (ground (arith, f))
  last-Follows e n (d ∷ ds) (a ∷ b ∷ path) (p, q, r, f) h = last-Follows d b.dpid ds path f r

  oriented-turned :
      (from to : ℕ) (x y : SwitchAndPort) (ys : List SwitchAndPort)
      → oriented other from to (x ∷ y ∷ ys)
        ≡ some (turned from to x.dpid (last_or y.dpid ys) (x ∷ y ∷ ys))
  unfolding oriented
  oriented-turned from to x y ys =
      let whole = last_dpid_or y ys in
      elim (Bool-cases (x.dpid == to && last_or y.dpid ys == from)) [
        | inl b ↦
            rw (whole, b)
              (check_ends_passes from to (reverse (x ∷ y ∷ ys)) (reverse_ports (x ∷ y ∷ ys))
                (head_or-reverse 0 (x ∷ y ∷ ys) ∙ ground (arith, b))
                (last_or-reverse 0 (x ∷ y ∷ ys) ∙ ground (arith, b)))
        | inr b ↦ rw (whole, b) (ground (arith, whole))
      ]

  -- A chain along the list; none where a switch is unknown, has no port to the next, or is alone.
  abbrev pub Selected : ℕ → ℕ → ℕ → List ℕ → Bool → Option (List SwitchAndPort) → Type 0
  Selected from to d ds false got = got ≡ none
  Selected from to d ds true got =
      (path : List SwitchAndPort) × Follows d ds path
      × (got ≡ some (turned from to d (last_of d ds) path))

  oriented-Selected :
      (from to d e : ℕ) (ds : List ℕ) (found : Bool) (r : Option (Option (List SwitchAndPort)))
      → Steps d (e ∷ ds) found r
      → Selected from to d (e ∷ ds) found (or_empty other r >>= oriented other from to)
  unfolding oriented
  oriented-Selected from to d e ds true none s = absurd (ground (arith, s))
  oriented-Selected from to d e ds true (some none) s = absurd (ground (arith, s))
  oriented-Selected from to d e ds false none s = refl
  oriented-Selected from to d e ds false (some none) s = refl
  oriented-Selected from to d e ds false (some (some path)) (s, f) = absurd (ground (arith, s))
  oriented-Selected from to d e ds true (some (some [])) (s, f) = absurd (ground (arith, f))
  oriented-Selected from to d e ds true (some (some (a ∷ []))) (s, f) = absurd (ground (arith, f))
  oriented-Selected from to d e ds true (some (some (a ∷ b ∷ path))) (s, (p, q, r, f)) = (
    a ∷ b ∷ path,
    (p, q, r, f),
    oriented-turned from to a b path
        ∙ ap (λ n. some (turned from to n (last_or b.dpid path) (a ∷ b ∷ path))) p
        ∙ ap (λ n. some (turned from to d n (a ∷ b ∷ path))) (last-Follows e b.dpid ds path f r),
  )

  module _ (dijkstra : Graph → ℕ → MetricsFlag → ℕ → ℕ) (ports : ℕ → Option (List PortInfo)) where
    pub select_path-Selected :
        (d : ℕ) (ds : List ℕ) (s : RouteSelector) (r : Route) (g : Graph)
        → Selected r.from r.to d ds
            (some_step ds && all_linked ports d ds)
            (select_path other dijkstra ports (some (d ∷ ds)) s r g)
    unfolding select_path exact_path exact_steps oriented
    select_path-Selected d [] s r g = refl
    select_path-Selected d (e ∷ ds) s r g =
        oriented-Selected r.from r.to d e ds (all_linked ports d (e ∷ ds))
          (exact_steps other ports (d ∷ e ∷ ds)) (exact_steps-Steps ports d (e ∷ ds))
