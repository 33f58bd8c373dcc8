-- ===== src/Metrics/Lv/Space/Series.antt =====
-- The space as a map from names and label values to time series.
use mathlib.Core.Option
use mathlib.Core.Bool.{false≢true}
use kit_go.Prelude.{
  ◌%◌, ◌==◌, ==_iff, ◌⊎◌, length, length-append, ◌≡◌, ◌≢◌, refl, ap, sym, ◌∙◌, ◌↔◌, String, Bool,
  true, false, ◌&&◌, List, [], ◌∷◌, ◌++◌, Option, none, some, arith, if◌then◌else◌, Bool-cases, inl,
  inr, str_eq, str_eq_iff,
}
use kit_go.Prelude.Assoc.{string_eq, lookup-put}
use kit_go.Metrics.Lv.{with_values}
use kit_go.Metrics.Lv.Space.{
  Pair, pair_eq, Node, node, Children, leaf, child, observations, children_of, child_at, set_child,
  child_or_new, insert_at, observe_node, add_node, next_value, Space, node_for, observe, add,
  update_at,
}

pair_eq_iff : (a b : Pair) → (pair_eq a b ≡ true) ↔ (a ≡ b)
unfolding pair_eq
pair_eq_iff a b = (
  λ h. ground (arith, str_eq_iff a.label b.label, str_eq_iff a.value b.value),
  λ h. ground (arith, str_eq_iff a.label b.label, str_eq_iff a.value b.value),
)

map-eq-some :
    {A B : Type 0} (f : A → B) (o : Option A) (b : B)
    → Option.map f o ≡ some b
    → (a : A) × (o ≡ some a) × (f a ≡ b)
map-eq-some f none b h = cc
map-eq-some f (some a) b h = (a, refl, cc)

map-eq-none : {A B : Type 0} (f : A → B) (o : Option A) → Option.map f o ≡ none → o ≡ none
map-eq-none f none h = refl
map-eq-none f (some a) h = cc

pub lists_eq : List String → List String → Bool
lists_eq [] [] = true
lists_eq (x ∷ xs) (y ∷ ys) = str_eq x y && lists_eq xs ys
lists_eq _ _ = false

module _ {V : Type 0} where
  child_at-set_child :
      (p q : Pair) (n : Node V) (c : Children V)
      → child_at q (set_child p n c) ≡ (if pair_eq p q then some n else child_at q c)
  unfolding child_at set_child
  child_at-set_child p q n leaf = refl
  child_at-set_child p q n (child r m rest) =
      ground
        (arith, child_at-set_child p q n rest, pair_eq_iff p q, pair_eq_iff r p, pair_eq_iff r q)

  -- The observations of the series with the given label values, none where there is no such
  -- series or a value is missing.
  pub series : List String → Node V → List V
  series [] n = observations n
  series (label ∷ []) n = []
  series (label ∷ value ∷ tail) n =
      series tail (child_or_new (record { label = label; value = value }) (children_of n))

  child_or_new-set_child :
      (p q : Pair) (n : Node V) (c : Children V)
      → child_or_new q (set_child p n c) ≡ (if pair_eq p q then n else child_or_new q c)
  unfolding child_or_new
  child_or_new-set_child p q n c = ground (arith, child_at-set_child p q n c)

  series-insert_at :
      (at_end : List V → V) (lvs other : List String) (n n' : Node V)
      → insert_at at_end lvs n ≡ some n'
      → series other n' ≡ (
          if lists_eq lvs other then series lvs n ++ at_end (series lvs n) ∷ [] else series other n)
  unfolding series insert_at lists_eq pair_eq
  series-insert_at at_end [] [] n n' h =
      let e : n' ≡ node (observations n ++ at_end (observations n) ∷ []) (children_of n) = cc in
      ap (series []) e
  series-insert_at at_end [] (x ∷ []) n n' h = refl
  series-insert_at at_end [] (x ∷ y ∷ other) n n' h =
      let e : n' ≡ node (observations n ++ at_end (observations n) ∷ []) (children_of n) = cc in
      ap (series (x ∷ y ∷ other)) e
  series-insert_at at_end (l ∷ []) other n n' h = cc
  series-insert_at at_end (l ∷ v ∷ lvs) [] n n' h = let (c, p, e) = map-eq-some _ _ n' h in rw (← e)
  series-insert_at at_end (l ∷ v ∷ lvs) (x ∷ []) n n' h = ground arith
  series-insert_at at_end (l ∷ v ∷ lvs) (x ∷ y ∷ other) n n' h =
      let head : Pair = record { label = l; value = v } in
      let (c, p, e) = map-eq-some _ _ n' h in
      rw (← e, child_or_new-set_child head (record { label = x; value = y }) c (children_of n))
        (ground (
          arith,
          str_eq_iff l x,
          str_eq_iff v y,
          series-insert_at at_end lvs other (child_or_new head (children_of n)) c p,
        ))

  -- A call panics just where a value is missing behind the last label.
  insert_at-none :
      (at_end : List V → V) (lvs : List String) (n : Node V)
      → insert_at at_end lvs n ≡ none
      → length lvs % 2 ≡ 1
  unfolding insert_at
  insert_at-none at_end [] n h = cc
  insert_at-none at_end (l ∷ []) n h = refl
  insert_at-none at_end (l ∷ v ∷ lvs) n h =
      omega (arith, insert_at-none at_end lvs _ (map-eq-none _ _ h))

  insert_at_odd :
      (at_end : List V → V) (lvs : List String) (n : Node V)
      → length lvs % 2 ≡ 1
      → insert_at at_end lvs n ≡ none
  unfolding insert_at
  insert_at_odd at_end [] n h = absurd (omega arith)
  insert_at_odd at_end (l ∷ []) n h = refl
  insert_at_odd at_end (l ∷ v ∷ lvs) n h = rw (
      insert_at_odd at_end lvs (child_or_new (record { label = l; value = v }) (children_of n))
        (omega arith))

-- The test whether two series are the same.
abbrev pub same_series : String → List String → String → List String → Bool
same_series name lvs name' lvs' = str_eq name name' && lists_eq lvs lvs'

module _ {V : Type 0} where
  -- The observations of a series of the space.
  pub time_series : String → List String → Space V → List V
  time_series name lvs s = series lvs (node_for name s)

  time_series-update_at :
      (at_end : List V → V) (name other : String) (lvs lvs' : List String) (s s' : Space V)
      → update_at name (insert_at at_end lvs) s ≡ some s'
      → time_series other lvs' s' ≡ (
          if same_series name lvs other lvs'
          then time_series name lvs s ++ at_end (time_series name lvs s) ∷ []
          else time_series other lvs' s)
  unfolding time_series update_at node_for
  time_series-update_at at_end name other lvs lvs' s s' h =
      let (n', p, e) = map-eq-some _ _ s' h in
      rw (← e) (
        ground (
          arith,
          str_eq_iff name other,
          lookup-put name other n' s.nodes,
          series-insert_at at_end lvs lvs' (node_for name s) n' p,
        ))

  -- `Observe` appends the value to the series with that name and those label values, in that
  -- order, and changes no other series.
  pub time_series-observe :
      (name other : String) (lvs lvs' : List String) (value : V) (s s' : Space V)
      → observe name lvs value s ≡ some s'
      → time_series other lvs' s' ≡ (
          if same_series name lvs other lvs'
          then time_series name lvs s ++ value ∷ []
          else time_series other lvs' s)
  unfolding observe observe_node
  time_series-observe name other lvs lvs' value s s' h =
      time_series-update_at (λ obs. value) name other lvs lvs' s s' h

  -- `Add` appends the sum of the last value and the delta, or the delta to an empty series, and
  -- changes no other series.
  pub time_series-add :
      (plus : V → V → V) (name other : String) (lvs lvs' : List String) (delta : V) (s s' : Space V)
      → add plus name lvs delta s ≡ some s'
      → time_series other lvs' s' ≡ (
          if same_series name lvs other lvs'
          then time_series name lvs s ++ next_value plus delta (time_series name lvs s) ∷ []
          else time_series other lvs' s)
  unfolding add add_node
  time_series-add plus name other lvs lvs' delta s s' h =
      time_series-update_at (next_value plus delta) name other lvs lvs' s s' h

  -- `Observe` panics just where the label values are odd in number.
  pub observe_panics :
      (name : String) (lvs : List String) (value : V) (s : Space V)
      → (observe name lvs value s ≡ none) ↔ (length lvs % 2 ≡ 1)
  unfolding observe observe_node update_at
  observe_panics name lvs value s = (
    λ h. insert_at-none (λ obs. value) lvs (node_for name s) (map-eq-none _ _ h),
    λ h. rw (insert_at_odd (λ obs. value) lvs (node_for name s) h),
  )

  -- With pads: what it adds is always even in number, so that label values made by it from an
  -- even number never make `Observe` panic.
  pub with-observe :
      (name : String) (lvs label_values : List String) (value : V) (s : Space V)
      → length lvs % 2 ≡ 0
      → observe name (with_values lvs label_values) value s ≢ none
  unfolding with_values
  with-observe name lvs label_values value s h e =
      let odd = (observe_panics name (with_values lvs label_values) value s).0 e in
      padded (Bool-cases (length label_values % 2 == 0)) odd
    where
      padded :
          ((length label_values % 2 == 0) ≡ true) ⊎ ((length label_values % 2 == 0) ≡ false)
          → length (with_values lvs label_values) % 2 ≡ 1
          → ⊥
      padded (inl p) odd = omega (
        arith,
        (==_iff (length label_values % 2) 0).0 p,
        length-append lvs label_values,
        rw p at odd,
      )
      padded (inr p) odd = omega (
        arith,
        λ (q : length label_values % 2 ≡ 0).
            false≢true (sym p ∙ (==_iff (length label_values % 2) 0).1 q),
        length-append label_values ("unknown" ∷ []),
        length-append lvs (label_values ++ "unknown" ∷ []),
        rw p at odd,
      )
