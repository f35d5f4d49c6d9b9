-- ===== src/Subscription/Refresh/Kept.antt =====
-- What a refresh leaves as it was.
use iron_link.Prelude.{
  ℕ, String, ◌≡◌, ◌⊎◌, refl, sym, ◌∙◌, ap, subst, true, ◌==◌, ◌++◌, eq_refl, some, List, [], ◌∷◌,
  find, delete_func, arith, is_some-find, has_key, has_key-append, Result, ok, err, Bool-cases,
  Option-cases, Result-cases, inl, inr,
}
use iron_link.Store.Profile.{Profile, Node, find_node_by_id}
use iron_link.Store.Mutators.{
  of_sub, replace_subscription_nodes, clear_lost_active, set_active_node_if_unset,
}
use iron_link.Subscription.Keys.{node_key, last_with}
use iron_link.Subscription.Refresh.{
  Outcome, FetchResult, carry, nodes_of, reconcile, materialize_groups, landed_nodes, land, fail,
  land_body, apply_fetch,
}

-- The active node stays where the new list still has it.
replace_subscription_nodes-active :
    (p : Profile) (sub_id a : String) (ns : List Node)
    → p.active_node_id ≡ some a
    → has_key (λ n. n.id) (delete_func (of_sub sub_id) p.nodes ++ ns) a ≡ true
    → (replace_subscription_nodes p sub_id ns).active_node_id ≡ some a
unfolding replace_subscription_nodes clear_lost_active set_active_node_if_unset find_node_by_id
replace_subscription_nodes-active p sub_id a ns e h =
    let found = is_some-find (λ n. n.id == a) (delete_func (of_sub sub_id) p.nodes ++ ns) ∙ h in
    ground (arith, found)

carry-id :
    (old : List Node) (m n : Node)
    → last_with node_key old (node_key m) ≡ some n
    → (carry old m).id ≡ n.id
unfolding carry
carry-id old m n h = ground arith

-- A node that comes back under the same key has its old id.
reconcile-has_key :
    (p : Profile) (sub_id : String) (before after : List Node) (m n : Node)
    → last_with node_key (nodes_of p sub_id) (node_key m) ≡ some n
    → has_key (λ x. x.id) (reconcile p sub_id (before ++ m ∷ after)) n.id ≡ true
unfolding reconcile
reconcile-has_key p sub_id [] after m n h =
    ground (arith, carry-id (nodes_of p sub_id) m n h, eq_refl n.id)
reconcile-has_key p sub_id (x ∷ before) after m n h =
    ground (arith, reconcile-has_key p sub_id before after m n h)

module _ (from_name : String → String) (parse : String → String → String → Result String Outcome)
    (now : ℕ) where
  land-active :
      (p : Profile) (fr : FetchResult) (name : String) (o : Outcome) (before after : List Node)
      (m n : Node)
      → p.active_node_id ≡ some n.id
      → last_with node_key (nodes_of p fr.sub_id) (node_key m) ≡ some n
      → o.nodes ≡ before ++ m ∷ after
      → (land from_name parse now p fr name o).0.active_node_id ≡ some n.id
  unfolding land landed_nodes
  land-active p fr name o before after m n active h split =
      replace_subscription_nodes-active p fr.sub_id n.id
        (landed_nodes from_name parse now p fr.sub_id o) active
        (ground (
          arith,
          has_key-append (λ x. x.id) (delete_func (of_sub fr.sub_id) p.nodes)
              (landed_nodes from_name parse now p fr.sub_id o) n.id,
          has_key-append (λ x. x.id) (reconcile p fr.sub_id o.nodes)
              (reconcile p fr.sub_id
                (materialize_groups from_name o.groups (reconcile p fr.sub_id o.nodes) fr.sub_id))
              n.id,
          subst (λ ns. has_key (λ x. x.id) (reconcile p fr.sub_id ns) n.id ≡ true) (sym split)
              (reconcile-has_key p fr.sub_id before after m n h),
        ))

  -- How a refresh ends.
  apply_fetch-cases :
      (p : Profile) (fr : FetchResult) (body : String) (o : Outcome)
      → fr.body ≡ ok body
      → parse body fr.sub_id fr.format ≡ ok o
      → ((apply_fetch from_name parse now p fr).0 ≡ p)
        ⊎ ((name : String) × (apply_fetch from_name parse now p fr
              ≡ land from_name parse now p fr name o))
  unfolding apply_fetch land_body land
  apply_fetch-cases p fr body o b e =
      elim (Option-cases (find (λ s. s.id == fr.sub_id) p.subscriptions)) [
        | inl f ↦ inl (rw (f, apply_fetch) refl)
        | inr (sub, f) ↦ elim (Bool-cases (sub.url == fr.url)) [
          | inr u ↦ inl (rw (f, u, apply_fetch) refl)
          | inl u ↦ inr (sub.name, rw (f, u, b, e, apply_fetch, land_body) refl)
        ]
      ]

  -- The active node survives a refresh whose new list has a node with its key, that is with its
  -- protocol, credential, address, port, transport and security: it keeps its id and stays active.
  pub apply_fetch-active :
      (p : Profile) (fr : FetchResult) (body : String) (o : Outcome) (before after : List Node)
      (m n : Node)
      → p.active_node_id ≡ some n.id
      → last_with node_key (nodes_of p fr.sub_id) (node_key m) ≡ some n
      → fr.body ≡ ok body
      → parse body fr.sub_id fr.format ≡ ok o
      → o.nodes ≡ before ++ m ∷ after
      → (apply_fetch from_name parse now p fr).0.active_node_id ≡ some n.id
  apply_fetch-active p fr body o before after m n active h b e split =
      elim (apply_fetch-cases p fr body o b e) [
        | inl same ↦ ap (λ q. q.active_node_id) same ∙ active
        | inr (name, same) ↦
            ap (λ r. r.0.active_node_id) same
            ∙ land-active p fr name o before after m n active h split
      ]

  -- The three ends of `land_body`.
  module _ (p : Profile) (fr : FetchResult) (name : String) where
    pub unfetched :
        (message : String)
        → fr.body ≡ err message
        → land_body from_name parse now p fr name ≡ fail from_name parse now p fr name message
    unfolding land_body fail
    unfetched message b = rw (b, land_body) refl

    pub unparsed :
        (body message : String)
        → fr.body ≡ ok body
        → parse body fr.sub_id fr.format ≡ err message
        → land_body from_name parse now p fr name ≡ fail from_name parse now p fr name message
    unfolding land_body fail
    unparsed body message b e = rw (b, e, land_body) refl

    pub landed :
        (body : String) (o : Outcome)
        → fr.body ≡ ok body
        → parse body fr.sub_id fr.format ≡ ok o
        → land_body from_name parse now p fr name ≡ land from_name parse now p fr name o
    unfolding land_body land
    landed body o b e = rw (b, e, land_body) refl

  land-nodes :
      (p : Profile) (fr : FetchResult) (name : String) (o : Outcome)
      → (land from_name parse now p fr name o).0.nodes
        ≡ delete_func (of_sub fr.sub_id) p.nodes ++ landed_nodes from_name parse now p fr.sub_id o
  unfolding land replace_subscription_nodes clear_lost_active set_active_node_if_unset
      find_node_by_id
  land-nodes p fr name o = ground arith

  -- A body that was fetched and parsed put its nodes in place of the subscription's.
  pub record IsReplaced (p : Profile) (fr : FetchResult) : Type 0 where
    pub body : String
    pub outcome : Outcome
    pub fetched : fr.body ≡ ok body
    pub parsed : parse body fr.sub_id fr.format ≡ ok outcome
    pub nodes :
        (apply_fetch from_name parse now p fr).0.nodes
        ≡ delete_func (of_sub fr.sub_id) p.nodes
          ++ landed_nodes from_name parse now p fr.sub_id outcome

  fail-nodes :
      (p : Profile) (fr : FetchResult) (name message : String)
      → (fail from_name parse now p fr name message).0.nodes ≡ p.nodes
  unfolding fail
  fail-nodes p fr name message = refl

  pub apply_fetch-land_body :
      (p : Profile) (fr : FetchResult)
      → ((apply_fetch from_name parse now p fr).0 ≡ p)
        ⊎ ((name : String) × (apply_fetch from_name parse now p fr
              ≡ land_body from_name parse now p fr name))
  unfolding apply_fetch
  apply_fetch-land_body p fr = elim (Option-cases (find (λ s. s.id == fr.sub_id) p.subscriptions)) [
    | inl f ↦ inl (rw (f, apply_fetch) refl)
    | inr (sub, f) ↦ elim (Bool-cases (sub.url == fr.url)) [
      | inr u ↦ inl (rw (f, u, apply_fetch) refl)
      | inl u ↦ inr (sub.name, rw (f, u, apply_fetch) refl)
    ]
  ]

  -- A refresh touches the nodes only with a body that was fetched and parsed, and then the nodes of
  -- every other subscription stay as they are, before the new ones.
  pub apply_fetch-nodes :
      (p : Profile) (fr : FetchResult)
      → ((apply_fetch from_name parse now p fr).0.nodes ≡ p.nodes) ⊎ IsReplaced p fr
  apply_fetch-nodes p fr = elim (apply_fetch-land_body p fr) [
    | inl same ↦ inl (ap (λ q. q.nodes) same)
    | inr (name, same) ↦ elim (Result-cases fr.body) [
      | inr (message, b) ↦ inl (
          ap (λ r. r.0.nodes) (same ∙ unfetched p fr name message b) ∙ fail-nodes p fr name message)
      | inl (body, b) ↦ elim (Result-cases (parse body fr.sub_id fr.format)) [
        | inr (message, e) ↦ inl (
            ap (λ r. r.0.nodes) (same ∙ unparsed p fr name body message b e)
            ∙ fail-nodes p fr name message)
        | inl (o, e) ↦ inr (record {
          body = body;
          outcome = o;
          fetched = b;
          parsed = e;
          nodes = ap (λ r. r.0.nodes) (same ∙ landed p fr name body o b e) ∙ land-nodes p fr name o;
        })
      ]
    ]
  ]
