-- ===== src/User/UserList/Sync.antt =====
-- The stored policy of each user of src/user/list.cpp against the one that the groups and the
-- policies give, and what the updates of the methods do to it.
use agro_daemon.Base.{
  ℕ, String, ◌≡◌, refl, ◌≢◌, false, List, [], ◌∷◌, map, nat_eq, ℕ_discrete, subst, arith, All,
  NodupB, ◌∙◌, ap, sym,
}
use agro_daemon.Base.Dict
use agro_daemon.Base.Dict.{Dict}
use agro_daemon.Base.Lists
use mathlib.Core.Logic.{if_pos, if_neg}
use agro_daemon.User.Group.{Groups}
use agro_daemon.User.Group.Membership.{view}
use agro_daemon.User.Policy.{Policies, get_policy}
use agro_daemon.User.Policy.Grants.{get_policy-eq_of_view}
use agro_daemon.User.Account.{User}
use agro_daemon.User.UserList.{
  UserList, with_policy, update_user_policy, update_all_policies, edit_info,
}

abbrev pub keys : Dict ℕ User → List ℕ
keys = map (λ e. e.0)

-- An entry stands under the id of its user, whose policy is up to date.
pub record IsSynced (ps : Policies) (gs : Groups) (e : ℕ × User) : Type 0 where
  pub key : e.0 ≡ e.1.id
  pub policy : e.1.policy ≡ get_policy ps e.1.id gs

pub record InSync (l : UserList) : Type 0 where
  pub synced : All (IsSynced l.policy_rules l.groups) l.list
  pub unique_keys : NodupB (keys l.list)

abbrev Keyed : ℕ × User → Type 0
Keyed e = e.0 ≡ e.1.id

pub keyed : (ps : Policies) (gs : Groups) (d : Dict ℕ User) → All (IsSynced ps gs) d → All Keyed d
keyed ps gs [] h = tt
keyed ps gs (e ∷ d) h = (h.0.key, keyed ps gs d h.1)

-- A statement about all other keys is one about all entries, if the key is not there.
All-others :
    (P : ℕ × User → Type 0) (k : ℕ) (d : Dict ℕ User)
    → Lists.contains (keys d) k ≡ false
    → All (λ e. e.0 ≢ k → P e) d
    → All P d
All-others P k [] a o = tt
All-others P k (e ∷ d) a o = (o.0 (λ p. ground arith), All-others P k d (ground arith) o.1)

pub keys-adjust : (k : ℕ) (f : User → User) (d : Dict ℕ User) → keys (Dict.adjust k f d) ≡ keys d
unfolding Dict.adjust
keys-adjust k f [] = refl
keys-adjust k f (e ∷ d) = ground (arith, keys-adjust k f d)

keys-map : (f : User → User) (d : Dict ℕ User) → keys (map (λ (uid, u). (uid, f u)) d) ≡ keys d
keys-map f [] = refl
keys-map f (e ∷ d) = ap (λ ks. e.0 ∷ ks) (keys-map f d)

module _ (ps : Policies) (gs : Groups) where
  with_policy-IsSynced : (k : ℕ) (u : User) → k ≡ u.id → IsSynced ps gs (k, with_policy ps gs u)
  unfolding with_policy
  with_policy-IsSynced k u h = record { key = h; policy = refl }

  map-IsSynced :
      (d : Dict ℕ User)
      → All Keyed d
      → All (IsSynced ps gs) (map (λ (uid, u). (uid, with_policy ps gs u)) d)
  map-IsSynced [] h = tt
  map-IsSynced ((k, u) ∷ d) h = (with_policy-IsSynced k u h.0, map-IsSynced d h.1)

  -- An update of one user's policy is enough if the policies of all others are right.
  adjust-IsSynced :
      (k : ℕ) (d : Dict ℕ User)
      → NodupB (keys d)
      → All Keyed d
      → All (λ e. e.0 ≢ k → IsSynced ps gs e) d
      → All (IsSynced ps gs) (Dict.adjust k (with_policy ps gs) d)
  unfolding Dict.adjust
  adjust-IsSynced k [] u h o = tt
  adjust-IsSynced k ((j, v) ∷ d) u h o = elim (ℕ_discrete j k) [
    | yes same ↦
        let absent = subst (λ i. Lists.contains (keys d) i ≡ false) same u.0 in
        rw (if_pos _ same)
          (with_policy-IsSynced j v h.0, All-others (IsSynced ps gs) k d absent o.1)
    | no other ↦ rw (if_neg _ other) (o.0 other, adjust-IsSynced k d u.1 h.1 o.1)
  ]

-- New groups in which everybody but one user has the memberships of before.
module _ (ps : Policies) (gs hs : Groups) (k : ℕ)
    (same : (u : ℕ) → k ≢ u → view u hs ≡ view u gs) where
  regroup : (d : Dict ℕ User) → All (IsSynced ps gs) d → All (λ e. e.0 ≢ k → IsSynced ps hs e) d
  regroup [] h = tt
  regroup ((j, u) ∷ d) h = (entry, regroup d h.1)
    where
      entry : j ≢ k → IsSynced ps hs (j, u)
      entry ne = record {
        key = h.0.key;
        policy =
            h.0.policy
            ∙ sym (get_policy-eq_of_view ps u.id hs gs (same u.id (λ p. ne (h.0.key ∙ sym p))));
      }

  pub resync :
      (d : Dict ℕ User)
      → InSync (record { list = d; groups = gs; policy_rules = ps })
      → InSync (update_user_policy (record { list = d; groups = hs; policy_rules = ps }) k)
  unfolding update_user_policy
  resync d v = record {
    synced = adjust-IsSynced ps hs k d v.unique_keys (keyed ps gs d v.synced) (regroup d v.synced);
    unique_keys = subst NodupB (sym (keys-adjust k _ d)) v.unique_keys;
  }

pub update_all_policies-InSync :
    (l : UserList) → All Keyed l.list → NodupB (keys l.list) → InSync (update_all_policies l)
unfolding update_all_policies
update_all_policies-InSync l h u = record {
  synced = map-IsSynced l.policy_rules l.groups l.list h;
  unique_keys = subst NodupB (sym (keys-map _ l.list)) u;
}

pub edit-IsSynced :
    (ps : Policies) (gs : Groups) (id : ℕ) (username name email chat : String) (d : Dict ℕ User)
    → All (IsSynced ps gs) d
    → All (IsSynced ps gs) (Dict.adjust id (edit_info username name email chat) d)
unfolding Dict.adjust edit_info
edit-IsSynced ps gs id username name email chat [] h = tt
edit-IsSynced ps gs id username name email chat (e ∷ d) h =
    ground (arith, edit-IsSynced ps gs id username name email chat d h.1)

pub erase-IsSynced :
    (ps : Policies) (gs : Groups) (id : ℕ) (d : Dict ℕ User)
    → All (IsSynced ps gs) d
    → All (IsSynced ps gs) (Dict.erase id d)
unfolding Dict.erase
erase-IsSynced ps gs id [] h = tt
erase-IsSynced ps gs id (e ∷ d) h = ground (arith, erase-IsSynced ps gs id d h.1)

erase_absent :
    (id k : ℕ) (d : Dict ℕ User)
    → Lists.contains (keys d) k ≡ false
    → Lists.contains (keys (Dict.erase id d)) k ≡ false
unfolding Dict.erase
erase_absent id k [] h = refl
erase_absent id k (e ∷ d) h = ground (arith, erase_absent id k d)

pub erase-NodupB : (id : ℕ) (d : Dict ℕ User) → NodupB (keys d) → NodupB (keys (Dict.erase id d))
unfolding Dict.erase
erase-NodupB id [] u = tt
erase-NodupB id (e ∷ d) u = ground (arith, erase-NodupB id d u.1, erase_absent id e.0 d)
