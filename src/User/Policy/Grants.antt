-- ===== src/User/Policy/Grants.antt =====
-- What the rules of a user grant, told by the policies and the memberships alone.
use agro_daemon.Base.{
  ℕ, ◌≡◌, refl, ◌≢◌, ◌↔◌, Bool, true, false, ◌&&◌, List, [], ◌∷◌, ◌==◌, nat_eq, bit_and, bit_or,
  if◌then◌else◌, arith, All, ◌∙◌, ap, sym, subst, ℕ_discrete,
}
use agro_daemon.Base.Bits.{bit_and_or, zero-bit_and}
use agro_daemon.User.Group
use mathlib.Core.Logic.{if_pos, if_neg}
use agro_daemon.User.Group.{Group, Groups}
use agro_daemon.User.Group.Membership.{view}
use agro_daemon.User.Policy.{
  Policy, Policies, group_rules, get_group_policy, groups_rules, get_policy, remove_group,
}

-- A policy of a group that the user belongs to has no bit of the mask.
abbrev pub GivesNone : ℕ → ℕ → Group → Policy → Type 0
GivesNone mask uid g p = (g.id == p.gid && Group.contains g uid) ≡ true → bit_and p.rules mask ≡ 0

if_or_iff :
    (b : Bool) (rules more mask : ℕ)
    → (bit_and (if b then bit_or rules more else rules) mask ≡ 0)
      ↔ ((bit_and rules mask ≡ 0) × (b ≡ true → bit_and more mask ≡ 0))
if_or_iff true rules more mask =
    let law = bit_and_or rules more mask in
    (λ e. ((law.0 e).0, λ _. (law.0 e).1), λ h. law.1 (h.0, h.1 refl))
if_or_iff false rules more mask = (λ e. (e, λ f. cc), λ h. h.0)

group_rules_iff :
    (ps : Policies) (uid mask : ℕ) (g : Group) (rules : ℕ)
    → (bit_and (group_rules ps uid g rules) mask ≡ 0)
      ↔ ((bit_and rules mask ≡ 0) × All (GivesNone mask uid g) ps)
unfolding group_rules
group_rules_iff [] uid mask g rules = (λ e. (e, tt), λ e. e.0)
group_rules_iff (p ∷ ps) uid mask g rules =
    let member = g.id == p.gid && Group.contains g uid in
    let step = if_or_iff member rules p.rules mask in
    let rest = group_rules_iff ps uid mask g (if member then bit_or rules p.rules else rules) in
    (
      λ e. ((step.0 (rest.0 e).0).0, ((step.0 (rest.0 e).0).1, (rest.0 e).1)),
      λ h. rest.1 (step.1 (h.0, h.1.0), h.1.1),
    )

get_group_policy_iff :
    (ps : Policies) (uid mask : ℕ) (g : Group)
    → (bit_and (get_group_policy ps uid g) mask ≡ 0) ↔ All (GivesNone mask uid g) ps
unfolding get_group_policy
get_group_policy_iff ps uid mask g =
    let law = group_rules_iff ps uid mask g 0 in
    (λ e. (law.0 e).1, λ h. law.1 (zero-bit_and mask, h))

groups_rules_iff :
    (ps : Policies) (uid mask : ℕ) (gs : Groups) (rules : ℕ)
    → (bit_and (groups_rules ps uid gs rules) mask ≡ 0)
      ↔ ((bit_and rules mask ≡ 0) × All (λ g. All (GivesNone mask uid g) ps) gs)
unfolding groups_rules
groups_rules_iff ps uid mask [] rules = (λ e. (e, tt), λ e. e.0)
groups_rules_iff ps uid mask (g ∷ gs) rules =
    let law = bit_and_or rules (get_group_policy ps uid g) mask in
    let group = get_group_policy_iff ps uid mask g in
    let rest = groups_rules_iff ps uid mask gs (bit_or rules (get_group_policy ps uid g)) in
    (
      λ e. ((law.0 (rest.0 e).0).0, (group.0 (law.0 (rest.0 e).0).1, (rest.0 e).1)),
      λ h. rest.1 (law.1 (h.0, group.1 h.1.0), h.1.1),
    )

-- The rules of a user share no bit with a mask exactly if no policy of a group that the user
-- belongs to does.
pub get_policy_iff :
    (ps : Policies) (uid mask : ℕ) (gs : Groups)
    → (bit_and (get_policy ps uid gs) mask ≡ 0) ↔ All (λ g. All (GivesNone mask uid g) ps) gs
unfolding get_policy
get_policy_iff ps uid mask gs =
    let law = groups_rules_iff ps uid mask gs 0 in
    (λ e. (law.0 e).1, λ h. law.1 (zero-bit_and mask, h))

-- The rules depend on the ids of the groups and the memberships of the user alone.
view_group_rules : Policies → ℕ → Bool → ℕ → ℕ
view_group_rules [] id member rules = rules
view_group_rules (p ∷ ps) id member rules =
    view_group_rules ps id member (if id == p.gid && member then bit_or rules p.rules else rules)

view_rules : Policies → List (ℕ × Bool) → ℕ → ℕ
view_rules ps [] rules = rules
view_rules ps ((id, member) ∷ es) rules =
    view_rules ps es (bit_or rules (view_group_rules ps id member 0))

group_rules-view :
    (ps : Policies) (uid : ℕ) (g : Group) (rules : ℕ)
    → group_rules ps uid g rules ≡ view_group_rules ps g.id (Group.contains g uid) rules
unfolding group_rules view_group_rules
group_rules-view [] uid g rules = refl
group_rules-view (p ∷ ps) uid g rules = group_rules-view ps uid g _

groups_rules-view :
    (ps : Policies) (uid : ℕ) (gs : Groups) (rules : ℕ)
    → groups_rules ps uid gs rules ≡ view_rules ps (view uid gs) rules
unfolding groups_rules view_rules view get_group_policy
groups_rules-view ps uid [] rules = refl
groups_rules-view ps uid (g ∷ gs) rules =
    groups_rules-view ps uid gs _
    ∙ ap (λ r. view_rules ps (view uid gs) (bit_or rules r)) (group_rules-view ps uid g 0)

-- Two lists of groups in which the user has the same memberships give the user the same rules.
pub get_policy-eq_of_view :
    (ps : Policies) (uid : ℕ) (gs hs : Groups)
    → view uid gs ≡ view uid hs
    → get_policy ps uid gs ≡ get_policy ps uid hs
unfolding get_policy
get_policy-eq_of_view ps uid gs hs e =
    groups_rules-view ps uid gs 0
    ∙ ap (λ es. view_rules ps es 0) e
    ∙ sym (groups_rules-view ps uid hs 0)

remove_group-others :
    (ps : Policies) (gid uid : ℕ) (g : Group) (rules : ℕ)
    → g.id ≢ gid
    → group_rules (remove_group ps gid) uid g rules ≡ group_rules ps uid g rules
unfolding remove_group group_rules
remove_group-others [] gid uid g rules h = refl
remove_group-others (p ∷ ps) gid uid g rules h = ground (
  arith,
  remove_group-others ps gid uid g rules h,
  remove_group-others ps gid uid g (bit_or rules p.rules) h,
)

remove_group-none :
    (ps : Policies) (uid : ℕ) (g : Group) (rules : ℕ)
    → group_rules (remove_group ps g.id) uid g rules ≡ rules
unfolding remove_group group_rules
remove_group-none [] uid g rules = refl
remove_group-none (p ∷ ps) uid g rules = ground (arith, remove_group-none ps uid g rules)

-- After a group's policies are removed, the group gives no rule to anybody; the rules that another
-- group gives are what they were.
pub get_group_policy-remove_group :
    (ps : Policies) (gid uid : ℕ) (g : Group)
    → get_group_policy (remove_group ps gid) uid g
      ≡ (if g.id == gid then 0 else get_group_policy ps uid g)
unfolding get_group_policy
get_group_policy-remove_group ps gid uid g = elim (ℕ_discrete g.id gid) [
  | yes same ↦
      rw (if_pos _ same) (
        subst (λ i. group_rules (remove_group ps i) uid g 0 ≡ 0) same
          (remove_group-none ps uid g 0))
  | no other ↦ rw (if_neg _ other) (remove_group-others ps gid uid g 0 other)
]
