-- ===== src/User/Policy.antt =====
-- `Authorization::Policies`: src/user/policy.hpp and src/user/policy.cpp. A rule is a set of bits;
-- `|` and `&` of src/helper/enum_ops.hpp are those of the numbers.
pub mod Grants
use agro_daemon.Base.{
  ℕ, ◌^◌, Bool, true, false, not, ◌&&◌, List, [], ◌∷◌, ◌++◌, ◌==◌, nat_eq, bit_and, bit_or,
  if◌then◌else◌, any, remove_if,
}
use agro_daemon.User.Group
use agro_daemon.User.Rule
use agro_daemon.User.Group.{Group, Groups}

pub record Policy : Type 0 where
  pub id : ℕ
  pub gid : ℕ
  pub rules : ℕ

abbrev pub Policies : Type 0
Policies = List Policy

-- `static_cast<bool>(lhs & rhs)`
abbrev pub shares_bit : ℕ → ℕ → Bool
shares_bit lhs rhs = not (bit_and lhs rhs == 0)

-- The loop of `get_policy(user_id, Group const&)`, with `rules` so far.
unfoldable pub group_rules : Policies → ℕ → Group → ℕ → ℕ
group_rules [] uid group rules = rules
group_rules (p ∷ ps) uid group rules =
    group_rules ps uid group
      (if group.id == p.gid && Group.contains group uid then bit_or rules p.rules else rules)

unfoldable pub get_group_policy : Policies → ℕ → Group → ℕ
unfolding group_rules
get_group_policy ps uid group = group_rules ps uid group Rule.none

-- The loop of `get_policy(user_id, Groups const&)`.
unfoldable pub groups_rules : Policies → ℕ → Groups → ℕ → ℕ
groups_rules ps uid [] rules = rules
groups_rules ps uid (g ∷ gs) rules =
    groups_rules ps uid gs (bit_or rules (get_group_policy ps uid g))

unfoldable pub get_policy : Policies → ℕ → Groups → ℕ
unfolding groups_rules
get_policy ps uid gs = groups_rules ps uid gs Rule.none

unfoldable pub add : Policies → ℕ → ℕ → ℕ → Bool × Policies
add ps pid gid rule =
    if any (λ p. pid == p.id) ps
    then (false, ps)
    else (true, ps ++ (record { id = pid; gid = gid; rules = rule } ∷ []))

unfoldable pub remove_group : Policies → ℕ → Policies
remove_group ps gid = remove_if (λ policy. policy.gid == gid) ps
