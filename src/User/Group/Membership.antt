-- ===== src/User/Group/Membership.antt =====
-- What each operation of a group and of the list of groups does to who is a member of what.
use agro_daemon.Base.{
  ℕ, ◌≡◌, refl, ◌≢◌, Bool, false, ◌&&◌, ◌||◌, List, [], ◌∷◌, map, ◌==◌, nat_eq, any, if◌then◌else◌,
  arith, ap, sym, subst, ◌∙◌, ℕ_discrete, contains-append, erase_first, erase_first-any,
  any-eq-contains, NodupB, All,
}
use agro_daemon.Base.Lists
use mathlib.Core.Logic.{if_pos, if_neg}
use agro_daemon.User.Group.{
  Group, Groups, contains, add, remove, add_user, add_user_to_groups, remove_user_from_all,
  contains_id, contains_user,
}
use agro_daemon.User.Group.Invariant.{IsValid}

pub contains-add : (g : Group) (id u : ℕ) → contains (add g id).1 u ≡ (contains g u || (id == u))
unfolding add contains
contains-add g id u = ground (arith, contains-append g.users (id ∷ []) u)

erase_first-contains_ne :
    (xs : List ℕ) (a b : ℕ)
    → a ≢ b
    → Lists.contains (erase_first (λ u. u == a) xs).1 b ≡ Lists.contains xs b
erase_first-contains_ne [] a b h = refl
erase_first-contains_ne (x ∷ xs) a b h = ground (arith, erase_first-contains_ne xs a b h)

erase_first-contains_self :
    (xs : List ℕ) (a : ℕ) → NodupB xs → Lists.contains (erase_first (λ u. u == a) xs).1 a ≡ false
erase_first-contains_self [] a h = refl
erase_first-contains_self (x ∷ xs) a h = ground (arith, erase_first-contains_self xs a h.1)

pub contains-remove_ne : (g : Group) (a b : ℕ) → a ≢ b → contains (remove g a).1 b ≡ contains g b
unfolding contains remove
contains-remove_ne g a b h = ground (arith, erase_first-contains_ne g.users a b h)

pub contains-remove_self : (g : Group) (a : ℕ) → NodupB g.users → contains (remove g a).1 a ≡ false
unfolding contains remove
contains-remove_self g a h = ground (
  arith,
  erase_first-contains_self g.users a h,
  erase_first-any (λ u. u == a) g.users,
  any-eq-contains g.users a,
)

-- The fields that no change of members touches.
pub id-add : (g : Group) (u : ℕ) → (add g u).1.id ≡ g.id
unfolding add
id-add g u = ground arith

pub id-remove : (g : Group) (u : ℕ) → (remove g u).1.id ≡ g.id
unfolding remove
id-remove g u = ground arith

-- The membership of one user: for each group its id, and whether the user is a member.
unfoldable pub view : ℕ → Groups → List (ℕ × Bool)
view u gs = map (λ g. (g.id, contains g u)) gs

pub view-add_user_to_groups :
    (gs : Groups) (uid : ℕ) (gids : List ℕ) (u : ℕ)
    → view u (add_user_to_groups gs uid gids)
      ≡ map (λ e. (e.0, e.1 || (uid == u && Lists.contains gids e.0))) (view u gs)
unfolding view add_user_to_groups
view-add_user_to_groups [] uid gids u = refl
view-add_user_to_groups (g ∷ gs) uid gids u =
    ground (arith, view-add_user_to_groups gs uid gids u, contains-add g uid u, id-add g uid)

pub view-remove_user_from_all_ne :
    (gs : Groups) (a u : ℕ) → a ≢ u → view u (remove_user_from_all gs a) ≡ view u gs
unfolding view remove_user_from_all
view-remove_user_from_all_ne [] a u h = refl
view-remove_user_from_all_ne (g ∷ gs) a u h =
    ground (arith, view-remove_user_from_all_ne gs a u h, contains-remove_ne g a u h, id-remove g a)

pub view-remove_user_from_all_self :
    (gs : Groups) (a : ℕ)
    → All (λ g. NodupB g.users) gs
    → view a (remove_user_from_all gs a) ≡ map (λ e. (e.0, false)) (view a gs)
unfolding view remove_user_from_all
view-remove_user_from_all_self [] a h = refl
view-remove_user_from_all_self (g ∷ gs) a h =
    ground
      (arith, view-remove_user_from_all_self gs a h.1, contains-remove_self g a h.0, id-remove g a)

pub view-add_user_ne :
    (gs : Groups) (gid uid u : ℕ) → uid ≢ u → view u (add_user gs gid uid).1 ≡ view u gs
unfolding view add_user
view-add_user_ne [] gid uid u h = refl
view-add_user_ne (g ∷ gs) gid uid u h =
    ground (arith, view-add_user_ne gs gid uid u h, contains-add g uid u, id-add g uid)

-- A user is a member of the group with an id if the view says so of the first entry with that id.
pub member : List (ℕ × Bool) → ℕ → Bool
member [] gid = false
member ((i, b) ∷ es) gid = if i == gid then b else member es gid

pub contains_user-view : (gs : Groups) (gid u : ℕ) → contains_user gs gid u ≡ member (view u gs) gid
unfolding contains_user view member
contains_user-view [] gid u = refl
contains_user-view (g ∷ gs) gid u = ground (arith, contains_user-view gs gid u)

member-map :
    (h : ℕ → Bool → Bool) (es : List (ℕ × Bool)) (gid : ℕ)
    → member (map (λ e. (e.0, h e.0 e.1)) es) gid
      ≡ (any (λ e. e.0 == gid) es && h gid (member es gid))
unfolding member
member-map h [] gid = refl
member-map h ((i, b) ∷ es) gid = ground (arith, member-map h es gid)

contains_id-view :
    (gs : Groups) (gid u : ℕ) → contains_id gs gid ≡ any (λ e. e.0 == gid) (view u gs)
unfolding contains_id view
contains_id-view [] gid u = refl
contains_id-view (g ∷ gs) gid u = ground (arith, contains_id-view gs gid u)

-- The entries of the user after a clear and a set, and those of another user.
pub view-set_groups_self :
    (gs : Groups) (u : ℕ) (gids : List ℕ)
    → All (λ g. NodupB g.users) gs
    → view u (add_user_to_groups (remove_user_from_all gs u) u gids)
      ≡ map (λ e. (e.0, Lists.contains gids e.0)) (view u gs)
view-set_groups_self gs u gids h =
    view-add_user_to_groups (remove_user_from_all gs u) u gids u
    ∙ ap (map (λ e. (e.0, e.1 || (u == u && Lists.contains gids e.0))))
        (view-remove_user_from_all_self gs u h)
    ∙ set_entries u gids (view u gs)
  where
    set_entries :
        (u : ℕ) (gids : List ℕ) (es : List (ℕ × Bool))
        → map {B = ℕ × Bool}
            (λ e. (e.0, e.1 || (u == u && Lists.contains gids e.0)))
            (map {B = ℕ × Bool} (λ e. (e.0, false)) es)
          ≡ map (λ e. (e.0, Lists.contains gids e.0)) es
    set_entries u gids [] = refl
    set_entries u gids (e ∷ es) = ground (arith, set_entries u gids es)

pub view-add_user_to_groups_ne :
    (gs : Groups) (a : ℕ) (gids : List ℕ) (u : ℕ)
    → a ≢ u
    → view u (add_user_to_groups gs a gids) ≡ view u gs
unfolding view add_user_to_groups
view-add_user_to_groups_ne [] a gids u h = refl
view-add_user_to_groups_ne (g ∷ gs) a gids u h =
    ground (arith, view-add_user_to_groups_ne gs a gids u h, contains-add g a u, id-add g a)

pub view-set_groups_ne :
    (gs : Groups) (a : ℕ) (gids : List ℕ) (u : ℕ)
    → a ≢ u
    → view u (add_user_to_groups (remove_user_from_all gs a) a gids) ≡ view u gs
view-set_groups_ne gs a gids u h =
    view-add_user_to_groups_ne _ a gids u h ∙ view-remove_user_from_all_ne gs a u h

-- After the user's memberships are cleared and set to a list of group ids, the user is a member of
-- a group exactly if the group is there and the list names it, and the memberships of every other
-- user are what they were.
pub set_groups-membership :
    (gs : Groups) (uid : ℕ) (gids : List ℕ) (gid u : ℕ)
    → IsValid gs
    → contains_user (add_user_to_groups (remove_user_from_all gs uid) uid gids) gid u
      ≡ (if uid == u then contains_id gs gid && Lists.contains gids gid else contains_user gs gid u)
set_groups-membership gs uid gids gid u v = elim (ℕ_discrete uid u) [
  | yes same ↦ rw (if_pos _ same) (
      subst
        (λ w.
          contains_user (add_user_to_groups (remove_user_from_all gs w) w gids) gid u
          ≡ (contains_id gs gid && Lists.contains gids gid))
        (sym same)
        (contains_user-view _ gid u
          ∙ ap (λ es. member es gid) (view-set_groups_self gs u gids v.unique_users)
          ∙ member-map (λ i _. Lists.contains gids i) (view u gs) gid
          ∙ ap (λ b. b && Lists.contains gids gid) (sym (contains_id-view gs gid u))))
  | no other ↦ rw (if_neg _ other) (
      contains_user-view _ gid u
      ∙ ap (λ es. member es gid) (view-set_groups_ne gs uid gids u other)
      ∙ sym (contains_user-view gs gid u))
]

-- Adding a user to the groups of a list keeps all memberships and makes the user a member of those
-- groups of the list that exist.
pub contains_user-add_user_to_groups :
    (gs : Groups) (uid : ℕ) (gids : List ℕ) (gid u : ℕ)
    → contains_user (add_user_to_groups gs uid gids) gid u
      ≡ (contains_user gs gid u || (uid == u && (contains_id gs gid && Lists.contains gids gid)))
unfolding contains_user contains_id add_user_to_groups
contains_user-add_user_to_groups [] uid gids gid u = ground arith
contains_user-add_user_to_groups (g ∷ gs) uid gids gid u =
    ground (
      arith,
      contains_user-add_user_to_groups gs uid gids gid u,
      contains-add g uid u,
      id-add g uid,
    )

-- A user that is removed from all groups is a member of none; the others keep their memberships.
pub contains_user-remove_user_from_all :
    (gs : Groups) (uid gid u : ℕ)
    → All (λ g. NodupB g.users) gs
    → contains_user (remove_user_from_all gs uid) gid u
      ≡ (if uid == u then false else contains_user gs gid u)
unfolding contains_user remove_user_from_all
contains_user-remove_user_from_all [] uid gid u h = ground arith
contains_user-remove_user_from_all (g ∷ gs) uid gid u h = ground (
  arith,
  contains_user-remove_user_from_all gs uid gid u h.1,
  contains-remove_ne g uid u,
  contains-remove_self g uid h.0,
  id-remove g uid,
)
