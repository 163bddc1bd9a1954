-- ===== src/User/Group/Refused.antt =====
-- A call on the list of groups that returns false leaves the list as it was, and a group that has
-- been offered once is refused the next time.
use agro_daemon.Base.{
  ℕ, ◌≡◌, refl, false, ◌||◌, [], ◌∷◌, ◌==◌, nat_eq, string_eq, arith, any, any-append,
  erase_first-any, erase_first-eq_of_none, Bool-cases, inl, inr, ◌∙◌, sym,
}
use agro_daemon.User.Group.{Group, Groups, add_group, remove_group, add_user}

pub add_user-refused :
    (gs : Groups) (gid uid : ℕ) → (add_user gs gid uid).0 ≡ false → (add_user gs gid uid).1 ≡ gs
unfolding add_user
add_user-refused [] gid uid h = refl
add_user-refused (g ∷ gs) gid uid h = ground (arith, add_user-refused gs gid uid)

pub remove_group-refused :
    (gs : Groups) (id : ℕ) → (remove_group gs id).0 ≡ false → (remove_group gs id).1 ≡ gs
unfolding remove_group
remove_group-refused gs id h =
    erase_first-eq_of_none _ gs (sym (erase_first-any (λ g. g.id == id) gs) ∙ h)

pub add_group-refused :
    (gs : Groups) (g : Group) → (add_group gs g).0 ≡ false → (add_group gs g).1 ≡ gs
unfolding add_group
add_group-refused gs g h = ground arith

pub add_group-twice :
    (gs : Groups) (g : Group) → add_group (add_group gs g).1 g ≡ (false, (add_group gs g).1)
unfolding add_group
add_group-twice gs g =
    let clash = λ (o : Group). (o.id == g.id) || (o.name == g.name) in
    elim (Bool-cases (any clash gs)) [
      | inl taken ↦ rw (taken, taken)
      | inr free ↦ ground (arith, any-append clash gs (g ∷ []))
    ]
