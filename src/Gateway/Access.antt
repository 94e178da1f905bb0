-- ===== src/Gateway/Access.antt =====
-- Who may change a group: what a request of somebody who does not manage it leaves alone.
use mesh_ml.Prelude.{
  ℕ, ◌≤◌, ◌≡◌, refl, String, Bool, true, false, ◌&&◌, not, Option, none, some, List, [], ◌∷◌, ◌++◌,
  ◌=ˢ◌, eq_iff, arith, Bool-cases, inl, inr, ◌≢◌, subst, sym, ap, ◌∙◌, is_some,
}
use mesh_ml.Gateway.Tables.{
  Role, owner, worker, is_owner, is_manager, Group, GroupMember, Database, ok, forbidden, not_found,
  bad_request, integrity_error, select_one, any_row, has_id, in_group, by_user, by_worker, is_group,
  membership, is_not_manager, new_member, is_text,
}
use mesh_ml.Gateway.Groups.{
  GroupCreateRequest, GroupUpdateRequest, new_group, create_group, join_public_group,
  update_member_role, remove_member, updated, update_group, delete_group, is_not_owner,
}
use mesh_ml.Gateway.Counting.{
  tally, tally_none, tally-false, tally-delete_rows, tally-delete_rows_ne, tally_disjoint,
  tally-append, tally-update_rows_off, tally-delete_rows_off, select_one-some, add_row-ok,
}
use mesh_ml.Gateway.Endings.{Ensures, returns, select_step, add_step, found_step, guard_step}
use mesh_ml.Gateway.Soundness.{IsSound}

-- A membership that lets a user manage a group, and one that makes its user an owner.
abbrev pub manages : (group_id user_id : String) → GroupMember → Bool
manages g u m = by_user g u m && is_manager m.role

abbrev pub owns : (group_id : String) → GroupMember → Bool
owns g m = in_group g m && is_owner m.role

abbrev with_role : Role → GroupMember → GroupMember
with_role role m = record m { role = role }

-- A place of a user in a group, in a role that meets a condition.
abbrev pub in_role : (group_id user_id : String) → (Role → Bool) → GroupMember → Bool
in_role g u q m = by_user g u m && q m.role

-- After a request of `user`, the group's rows are the same, it has as many owners, nobody has become
-- its manager, and every other user has the same places in it in the same roles.
pub record Respects (user g : String) (db db' : Database) : Type 0 where
  pub rows :
      (q : Group → Bool)
      → tally (λ row. is_group g row && q row) db'.groups
        ≡ tally (λ row. is_group g row && q row) db.groups
  pub owners : tally (owns g) db'.members ≡ tally (owns g) db.members
  pub managers : (u : String) → tally (manages g u) db'.members ≤ tally (manages g u) db.members
  pub roles :
      (u : String) (q : Role → Bool)
      → (user =ˢ u) ≡ false
      → tally (in_role g u q) db'.members ≡ tally (in_role g u q) db.members

-- The caller of a handler who is let through as a manager of a group manages it.
manager_found :
    (g u : String) (members : List GroupMember) (row : Option GroupMember)
    → select_one (by_user g u) members ≡ ok row
    → is_not_manager row ≡ false
    → 1 ≤ tally (manages g u) members
manager_found g u members none found allowed = absurd (cc)
manager_found g u members (some m) found allowed =
    let (here, counted) = select_one-some (by_user g u) (manages g u) members {x = m} found in
    counted (rw here (ground arith))

-- A write to the row of a user's place in another group meets no row of the group.
other_row :
    (g h u : String) (members : List GroupMember) {row : GroupMember}
    → tally (has_id row.id) members ≤ 1
    → select_one (by_user h u) members ≡ ok (some row)
    → g ≢ h
    → tally (λ m. has_id row.id m && in_group g m) members ≡ 0
other_row g h u members {row = row} one found other =
    let here = λ (m : GroupMember). has_id row.id m && in_group h m in
    let (is_h, counted) = select_one-some (by_user h u) here members {x = row} found in
    omega (
      arith,
      one,
      counted (ground (arith, eq_iff row.id row.id)),
      tally_disjoint here (λ m. has_id row.id m && in_group g m) (has_id row.id) members
          (λ m k. ground arith) (λ m k. ground arith)
          (λ m k l. ground (arith, eq_iff m.group_id g, eq_iff m.group_id h)),
    )

same_text : (o : Option String) (u v : String) → is_text o u ≡ true → is_text o v ≡ true → u ≡ v
same_text none u v h k = absurd (cc)
same_text (some t) u v h k = ground (arith, eq_iff t u, eq_iff t v)

-- The row of one place is no row of another place.
other_place :
    (g u h v : String) (q : Role → Bool) (members : List GroupMember) {row : GroupMember}
    → tally (has_id row.id) members ≤ 1
    → select_one (by_user h v) members ≡ ok (some row)
    → (g ≡ h → u ≡ v → ⊥)
    → tally (λ m. has_id row.id m && in_role g u q m) members ≡ 0
other_place g u h v q members {row = row} one found other =
    let here = λ (m : GroupMember). has_id row.id m && by_user h v m in
    let (is_v, counted) = select_one-some (by_user h v) here members {x = row} found in
    omega (
      arith,
      one,
      counted (rw is_v (ground (arith, eq_iff row.id row.id))),
      tally_disjoint here (λ m. has_id row.id m && in_role g u q m) (has_id row.id) members
          (λ m k. ground arith) (λ m k. ground arith)
          (λ m k l.
            other (ground (arith, eq_iff m.group_id g, eq_iff m.group_id h))
              (same_text m.user_id u v (ground arith) (ground arith))),
    )

owner_manages : (row : Option GroupMember) → is_not_owner row ≡ false → is_not_manager row ≡ false
owner_manages none h = cc
owner_manages (some m) h = ground arith

module _ (g : String) {db : Database} (inv : IsSound db) (user : String)
    (outsider : tally (manages g user) db.members ≡ 0) where
  -- Who manages a group is not the outsider of that group.
  other_group :
      (h : String) (row : Option GroupMember)
      → select_one (by_user h user) db.members ≡ ok row
      → is_not_manager row ≡ false
      → g ≢ h
  other_group h row found allowed same = omega (
    arith,
    outsider,
    subst (λ k. 1 ≤ tally (manages k user) db.members) (sym same)
        (manager_found h user db.members row found allowed),
  )

  -- Who is let through to remove the place of somebody else in the group is no outsider.
  own_place :
      (h v u : String) (row : Option GroupMember)
      → select_one (by_user h user) db.members ≡ ok row
      → (not (user =ˢ v) && is_not_manager row) ≡ false
      → (user =ˢ u) ≡ false
      → g ≡ h
      → u ≡ v
      → ⊥
  own_place h v u row found allowed other same_group same_user =
      let not_own : (user =ˢ v) ≡ false = subst (λ w. (user =ˢ w) ≡ false) same_user other in
      other_group h row found (ground arith) same_group

  pub update_member_role-Respects :
      (group_id user_id : String) (role : Role)
      → Ensures (Respects user g db) (update_member_role group_id user_id role user db)
  unfolding update_member_role membership
  update_member_role-Respects group_id user_id role =
      select_step (by_user group_id user) db.members _ (inv.members.users group_id user)
        λ current is_current. guard_step (is_not_manager current) forbidden _ refl λ allowed.
          select_step (by_user group_id user_id) db.members _ (inv.members.users group_id user_id)
            λ target is_target. found_step target not_found _ refl λ row is_row.
              let off =
                other_row g group_id user_id db.members (inv.members.ids row.id)
                  (is_target ∙ ap ok is_row) (other_group group_id current is_current allowed) in
              returns record {
                rows = λ q. refl;
                owners =
                    tally-update_rows_off (owns g) (has_id row.id) (with_role role) db.members (
                      tally_none _ (λ m. has_id row.id m && in_group g m) db.members off
                        (λ m k. ground arith));
                managers = λ u. omega (
                  arith,
                  tally-update_rows_off (manages g u) (has_id row.id) (with_role role) db.members (
                      tally_none _ (λ m. has_id row.id m && in_group g m) db.members off
                        (λ m k. ground arith)),
                );
                roles = λ u q other.
                    tally-update_rows_off (in_role g u q) (has_id row.id) (with_role role)
                      db.members
                      (tally_none _ (λ m. has_id row.id m && in_group g m) db.members off
                        (λ m k. ground arith));
              }

  pub update_group-Respects :
      (group_id : String) (request : GroupUpdateRequest)
      → Ensures (λ out. Respects user g db out.0) (update_group group_id request user db)
  unfolding update_group membership updated
  update_group-Respects group_id request =
      select_step (by_user group_id user) db.members _ (inv.members.users group_id user)
        λ current is_current. guard_step (is_not_manager current) forbidden _ refl λ allowed.
          select_step (is_group group_id) db.groups _ (inv.groups group_id) λ found is_found.
            found_step found not_found _ refl λ group is_there.
              let other = other_group group_id current is_current allowed in
              returns record {
                rows = λ q.
                    tally-update_rows_off (λ row. is_group g row && q row) (is_group group_id)
                      (updated request) db.groups
                      (tally_none _ (λ row. false) db.groups (tally-false db.groups)
                        (λ row k. ground (arith, eq_iff row.id g, eq_iff row.id group_id)));
                owners = refl;
                managers = λ u. omega arith;
                roles = λ u q other. refl;
              }

  pub delete_group-Respects :
      (group_id : String) → Ensures (Respects user g db) (delete_group group_id user db)
  unfolding delete_group membership
  delete_group-Respects group_id =
      select_step (by_user group_id user) db.members _ (inv.members.users group_id user)
        λ current is_current. guard_step (is_not_owner current) forbidden _ refl λ allowed.
          select_step (is_group group_id) db.groups _ (inv.groups group_id) λ found is_found.
            found_step found not_found _ refl λ group is_there.
              guard_step (any_row (λ j. j.group_id =ˢ group_id) db.jobs) integrity_error _ refl
                λ no_jobs.
                  let other =
                    other_group group_id current is_current (owner_manages current allowed) in
                  returns record {
                    rows = λ q.
                        tally-delete_rows_ne (λ row. is_group g row && q row) (is_group group_id)
                          db.groups
                          (λ row k. ground (arith, eq_iff row.id g, eq_iff row.id group_id));
                    owners =
                        tally-delete_rows_ne (owns g) (in_group group_id) db.members
                          (λ m k. ground (arith, eq_iff m.group_id g, eq_iff m.group_id group_id));
                    managers = λ u.
                        omega
                          (arith, tally-delete_rows (manages g u) (in_group group_id) db.members);
                    roles = λ u q elsewhere.
                        tally-delete_rows_ne (in_role g u q) (in_group group_id) db.members
                          (λ m k. ground (arith, eq_iff m.group_id g, eq_iff m.group_id group_id));
                  }

  pub remove_member-Respects :
      (group_id user_id : String)
      → Ensures (Respects user g db) (remove_member group_id user_id user db)
  unfolding remove_member membership
  remove_member-Respects group_id user_id =
      select_step (by_user group_id user) db.members _ (inv.members.users group_id user)
        λ current is_current.
          guard_step (not (user =ˢ user_id) && is_not_manager current) forbidden _ refl λ allowed.
            select_step (by_user group_id user_id) db.members _ (inv.members.users group_id user_id)
              λ target is_target. found_step target not_found _ refl λ row is_row.
                guard_step (is_owner row.role) bad_request _ refl λ not_owner.
                  let humble = λ (m : GroupMember). has_id row.id m && not (is_owner m.role) in
                  let (here, counted) =
                    select_one-some (by_user group_id user_id) humble db.members {x = row}
                      (is_target ∙ ap ok is_row) in
                  returns record {
                    rows = λ q. refl;
                    owners = tally-delete_rows_off (owns g) (has_id row.id) db.members (
                        omega (
                          arith,
                          inv.members.ids row.id,
                          counted (rw not_owner (ground (arith, eq_iff row.id row.id))),
                          tally_disjoint humble (λ m. has_id row.id m && owns g m) (has_id row.id)
                              db.members (λ m k. ground arith) (λ m k. ground arith)
                              (λ m k l. ground arith),
                        ));
                    managers = λ u.
                        omega (arith, tally-delete_rows (manages g u) (has_id row.id) db.members);
                    roles = λ u q elsewhere.
                        tally-delete_rows_off (in_role g u q) (has_id row.id) db.members (
                          other_place g u group_id user_id q db.members {row = row}
                            (inv.members.ids row.id) (is_target ∙ ap ok is_row)
                            (λ same_group same_user.
                              own_place group_id user_id u current is_current allowed elsewhere
                                same_group same_user));
                  }

module _ (g user : String) {db : Database} (inv : IsSound db) where
  -- A row that gives no right to manage joins.
  append-Respects :
      (m : GroupMember)
      → (in_group g m && is_manager m.role) ≡ false
      → ((u : String) → (user =ˢ u) ≡ false → by_user g u m ≡ false)
      → Respects user g db (record db { members = db.members ++ m ∷ [] })
  append-Respects m humble own = record {
    rows = λ q. refl;
    owners = ground (arith, tally-append (owns g) db.members m);
    managers = λ u. ground (arith, tally-append (manages g u) db.members m);
    roles = λ u q other. ground (arith, own u other, tally-append (in_role g u q) db.members m);
  }

  pub join_public_group-Respects :
      (now : ℕ) (member_id group_id worker_id : String)
      → Ensures
          (λ out. Respects user g db out.0)
          (join_public_group now member_id group_id worker_id db)
  unfolding join_public_group
  join_public_group-Respects now member_id group_id worker_id =
      select_step (is_group group_id) db.groups _ (inv.groups group_id) λ found is_found.
        found_step found not_found _ refl λ group is_there.
          guard_step (not group.is_public) forbidden _ refl λ public.
            select_step (by_worker group_id worker_id) db.members _
              (inv.members.workers group_id worker_id)
              λ existing is_existing. guard_step (is_some existing) bad_request _ refl λ absent.
                let row = new_member now member_id group_id none (some worker_id) worker in
                add_step (has_id member_id) row db.members _ λ members added.
                  let (new_row, members_are) = add_row-ok (has_id member_id) row db.members added in
                  returns (
                    rw members_are
                      (append-Respects row (ground arith) (λ u elsewhere. ground arith)))

  pub create_group-Respects :
      (now : ℕ) (id member_id : String) (request : GroupCreateRequest)
      → tally (is_group g) db.groups ≢ 0
      → Ensures (λ out. Respects user g db out.0) (create_group now id member_id request user db)
  unfolding create_group
  create_group-Respects now id member_id request known =
      let group = new_group now id request user in
      let row = new_member now member_id id (some user) none owner in
      add_step (is_group id) group db.groups _ λ groups added.
        add_step (has_id member_id) row db.members _ λ members joined.
          let (new_id, groups_are) = add_row-ok (is_group id) group db.groups added in
          let (new_row, members_are) = add_row-ok (has_id member_id) row db.members joined in
          let other : (id =ˢ g) ≡ false = elim (Bool-cases (id =ˢ g)) [
            | inr ne ↦ ne
            | inl same ↦ absurd (
                known (subst (λ k. tally (is_group k) db.groups ≡ 0) ((eq_iff id g).0 same) new_id))
          ] in
          returns (
            rw (groups_are, members_are)
              record {
                rows = λ q.
                    ground (arith, tally-append (λ x. is_group g x && q x) db.groups group, other);
                owners = ground (arith, tally-append (owns g) db.members row, other);
                managers = λ u. ground (arith, tally-append (manages g u) db.members row, other);
                roles = λ u q elsewhere.
                    ground (arith, tally-append (in_role g u q) db.members row, other);
              })
