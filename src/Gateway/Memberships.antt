-- ===== src/Gateway/Memberships.antt =====
-- The table of members under each write: no two rows share a row's id, a user's place in a group or
-- a worker's place in a group, and each row's group is there.
use mesh_ml.Prelude.{
  ◌≡◌, refl, String, Bool, true, false, ◌&&◌, Option, none, some, List, [], ◌∷◌, ◌++◌, ◌=ˢ◌, eq_iff,
  arith, Bool-cases, inl, inr, ◌≢◌, subst, sym,
}
use mesh_ml.Gateway.Tables.{
  Group, GroupMember, ok, select_one, update_rows, delete_rows, is_text, has_id, in_group, by_user,
  by_worker, is_group,
}
use mesh_ml.Gateway.Invitations.{attach}
use mesh_ml.Gateway.Counting.{
  tally, Unique, append_unique, tally-append, tally-false, tally-delete_rows, tally-delete_rows_ne,
  tally-delete_rows_self, tally-update_rows, tally-update_rows_le, tally_disjoint, tally_mono,
  select_one-some,
}

pub record AreMembers (groups : List Group) (members : List GroupMember) : Type 0 where
  pub ids : Unique has_id members
  pub users : (g : String) → Unique (by_user g) members
  pub workers : (g : String) → Unique (by_worker g) members
  pub grouped : (g : String) → tally (is_group g) groups ≡ 0 → tally (in_group g) members ≡ 0

is_text_lem : (o : Option String) (s : String) → is_text o s ≡ true → o ≡ some s
is_text_lem none s h = absurd (cc)
is_text_lem (some t) s h = ground (arith, eq_iff t s)

-- The columns of a row that a key selects.
by_user_lem :
    (g u : String) (m : GroupMember)
    → by_user g u m ≡ true
    → (m.group_id ≡ g) × (m.user_id ≡ some u)
by_user_lem g u m h = (ground (arith, eq_iff m.group_id g), is_text_lem m.user_id u (ground arith))

by_worker_lem :
    (g w : String) (m : GroupMember)
    → by_worker g w m ≡ true
    → (m.group_id ≡ g) × (m.worker_id ≡ some w)
by_worker_lem g w m h =
    (ground (arith, eq_iff m.group_id g), is_text_lem m.worker_id w (ground arith))

module _ {groups : List Group} {members : List GroupMember} (inv : AreMembers groups members) where
  pub append-AreMembers :
      (m : GroupMember)
      → tally (has_id m.id) members ≡ 0
      → ((u : String) → m.user_id ≡ some u → tally (by_user m.group_id u) members ≡ 0)
      → ((w : String) → m.worker_id ≡ some w → tally (by_worker m.group_id w) members ≡ 0)
      → tally (is_group m.group_id) groups ≢ 0
      → AreMembers groups (members ++ m ∷ [])
  append-AreMembers m new_id new_user new_worker known = record {
    ids = λ i.
        append_unique (has_id i) m members (inv.ids i)
          (λ same. subst (λ j. tally (has_id j) members ≡ 0) ((eq_iff m.id i).0 same) new_id);
    users = λ g u. append_unique (by_user g u) m members (inv.users g u) (λ same.
        let (here, e) = by_user_lem g u m same in
        subst (λ h. tally (by_user h u) members ≡ 0) here (new_user u e));
    workers = λ g w. append_unique (by_worker g w) m members (inv.workers g w) (λ same.
        let (here, e) = by_worker_lem g w m same in
        subst (λ h. tally (by_worker h w) members ≡ 0) here (new_worker w e));
    grouped = λ g none_there. ground (
      arith,
      tally-append (in_group g) members m,
      inv.grouped g none_there,
      eq_iff m.group_id g,
      λ (e : m.group_id ≡ g). known (subst (λ h. tally (is_group h) groups ≡ 0) (sym e) none_there),
    );
  }

  pub delete-AreMembers : (p : GroupMember → Bool) → AreMembers groups (delete_rows p members)
  delete-AreMembers p = record {
    ids = λ i. omega (arith, tally-delete_rows (has_id i) p members, inv.ids i);
    users = λ g u. omega (arith, tally-delete_rows (by_user g u) p members, inv.users g u);
    workers = λ g w. omega (arith, tally-delete_rows (by_worker g w) p members, inv.workers g w);
    grouped = λ g none_there.
        omega (arith, tally-delete_rows (in_group g) p members, inv.grouped g none_there);
  }

  -- A write to other columns.
  pub update-AreMembers :
      (p : GroupMember → Bool) (f : GroupMember → GroupMember)
      → ((m : GroupMember) → (f m).id ≡ m.id)
      → ((m : GroupMember) → (f m).group_id ≡ m.group_id)
      → ((m : GroupMember) → (f m).user_id ≡ m.user_id)
      → ((m : GroupMember) → (f m).worker_id ≡ m.worker_id)
      → AreMembers groups (update_rows p f members)
  update-AreMembers p f id group user worker = record {
    ids = λ i.
        omega (arith, inv.ids i, tally-update_rows (has_id i) p f members (λ m. rw (id m) refl));
    users = λ g u. omega (
      arith,
      inv.users g u,
      tally-update_rows (by_user g u) p f members (λ m. rw (group m, user m) refl),
    );
    workers = λ g w. omega (
      arith,
      inv.workers g w,
      tally-update_rows (by_worker g w) p f members (λ m. rw (group m, worker m) refl),
    );
    grouped = λ g none_there. omega (
      arith,
      inv.grouped g none_there,
      tally-update_rows (in_group g) p f members (λ m. rw (group m) refl),
    );
  }

  -- The worker is attached to the one row of a user: no row of the group had it.
  pub attach-AreMembers :
      (g u w : String) {row : GroupMember}
      → select_one (by_user g u) members ≡ ok (some row)
      → tally (by_worker g w) members ≡ 0
      → AreMembers groups (update_rows (has_id row.id) (attach w) members)
  attach-AreMembers g u w {row = row} found new = record {
    ids = λ i. omega (
      arith,
      inv.ids i,
      tally-update_rows (has_id i) (has_id row.id) (attach w) members (λ m. refl),
    );
    users = λ h v. omega (
      arith,
      inv.users h v,
      tally-update_rows (by_user h v) (has_id row.id) (attach w) members (λ m. refl),
    );
    workers = λ h v. elim (Bool-cases (w =ˢ v)) [
      | inr other ↦ omega (
        arith,
        inv.workers h v,
        tally-false members,
        tally-update_rows_le (by_worker h v) (has_id row.id) (λ m. false) (attach w) members
            (λ m here now before. ground arith),
      )
      | inl same ↦
          let in_row = λ (k : String) (m : GroupMember). has_id row.id m && in_group k m in
          let more =
            tally-update_rows_le (by_worker h v) (has_id row.id) (in_row h) (attach w) members
              (λ m here now before. ground arith) in
          elim (Bool-cases (g =ˢ h)) [
            | inl here ↦
                let none_yet : tally (by_worker h v) members ≡ 0 =
                  subst (λ k. tally (by_worker k v) members ≡ 0) ((eq_iff g h).0 here)
                    (subst (λ k. tally (by_worker g k) members ≡ 0) ((eq_iff w v).0 same) new) in
                omega (
                  arith,
                  none_yet,
                  more,
                  inv.ids row.id,
                  tally_mono (in_row h) (has_id row.id) members (λ m r. ground arith),
                )
            | inr there ↦
                let (row_there, counted) =
                  select_one-some (by_user g u) (in_row g) members {x = row} found in
                omega (
                  arith,
                  inv.workers h v,
                  more,
                  counted (ground (arith, row_there, eq_iff row.id row.id)),
                  inv.ids row.id,
                  tally_disjoint (in_row g) (in_row h) (has_id row.id) members (λ m r. ground arith)
                      (λ m r. ground arith)
                      (λ m r s.
                        ground (arith, eq_iff m.group_id g, eq_iff m.group_id h, eq_iff g h)),
                )
          ]
    ];
    grouped = λ h none_there. omega (
      arith,
      inv.grouped h none_there,
      tally-update_rows (in_group h) (has_id row.id) (attach w) members (λ m. refl),
    );
  }

-- The group is new, and no row refers to it.
pub add_group-AreMembers :
    (group : Group) (groups : List Group) (members : List GroupMember)
    → AreMembers groups members
    → AreMembers (groups ++ group ∷ []) members
add_group-AreMembers group groups members inv = record {
  ids = inv.ids;
  users = inv.users;
  workers = inv.workers;
  grouped = λ g none_there. inv.grouped g (ground (arith, tally-append (is_group g) groups group));
}

-- A group goes with its rows.
pub delete_group-AreMembers :
    (id : String) (groups : List Group) (members : List GroupMember)
    → AreMembers groups members
    → AreMembers (delete_rows (is_group id) groups) (delete_rows (in_group id) members)
delete_group-AreMembers id groups members inv =
    let kept = delete-AreMembers inv (in_group id) in
    record {
      ids = kept.ids;
      users = kept.users;
      workers = kept.workers;
      grouped = λ g none_there. elim (Bool-cases (id =ˢ g)) [
        | inl same ↦
            subst (λ h. tally (in_group h) (delete_rows (in_group id) members) ≡ 0)
              ((eq_iff id g).0 same) (tally-delete_rows_self (in_group id) members)
        | inr other ↦
            let kept_groups =
              tally-delete_rows_ne (is_group g) (is_group id) groups
                (λ row there. ground (arith, eq_iff row.id g, eq_iff row.id id, eq_iff id g)) in
            omega (
              arith,
              kept_groups,
              inv.grouped g (omega (arith, kept_groups)),
              tally-delete_rows (in_group g) (in_group id) members,
            )
      ];
    }

-- The groups' other columns do not matter.
pub update_groups-AreMembers :
    (p : Group → Bool) (f : Group → Group) (groups : List Group) (members : List GroupMember)
    → ((g : Group) → (f g).id ≡ g.id)
    → AreMembers groups members
    → AreMembers (update_rows p f groups) members
update_groups-AreMembers p f groups members id inv = record {
  ids = inv.ids;
  users = inv.users;
  workers = inv.workers;
  grouped = λ g none_there.
      inv.grouped g
        (omega (arith, tally-update_rows (is_group g) p f groups (λ row. rw (id row) refl)));
}
