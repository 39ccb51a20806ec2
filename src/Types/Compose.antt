-- ===== src/Types/Compose.antt =====
-- rex-typesystem/src/unification.rs, `compose_subst`.
pub mod Laws
use rex.Prelude.{List, [], ◌∷◌, if◌then◌else◌}
use rex.Types.Subst.{Subst, insert, subst_is_empty}
use rex.Types.Apply.{apply}

-- `for (k, v) in b.iter() { res = res.insert(*k, v.apply(&a)); }`
insert_applied : Subst → Subst → Subst → Subst
insert_applied a [] res = res
insert_applied a ((k, v) ∷ b) res = insert_applied a b (insert k (apply a v) res)

-- `for (k, v) in a.iter() { res = res.insert(*k, v.clone()); }`
insert_all : Subst → Subst → Subst
insert_all [] res = res
insert_all ((k, v) ∷ a) res = insert_all a (insert k v res)

unfoldable pub compose_subst : Subst → Subst → Subst
unfolding insert_applied insert_all subst_is_empty
compose_subst a b =
    if subst_is_empty a
    then b
    else if subst_is_empty b
    then a
    else insert_all a (insert_applied a b [])
