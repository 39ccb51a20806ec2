-- ===== src/Types.antt =====
-- rex-typesystem/src/types.rs and rex-typesystem/src/unification.rs: the types of the language,
-- substitutions and unification.
pub mod Builtin
pub mod Syntax
pub mod Inst
pub mod Subst
pub mod Apply
pub mod Ftv
pub mod Compose
pub mod Constants
pub mod Tests
pub mod Vars
pub mod Fragment
pub mod Unify
