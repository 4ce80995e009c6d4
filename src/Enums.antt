-- ===== src/Enums.antt =====
-- models/enums.py: the enumerations and their rules, one child for each part of the file, and
-- the constraint of models/dependency.py. Display texts are left out.
pub mod Role
pub mod Program
pub mod Dependency
pub mod Constraint
pub mod Activity
pub mod Resource
mod Tests
