-- ===== src/Modules.antt =====
-- public/tge/module: what a module tells the runtime about itself (module.hpp).
-- A pointer is the number that identifies what it points to. What the virtual functions of an
-- `IModuleId` answer is fixed for the life of the process, so it is a table over those numbers.
pub mod Version
pub mod Graph
use tge_core.Prelude.{ℕ, List, Option}

pub data DependencyKind : Type 0 where
  required optional notify : DependencyKind

-- `pModule` may be null.
pub record Dependency : Type 0 where
  pub module_id : Option ℕ
  pub kind : DependencyKind
  pub min_version : Version.Version

-- An `IModule*`: its own address, `GetId()` and `GetDependencies()`.
pub record Module : Type 0 where
  pub address : ℕ
  pub id : ℕ
  pub dependencies : List Dependency

-- `GetVersion()` and `GetContractVersion()` of each `IModuleId`.
pub record ModuleIds : Type 0 where
  pub version : ℕ → Version.Version
  pub contract_version : ℕ → ℕ

abbrev pub module_contract_version : ℕ
module_contract_version = 1
