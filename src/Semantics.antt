-- ===== src/Semantics.antt =====
-- What a kernel does to a quantum state: the specification that the passes are held to.
-- `Model` has the interface and its laws, `Run` the meaning of a kernel, `Tableau` a model.
pub mod Model
pub mod Run
pub mod Laws
pub mod Tableau
