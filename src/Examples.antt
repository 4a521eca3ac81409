-- ===== src/Examples.antt =====
-- A small device, an Agent over it and requests, on which the theorems are applied and the model is
-- run.
mod Device
mod Model
mod WorkerModel
mod Worker
mod FilesModel
mod Files
mod HttpModel
mod Http
mod Ports
mod Permutation
mod Tofino
mod Control
mod Requests
mod Runtime
mod Threads
